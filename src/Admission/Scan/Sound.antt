-- ===== src/Admission/Scan/Sound.antt =====
-- A scan that returns: distinct volumes with positive sizes.
use kadalu.Prelude.{
  ℕ, ◌<◌, Bool, true, false, Option, none, some, List, [], ◌∷◌, Text, Bool-cases, inl, inr, ◌||◌,
}
use kadalu.Exec.{
  Result, ok, err, Error, value_error, Exec, Done, lift, modify, raise_if, continue, ◌>>=◌,
}
use kadalu.Json.{Json, Fields, get}
use kadalu.Intent.{positive_int, validate_creation_intent}
use kadalu.Intent.Expansion.{validate_expansion_intent}
use kadalu.Intent.Positive.{
  IsPositive, positive_int-IsPositive, PositiveResult, validate_creation-PositiveResult,
  validate_expansion-PositiveResult,
}
use kadalu.Admission.{Records}
use kadalu.Admission.Archives.{Mount, state_is}
use kadalu.Admission.Scan.{
  InfoFile, Scanning, has_key, scan_file, scan_files, exact, overlay_expansions, records_of,
  finish_scan, nothing_scanned, capacity_metadata_records, scan_creation, scan_expansion,
  scan_expansion_from, from_size_of, reserve, settle, scan_state, scan_identity, scan_metadata,
}
use kadalu.Admission.Identity.{capacity_record_identity, delete_tombstone_payload_path, member}
use kadalu.Admission.Scan.Laws.{
  ArePositive, AreSound, TargetsPositive, SoundResult, set_key-ArePositive, set_key-AreSound,
  set_key-TargetsPositive, exact-TargetsPositive, overlay-SoundResult,
}

-- What holds of the maps at every point of the walk.
pub record IsScanned (s : Scanning) : Type 0 where
  pub sound : AreSound s.reservations
  pub creations : ArePositive s.creation_intents
  pub expansions : TargetsPositive s.expansion_intents

record Keeps {A : Type 0} (m : Exec Scanning A) : Type 0 where
  at : (s : Scanning) → IsScanned s → IsScanned (m s).1

Keeps-then :
    {A B : Type 0} {m : Exec Scanning A} {f : A → Exec Scanning B}
    → Keeps m
    → ((a : A) → Keeps (f a))
    → Keeps (m >>= f)
Keeps-then {A} {B} {m} {f} km kf = record { at = λ s h. go (m s) (km.at s h) }
  where
    go : (r : Result A × Scanning) → IsScanned r.1 → IsScanned (continue f r).1
    go (ok a, s) h = (kf a).at s h
    go (err e, s) h = h

lift-Keeps : {A : Type 0} (r : Result A) → Keeps (lift r)
lift-Keeps r = record { at = λ s h. h }

raise_if-Keeps : (b : Bool) (e : Error) → Keeps (raise_if b e)
raise_if-Keeps true e = record { at = λ s h. h }
raise_if-Keeps false e = record { at = λ s h. h }

-- A validated intent has a positive size.
positive-Keeps :
    (r : Result (Text × ℕ)) (f : Text × ℕ → Exec Scanning Done)
    → PositiveResult r
    → ((v : Text) (n : ℕ) → 0 < n → Keeps (f (v, n)))
    → Keeps (lift r >>= f)
positive-Keeps (err e) f p k = record { at = λ s h. h }
positive-Keeps (ok (v, n)) f p k = record { at = λ s h. (k v n p).at s h }

module _ (hash : Text → Text) (mount : Mount) where
  scan_creation-Keeps : (v : Text) (n : ℕ) → 0 < n → Keeps (scan_creation hash mount v n)
  scan_creation-Keeps v n p = record {
    at = λ s h.
        (Keeps-then (raise_if-Keeps (has_key v s.creation_intents) value_error) (λ _. record {
          at = λ t k. record {
            sound = k.sound;
            creations = set_key-ArePositive v n t.creation_intents p k.creations;
            expansions = k.expansions;
          };
        })).at
          s h;
  }

  scan_expansion-Keeps : (v : Text) (m n : ℕ) → 0 < n → Keeps (scan_expansion hash mount v m n)
  scan_expansion-Keeps v m n p = record {
    at = λ s h.
        (Keeps-then (raise_if-Keeps (has_key v s.expansion_intents) value_error) (λ _. record {
          at = λ t k. record {
            sound = k.sound;
            creations = k.creations;
            expansions = set_key-TargetsPositive v m n t.expansion_intents p k.expansions;
          };
        })).at
          s h;
  }

  scan_expansion_from-Keeps :
      (v : Text) (n : ℕ) (o : Option ℕ) → 0 < n → Keeps (scan_expansion_from hash mount v n o)
  scan_expansion_from-Keeps v n none p = record { at = λ s h. h }
  scan_expansion_from-Keeps v n (some m) p = scan_expansion-Keeps v m n p

  reserve-Keeps :
      (v : Text) (n : ℕ) (alias : Option Text)
      → 0 < n
      → Keeps (modify (reserve hash mount v n alias))
  reserve-Keeps v n alias p = record {
    at = λ s h. record {
      sound = set_key-AreSound v n s.reservations p h.sound;
      creations = h.creations;
      expansions = h.expansions;
    };
  }

  settle-Keeps :
      (v : Text) (n : ℕ) (alias : Option Text) (b : Bool)
      → 0 < n
      → Keeps (settle hash mount v n alias b)
  settle-Keeps v n alias true p = reserve-Keeps v n alias p
  settle-Keeps v n alias false p = record {
    at = λ s h. record { sound = h.sound; creations = h.creations; expansions = h.expansions };
  }

  scan_state-Keeps :
      (path : Text) (metadata : Fields) (v : Text) (n : ℕ) (alias : Option Text)
      → 0 < n
      → Keeps (scan_state hash mount path metadata v n alias)
  scan_state-Keeps path metadata v n alias p =
      elim (Bool-cases (state_is "deleting" metadata || state_is "reclaiming" metadata)) [
        | inl e ↦ rw e (
            Keeps-then (lift-Keeps (delete_tombstone_payload_path hash mount path metadata v))
              (λ payload.
                Keeps-then (lift-Keeps (mount.exists payload)) (λ b. settle-Keeps v n alias b p)))
        | inr e ↦ rw e (reserve-Keeps v n alias p)
      ]

  scan_identity-Keeps :
      (path : Text) (metadata : Fields) (n : ℕ) (i : Text × Option Text)
      → 0 < n
      → Keeps (scan_identity hash mount path metadata n i)
  scan_identity-Keeps path metadata n (v, alias) p = record {
    at = λ s h.
        (Keeps-then (raise_if-Keeps (member v s.seen_ids) value_error) (λ _.
            Keeps-then {m = modify (λ t. record t { seen_ids = v ∷ t.seen_ids })}
              (record {
                at = λ t k. record {
                  sound = k.sound;
                  creations = k.creations;
                  expansions = k.expansions;
                };
              })
              (λ _. scan_state-Keeps path metadata v n alias p))).at
          s h;
  }

  scan_metadata-Keeps :
      (path : Text) (metadata : Fields) (o : Option ℕ)
      → IsPositive o
      → Keeps (scan_metadata hash mount path metadata o)
  scan_metadata-Keeps path metadata none p = record { at = λ s h. h }
  scan_metadata-Keeps path metadata (some n) p =
      Keeps-then (lift-Keeps (capacity_record_identity hash mount path metadata))
        (λ i. scan_identity-Keeps path metadata n i p)

  scan_file-Keeps : (file : InfoFile) → Keeps (scan_file hash mount file)
  scan_file-Keeps (InfoFile.create_intent path intent) =
      positive-Keeps (validate_creation_intent hash path intent) _
        (validate_creation-PositiveResult hash path intent) (λ v n p. scan_creation-Keeps v n p)
  scan_file-Keeps (InfoFile.expand_intent path intent) =
      positive-Keeps (validate_expansion_intent hash path intent) _
        (validate_expansion-PositiveResult hash path intent)
        (λ v n p. scan_expansion_from-Keeps v n (from_size_of hash mount intent) p)
  scan_file-Keeps (InfoFile.metadata_file path (Json.obj metadata)) =
      scan_metadata-Keeps path metadata (positive_int (get "size" metadata))
        (positive_int-IsPositive (get "size" metadata))
  scan_file-Keeps (InfoFile.metadata_file path Json.null) = record { at = λ s h. h }
  scan_file-Keeps (InfoFile.metadata_file path (Json.bool b)) = record { at = λ s h. h }
  scan_file-Keeps (InfoFile.metadata_file path (Json.int n)) = record { at = λ s h. h }
  scan_file-Keeps (InfoFile.metadata_file path (Json.str t)) = record { at = λ s h. h }
  scan_file-Keeps (InfoFile.metadata_file path (Json.arr vs)) = record { at = λ s h. h }

  scan_files-Keeps : (files : List InfoFile) → Keeps (scan_files hash mount files)
  scan_files-Keeps [] = record { at = λ s h. h }
  scan_files-Keeps (file ∷ files) = Keeps-then (scan_file-Keeps file) (λ _. scan_files-Keeps files)

-- The sizes are positive and the names distinct.
abbrev pub SoundRecords : Result Records → Type 0
SoundRecords (err e) = Unit
SoundRecords (ok records) = AreSound records.reservations

records-SoundRecords :
    (s : Scanning) (r : Result (List (Text × ℕ))) → SoundResult r → SoundRecords (records_of s r)
records-SoundRecords s (err e) h = tt
records-SoundRecords s (ok xs) h = h

expansions-SoundResult :
    (s : Scanning) (r : Result (List (Text × ℕ)))
    → IsScanned s
    → SoundResult r
    → SoundResult (overlay_expansions s r)
expansions-SoundResult s (err e) k h = tt
expansions-SoundResult s (ok xs) k h =
    overlay-SoundResult s.tombstones s.expansion_intents xs k.expansions h

finish-SoundRecords : (r : Result Done × Scanning) → IsScanned r.1 → SoundRecords (finish_scan r)
finish-SoundRecords (err e, s) h = tt
finish-SoundRecords (ok u, s) h = records-SoundRecords s _ (
    expansions-SoundResult s _ h (
      overlay-SoundResult s.tombstones (exact s.creation_intents) s.reservations
        (exact-TargetsPositive s.creation_intents h.creations) h.sound))

nothing-IsScanned : IsScanned nothing_scanned
nothing-IsScanned = record {
  sound = record { positive = tt; distinct = tt };
  creations = tt;
  expansions = tt;
}

-- If the scan of a pool's metadata files returns, then, whatever files there are, every size that it
-- reserves is a positive integer and no volume is reserved twice.
pub scan-SoundRecords :
    (hash : Text → Text) (mount : Mount) (files : List InfoFile)
    → SoundRecords (capacity_metadata_records hash mount files)
unfolding capacity_metadata_records
scan-SoundRecords hash mount files =
    finish-SoundRecords (scan_files hash mount files nothing_scanned)
      ((scan_files-Keeps hash mount files).at nothing_scanned nothing-IsScanned)
