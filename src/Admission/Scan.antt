-- ===== src/Admission/Scan.antt =====
-- The scan of a pool's metadata in csi/volumeutils.py: `_capacity_metadata_records`.
pub mod Laws
pub mod Sound
use kadalu.Prelude.{
  ℕ, Bool, true, false, not, ◌&&◌, ◌||◌, ◌==◌, Option, none, some, List, [], ◌∷◌, any, Text,
  text_eq, starts_with, compare_text, if◌then◌else◌,
}
use Prim.Native.Nat.{Ordering}
use kadalu.Exec.{
  Result, ok, err, value_error, type_error, Exec, Done, pure, raise, lift, gets, modify, raise_if,
  ◌>>=◌, ◌>>◌,
}
use kadalu.PosixPath.{basename, dirname}
use kadalu.Identifier.{is_safe_path_component, is_valid_csi_identifier}
use kadalu.Identifier.Paths.{get_volume_path}
use kadalu.Identifier.Legacy.{canonical_volume_paths}
use kadalu.Json.{Json, Fields, get}
use kadalu.Intent.{positive_int, validate_creation_intent}
use kadalu.Intent.Expansion.{validate_expansion_intent}
use kadalu.Admission.{Records, lookup}
use kadalu.Admission.Archives.{
  Mount, ArchiveDetails, metadata_path_matches, is_missing, is_text, text_of, archive_prefix,
  pvtypes, state_is, is_archive_state, legacy_archive_details, archive_metadata_details,
}
use kadalu.Admission.Identity.{member, capacity_record_identity, delete_tombstone_payload_path}

-- The files that the walk of `info/` finds, by their path without the suffix; others are passed over.
pub data InfoFile : Type 0 where
  create_intent : Text → Json → InfoFile
  expand_intent : Text → Json → InfoFile
  metadata_file : Text → Json → InfoFile

-- What the loop has collected; of an expansion, the volume with its sizes before and after.
pub record Scanning : Type 0 where
  pub reservations : List (Text × ℕ)
  pub aliases : List (Text × List Text)
  pub tombstones : List Text
  pub seen_ids : List Text
  pub creation_intents : List (Text × ℕ)
  pub expansion_intents : List (Text × (ℕ × ℕ))

abbrev pub has_key : {A : Type 0} → Text → List (Text × A) → Bool
has_key k [] = false
has_key k ((j, v) ∷ xs) = text_eq j k || has_key k xs

-- `d[k] = v`
abbrev pub set_key : {A : Type 0} → Text → A → List (Text × A) → List (Text × A)
set_key k v [] = (k, v) ∷ []
set_key k v ((j, w) ∷ xs) =
    let rest = set_key k v xs in if text_eq j k then (j, v) ∷ xs else (j, w) ∷ rest

abbrev placed_at : Ordering → Text → Text → List Text → List Text → List Text
placed_at Ordering.lt k j ks rest = k ∷ j ∷ ks
placed_at Ordering.eq k j ks rest = j ∷ ks
placed_at Ordering.gt k j ks rest = j ∷ rest

-- A set, listed in the order of `sorted`.
abbrev pub add : Text → List Text → List Text
add k [] = k ∷ []
add k (j ∷ ks) = let rest = add k ks in placed_at (compare_text k j) k j ks rest

abbrev add_alias : Option Text → List Text → List Text
add_alias none ks = ks
add_alias (some k) ks = add k ks

-- A volume has one metadata file, and so at most one alias.
abbrev alias_of : Text → Option Text → List (Text × List Text) → List (Text × List Text)
alias_of volume_id none aliases = aliases
alias_of volume_id (some k) aliases = set_key volume_id (k ∷ []) aliases

module _ (hash : Text → Text) (mount : Mount) where
  abbrev pub scan_creation : Text → ℕ → Exec Scanning Done
  scan_creation volume_id size = do
    intents ← gets (λ s. s.creation_intents)
    raise_if (has_key volume_id intents) value_error
    modify (λ s. record s { creation_intents = set_key volume_id size s.creation_intents })

  abbrev pub scan_expansion : Text → ℕ → ℕ → Exec Scanning Done
  scan_expansion volume_id from_size to_size = do
    intents ← gets (λ s. s.expansion_intents)
    raise_if (has_key volume_id intents) value_error
    modify (λ s. record s {
      expansion_intents = set_key volume_id (from_size, to_size) s.expansion_intents;
    })

  -- The source size of an intent that was validated.
  abbrev pub from_size_of : Json → Option ℕ
  from_size_of (Json.obj intent) = positive_int (get "from_size" intent)
  from_size_of _ = none

  abbrev pub scan_expansion_from : Text → ℕ → Option ℕ → Exec Scanning Done
  scan_expansion_from volume_id to_size none = raise value_error
  scan_expansion_from volume_id to_size (some from_size) =
      scan_expansion volume_id from_size to_size

  abbrev pub bury : Text → Option Text → Scanning → Scanning
  bury volume_id alias s = record s { tombstones = add_alias alias (add volume_id s.tombstones) }

  abbrev pub reserve : Text → ℕ → Option Text → Scanning → Scanning
  reserve volume_id size alias s = record s {
    reservations = set_key volume_id size s.reservations;
    aliases = alias_of volume_id alias s.aliases;
  }

  abbrev pub settle : Text → ℕ → Option Text → Bool → Exec Scanning Done
  settle volume_id size alias true = modify (reserve volume_id size alias)
  settle volume_id size alias false = modify (bury volume_id alias)

  -- A tombstone whose payload still stands reserves its bytes.
  abbrev pub scan_state : Text → Fields → Text → ℕ → Option Text → Exec Scanning Done
  scan_state path metadata volume_id size alias =
      if state_is "deleting" metadata || state_is "reclaiming" metadata
      then (lift (delete_tombstone_payload_path hash mount path metadata volume_id) >>= λ payload.
          lift (mount.exists payload) >>= settle volume_id size alias)
      else modify (reserve volume_id size alias)

  abbrev pub scan_identity : Text → Fields → ℕ → Text × Option Text → Exec Scanning Done
  scan_identity path metadata size (volume_id, alias) = do
    seen ← gets (λ s. s.seen_ids)
    raise_if (member volume_id seen) value_error
    modify (λ s. record s { seen_ids = volume_id ∷ s.seen_ids })
    scan_state path metadata volume_id size alias

  abbrev pub scan_metadata : Text → Fields → Option ℕ → Exec Scanning Done
  scan_metadata path metadata none = raise value_error
  scan_metadata path metadata (some size) =
      lift (capacity_record_identity hash mount path metadata) >>= scan_identity path metadata size

  abbrev pub scan_file : InfoFile → Exec Scanning Done
  scan_file (create_intent path intent) =
      lift (validate_creation_intent hash path intent) >>= λ (volume_id, size).
      scan_creation volume_id size
  scan_file (expand_intent path intent) =
      lift (validate_expansion_intent hash path intent) >>= λ (volume_id, to_size).
      scan_expansion_from volume_id to_size (from_size_of intent)
  scan_file (metadata_file path (Json.obj metadata)) =
      scan_metadata path metadata (positive_int (get "size" metadata))
  scan_file (metadata_file path _) = raise type_error

  abbrev pub scan_files : List InfoFile → Exec Scanning Done
  scan_files [] = pure tt
  scan_files (file ∷ files) = scan_file file >> scan_files files

abbrev pub conflicts : Option ℕ → ℕ → ℕ → Bool
conflicts none a b = false
conflicts (some committed) a b = not (committed == a) && not (committed == b)

-- An intent reserves its volume, unless a tombstone has released it.
abbrev pub overlay : List Text → List (Text × (ℕ × ℕ)) → List (Text × ℕ) → Result (List (Text × ℕ))
overlay tombstones [] reservations = ok reservations
overlay tombstones ((volume_id, (from_size, to_size)) ∷ intents) reservations =
    elim (member volume_id tombstones) [
      | true ↦ overlay tombstones intents reservations
      | false ↦ elim (conflicts (lookup volume_id reservations) from_size to_size) [
        | true ↦ err value_error
        | false ↦ overlay tombstones intents (set_key volume_id to_size reservations)
      ]
    ]

-- A create's intent has one size.
abbrev pub exact : List (Text × ℕ) → List (Text × (ℕ × ℕ))
exact [] = []
exact ((volume_id, size) ∷ intents) = (volume_id, (size, size)) ∷ exact intents

abbrev pub records_of : Scanning → Result (List (Text × ℕ)) → Result Records
records_of s (err e) = err e
records_of s (ok reservations) =
    ok (record { reservations = reservations; aliases = s.aliases; tombstones = s.tombstones })

abbrev pub overlay_expansions : Scanning → Result (List (Text × ℕ)) → Result (List (Text × ℕ))
overlay_expansions s (err e) = err e
overlay_expansions s (ok reservations) = overlay s.tombstones s.expansion_intents reservations

abbrev pub finish_scan : Result Done × Scanning → Result Records
finish_scan (err e, s) = err e
finish_scan (ok u, s) =
    records_of s
      (overlay_expansions s (overlay s.tombstones (exact s.creation_intents) s.reservations))

abbrev pub nothing_scanned : Scanning
nothing_scanned = record {
  reservations = [];
  aliases = [];
  tombstones = [];
  seen_ids = [];
  creation_intents = [];
  expansion_intents = [];
}

-- `files` are what the walk finds, in its order; none where there is no `info/`.
unfoldable pub capacity_metadata_records : (Text → Text) → Mount → List InfoFile → Result Records
unfolding capacity_record_identity delete_tombstone_payload_path validate_expansion_intent
capacity_metadata_records hash mount files =
    finish_scan (scan_files hash mount files nothing_scanned)
