-- ===== src/Reclaim/Rename.antt =====
-- An archive that stops anywhere: where the payload and the reservation are then.
use kadalu.Prelude.{
  ℕ, zero, suc, ◌≡◌, refl, ◌∙◌, Bool, true, false, Option, none, some, List, Text, text_eq,
  text_eq_refl, text_eq_iff, ◌⊎◌, inl, inr, Bool-cases, sym, take, if◌then◌else◌,
}
use kadalu.Exec.{
  Exec, Done, Result, ok, err, os_error, continue, ◌>>=◌, ◌>>◌, modify, gets, lift, pure,
}
use kadalu.Json.{Json, Fields, get}
use kadalu.Accounting.{move_pv, fits_sqlite}
use kadalu.Accounting.Client.{archive_pv_reservation}
use kadalu.Intent.{read_file}
use kadalu.Reclaim.{Disk, Volume, has_payload, tick, write_info, prune_empty_parents}
use kadalu.Reclaim.Archive.{
  allocate, free_name, prepare_from, recorded_name, archiving_metadata, archived_metadata,
  archive_path, is_file, rename_cases, move_payload, rename_payload, rename_info, moved_file,
  move_reservation, archive_as, archive_volume, archive_managed_volume, prepare_archive,
}
use kadalu.Reclaim.Ready.{IsSized, settled-sized}
use kadalu.Reclaim.Frame.{
  Keeps, IsFramed, IsQuietly, Quiet, Quiet-then, Quiet-lift, Keeps-then, settled-Keeps, tick-Quiet,
  write_info-Quiet,
}

-- A rename that returns leaves the payload at its destination, and no rename touches stat.db.
abbrev Moves : Text → Disk → Result Done × Disk → Type 0
Moves destination d r =
    (r.1.tables ≡ d.tables) × (r.0 ≡ ok tt → has_payload destination r.1.payloads ≡ true)

moved-Moves :
    (s t : Text) (b : ℕ) (d : Disk)
    → Moves t d ((tick >> (modify (move_payload s t) >> tick)) (record d { budget = b }))
moved-Moves s t zero d = (refl, λ e. cc)
moved-Moves s t (suc zero) d = (refl, λ e. cc)
moved-Moves s t (suc (suc b)) d = (refl, λ e. rw text_eq_refl refl)

rename_cases-Moves :
    (s t : Text) (d : Disk) (standing there : Bool)
    → has_payload t d.payloads ≡ there
    → Moves t d (rename_cases standing there (modify (move_payload s t)) d)
rename_cases-Moves s t d true true e = (refl, λ h. cc)
rename_cases-Moves s t d false true e = (refl, λ _. e)
rename_cases-Moves s t d false false e = (refl, λ h. cc)
rename_cases-Moves s t d true false e = moved-Moves s t d.budget d

rename_payload-Moves : (s t : Text) (d : Disk) → Moves t d (rename_payload s t d)
rename_payload-Moves s t d = elim (Bool-cases (text_eq s t)) [
  | inl same ↦ elim (Bool-cases (has_payload s d.payloads)) [
    | inl standing ↦ rw same (rw standing (refl, λ _. rw (sym ((text_eq_iff s t).0 same)) standing))
    | inr gone ↦ rw same (rw gone (refl, λ h. cc))
  ]
  | inr different ↦
      rw different
        (rename_cases-Moves s t d (has_payload s d.payloads) (has_payload t d.payloads) refl)
]

rename_info-Quiet : (s t : Text) → Quiet (rename_info s t)
rename_info-Quiet s t = record {
  at = λ d. go d (text_eq s t) (is_file (read_file s d.infos)) (is_file (read_file t d.infos));
}
  where
    moving : Disk → Disk
    moving e = record e { infos = moved_file s t (read_file s e.infos) e.infos }

    moving-Quiet : Quiet (modify moving)
    moving-Quiet = record { at = λ d. (refl, refl) }

    cases : (a b : Bool) → Quiet (rename_cases a b (modify moving))
    cases true true = Quiet-lift (err os_error)
    cases false true = Quiet-lift (ok tt)
    cases false false = Quiet-lift (err os_error)
    cases true false = Quiet-then tick-Quiet (λ _. Quiet-then moving-Quiet (λ _. tick-Quiet))

    go :
        (d : Disk) (same a b : Bool)
        → IsQuietly d
            (if same
              then (if a then (ok tt, d) else (err os_error, d))
              else rename_cases a b (modify moving) d).1
    go d true true b = (refl, refl)
    go d true false b = (refl, refl)
    go d false a b = (cases a b).at d

allocate-Quiet :
    (vol : Volume) (metadata : Fields) (o : Option Text) → Quiet (allocate vol metadata o)
allocate-Quiet vol metadata none = Quiet-lift (err os_error)
allocate-Quiet vol metadata (some name) =
    Quiet-then (write_info-Quiet vol.info_path (archiving_metadata vol.volname name metadata))
      (λ _. Quiet-lift (ok (name, archiving_metadata vol.volname name metadata)))

fresh-Quiet :
    (uuids : List Text) (vol : Volume) (metadata : Fields)
    → Quiet (gets (λ d. free_name d (take 10 uuids)) >>= allocate vol metadata)
fresh-Quiet uuids vol metadata =
    Quiet-then {m = gets (λ d. free_name d (take 10 uuids))} (record { at = λ d. (refl, refl) })
      (allocate-Quiet vol metadata)

recorded-Quiet :
    (vol : Volume) (metadata : Fields) (v : Json)
    → Quiet {A = Text × Fields}
        (lift (recorded_name vol.volname metadata v) >>= λ name. pure (name, metadata))
recorded-Quiet vol metadata v =
    Quiet-then (Quiet-lift (recorded_name vol.volname metadata v))
      (λ name. Quiet-lift (ok (name, metadata)))

prepare_from-Quiet :
    (uuids : List Text) (vol : Volume) (metadata : Fields) (o : Option Json)
    → Quiet (prepare_from uuids vol metadata o)
prepare_from-Quiet uuids vol metadata none = fresh-Quiet uuids vol metadata
prepare_from-Quiet uuids vol metadata (some Json.null) = fresh-Quiet uuids vol metadata
prepare_from-Quiet uuids vol metadata (some (Json.bool b)) =
    recorded-Quiet vol metadata (Json.bool b)
prepare_from-Quiet uuids vol metadata (some (Json.int n)) = recorded-Quiet vol metadata (Json.int n)
prepare_from-Quiet uuids vol metadata (some (Json.str t)) = recorded-Quiet vol metadata (Json.str t)
prepare_from-Quiet uuids vol metadata (some (Json.arr vs)) =
    recorded-Quiet vol metadata (Json.arr vs)
prepare_from-Quiet uuids vol metadata (some (Json.obj fs)) =
    recorded-Quiet vol metadata (Json.obj fs)

prepare_archive-Quiet :
    (uuids : List Text) (vol : Volume) (metadata : Fields)
    → Quiet (prepare_archive uuids vol metadata)
unfolding prepare_archive
prepare_archive-Quiet uuids vol metadata =
    prepare_from-Quiet uuids vol metadata (get "archive_name" metadata)

module _ (hash : Text → Text) (now : ℕ) (volname : Text) (P : ℕ → Type 0) where
  -- stat.db is as it was, or the volume's row was moved, at a size with `P`, to the name of an archive
  -- whose payload stands.
  pub IsArchivedFor : Disk → Disk → Type 0
  IsArchivedFor d e =
      (e.tables ≡ d.tables)
      ⊎ ((name : Text) × (n : ℕ) × P n
          × (e.tables ≡ move_pv hash volname name n now d.tables)
          × (has_payload (archive_path name) e.payloads ≡ true))

  IsArchivedFor-IsFramed : IsFramed IsArchivedFor
  unfolding IsArchivedFor
  IsArchivedFor-IsFramed = record {
    before = λ d e f q h. elim h [
      | inl same ↦ inl (same ∙ q.0)
      | inr (name, n, fits, moved, standing) ↦ inr (name, n, fits, rw (sym q.0) moved, standing)
    ];
    same = λ d e q. inl q.0;
  }

module _ (hash : Text → Text) (now : ℕ) (vol : Volume) (P : ℕ → Type 0) where
  abbrev IsSafe : Disk → Disk → Type 0
  IsSafe = IsArchivedFor hash now vol.volname P

  -- The accounting follows a payload that stands at the archive's path.
  move_reservation-IsSafe :
      (name : Text) (size : ℕ) (d : Disk)
      → P size
      → has_payload (archive_path name) d.payloads ≡ true
      → IsSafe d (move_reservation hash now vol name size d).1
  unfolding IsArchivedFor archive_pv_reservation
  move_reservation-IsSafe name size d fits standing = go d.budget size fits
    where
      go :
          (b size : ℕ)
          → P size
          → IsSafe d (move_reservation hash now vol name size (record d { budget = b })).1
      go zero size p = inl refl
      go (suc b) zero p = inl refl
      go (suc b) (suc n) p = elim (Bool-cases (fits_sqlite (suc n))) [
        | inl e ↦ rw (e, archive_pv_reservation) (inr (name, suc n, p, refl, standing))
        | inr e ↦ rw (e, archive_pv_reservation) (inl refl)
      ]

  IsSafe-quiet : (d e f : Disk) → IsSafe d e → IsQuietly e f → IsSafe d f
  unfolding IsArchivedFor
  IsSafe-quiet d e f (inl same) q = inl (q.0 ∙ same)
  IsSafe-quiet d e f (inr (name, n, fits, moved, standing)) q =
      inr (name, n, fits, q.0 ∙ moved, rw q.1 standing)

  IsSafe-from : (d e f : Disk) → e.tables ≡ d.tables → IsSafe e f → IsSafe d f
  unfolding IsArchivedFor
  IsSafe-from d e f t (inl same) = inl (same ∙ t)
  IsSafe-from d e f t (inr (name, n, fits, moved, standing)) =
      inr (name, n, fits, rw (sym t) moved, standing)

  abbrev metadata_moves : Fields → Text → Exec Disk Done
  metadata_moves metadata name = do
    rename_info vol.info_path (archive_path name)
    write_info (archive_path name) (archived_metadata metadata)
    prune_empty_parents
    prune_empty_parents

  metadata_moves-Quiet : (metadata : Fields) (name : Text) → Quiet (metadata_moves metadata name)
  metadata_moves-Quiet metadata name =
      Quiet-then (rename_info-Quiet vol.info_path (archive_path name)) (λ _.
        Quiet-then (write_info-Quiet (archive_path name) (archived_metadata metadata))
          (λ _. Quiet-then tick-Quiet (λ _. tick-Quiet)))

  finish-IsSafe :
      (metadata : Fields) (name : Text) (d : Disk) (r : Result Done × Disk)
      → IsSafe d r.1
      → IsSafe d (continue (λ _. metadata_moves metadata name) r).1
  finish-IsSafe metadata name d (ok u, e) h =
      IsSafe-quiet d e (metadata_moves metadata name e).1 h
        ((metadata_moves-Quiet metadata name).at e)
  finish-IsSafe metadata name d (err x, e) h = h

  abbrev after_rename : Fields → Text → ℕ → Exec Disk Done
  after_rename metadata name size =
      move_reservation hash now vol name size >> metadata_moves metadata name

  after_rename-IsSafe :
      (metadata : Fields) (name : Text) (size : ℕ) (d : Disk) (r : Result Done × Disk)
      → P size
      → Moves (archive_path name) d r
      → IsSafe d (continue (λ _. after_rename metadata name size) r).1
  unfolding IsArchivedFor
  after_rename-IsSafe metadata name size d (ok u, e) fits (t, standing) =
      IsSafe-from d e (after_rename metadata name size e).1 t (
        finish-IsSafe metadata name e (move_reservation hash now vol name size e)
          (move_reservation-IsSafe name size e fits (standing refl)))
  after_rename-IsSafe metadata name size d (err x, e) fits (t, standing) = inl t

  archive_as-IsSafe :
      (size : ℕ) (name : Text) (metadata : Fields)
      → P size
      → Keeps IsSafe (archive_as hash now vol size (name, metadata))
  archive_as-IsSafe size name metadata fits =
      Keeps-then (IsArchivedFor-IsFramed hash now vol.volname P) tick-Quiet (λ _.
        Keeps-then (IsArchivedFor-IsFramed hash now vol.volname P) tick-Quiet (λ _. record {
          at = λ d.
              after_rename-IsSafe metadata name size d
                (rename_payload vol.volpath (archive_path name) d) fits
                (rename_payload-Moves vol.volpath (archive_path name) d);
        }))

  archive_volume-IsSafe :
      (uuids : List Text) (metadata : Fields) (size : ℕ)
      → P size
      → Keeps IsSafe (archive_volume hash now uuids vol metadata size)
  archive_volume-IsSafe uuids metadata size fits =
      Keeps-then (IsArchivedFor-IsFramed hash now vol.volname P)
        (prepare_archive-Quiet uuids vol metadata)
        (λ (name, current). archive_as-IsSafe size name current fits)

module _ (hash : Text → Text) (now : ℕ) (vol : Volume) (uuids : List Text) where
  -- Wherever an archive stops, at any of its durable changes, and whatever intents and metadata it
  -- found: stat.db is as it was, or the volume's row was moved to the name of an archive whose payload
  -- stands at the archive's path.
  pub archive_managed_volume-IsArchivedFor :
      (d : Disk)
      → IsArchivedFor hash now vol.volname
          (λ n. Unit)
          d
          (archive_managed_volume hash now uuids vol d).1
  unfolding archive_managed_volume
  archive_managed_volume-IsArchivedFor d =
      (settled-Keeps hash vol (archive_volume hash now uuids vol)
          (IsArchivedFor-IsFramed hash now vol.volname (λ n. Unit))
          (λ metadata n. archive_volume-IsSafe hash now vol (λ n. Unit) uuids metadata n tt)).at
        d

  -- Where metadata of a positive size and no intent are found, an archive that stops anywhere leaves
  -- stat.db as it was, or with the volume's row moved, at exactly this size, to the name of an archive
  -- whose payload stands at the archive's path.
  pub archive_managed_volume-exact :
      (n : ℕ) (d : Disk)
      → IsSized vol n d
      → IsArchivedFor hash now vol.volname
          (λ m. m ≡ suc n)
          d
          (archive_managed_volume hash now uuids vol d).1
  unfolding archive_managed_volume
  archive_managed_volume-exact n d sized =
      rw (settled-sized hash vol n (archive_volume hash now uuids vol) d sized) (
        (archive_volume-IsSafe hash now vol (λ m. m ≡ suc n) uuids sized.metadata (suc n) refl).at
          d)
