-- ===== src/Reclaim/Archive.antt =====
-- `_archive_volume` of csi/volumeutils.py and what it calls.
use kadalu.Prelude.{
  ℕ, Bool, true, false, ◌&&◌, ◌||◌, Option, none, some, List, [], ◌∷◌, ◌++◌, Text, text_eq,
  starts_with, code_points, take, if◌then◌else◌,
}
use kadalu.Prelude.Int.{pos}
use kadalu.Exec.{
  Result, ok, err, value_error, os_error, Exec, Done, raise, lift, gets, modify, pure, ◌>>=◌, ◌>>◌,
}
use kadalu.Identifier.{is_safe_path_component}
use kadalu.Identifier.Paths.{◌/+◌}
use kadalu.Json.{Json, Fields, get, put, str}
use kadalu.Accounting.{Cell}
use kadalu.Accounting.Client.{archive_pv_reservation}
use kadalu.Intent.{Files, read_file, unlink, write_file}
use kadalu.Reclaim.{
  Disk, Volume, has_payload, drop_payload, tick, on_tables, write_info, prune_empty_parents,
  settled,
}

abbrev pub archive_prefix : Text
archive_prefix = code_points "archived-"

-- The archive's payload, and the key of its metadata file.
abbrev pub archive_path : Text → Text
archive_path name = code_points "archive" /+ name

abbrev pub is_file : Option Json → Bool
is_file none = false
is_file (some v) = true

abbrev is_text : Option Json → Text → Bool
is_text (some (Json.str s)) t = text_eq s t
is_text _ t = false

-- A recorded archive identity must be this volume's.
abbrev pub recorded_name : Text → Fields → Json → Result Text
recorded_name volname metadata (Json.str name) =
    if is_safe_path_component name
      && starts_with archive_prefix name
      && is_text (get "original_volume_id" metadata) volname
      && is_text (get "state" metadata) (code_points "archiving")
    then ok name
    else err value_error
recorded_name volname metadata _ = err value_error

abbrev is_taken : Disk → Text → Bool
is_taken d name =
    has_payload (archive_path name) d.payloads || is_file (read_file (archive_path name) d.infos)

-- The first candidate that nothing stands at.
abbrev pub free_name : Disk → List Text → Option Text
free_name d [] = none
free_name d (hex ∷ rest) =
    let others = free_name d rest in
    if is_taken d (archive_prefix ++ hex) then others else some (archive_prefix ++ hex)

abbrev pub archiving_metadata : Text → Text → Fields → Fields
archiving_metadata volname name metadata =
    put "state" (str (code_points "archiving"))
      (put "original_volume_id" (str volname) (put "archive_name" (str name) metadata))

abbrev pub allocate : Volume → Fields → Option Text → Exec Disk (Text × Fields)
allocate vol metadata none = raise os_error
allocate vol metadata (some name) =
    write_info vol.info_path (archiving_metadata vol.volname name metadata)
    >> pure (name, archiving_metadata vol.volname name metadata)

-- `uuids` are the digits of the fresh UUIDs, of which ten are tried.
abbrev pub prepare_from : List Text → Volume → Fields → Option Json → Exec Disk (Text × Fields)
prepare_from uuids vol metadata none =
    gets (λ d. free_name d (take 10 uuids)) >>= allocate vol metadata
prepare_from uuids vol metadata (some Json.null) =
    gets (λ d. free_name d (take 10 uuids)) >>= allocate vol metadata
prepare_from uuids vol metadata (some recorded) =
    lift (recorded_name vol.volname metadata recorded) >>= λ name. pure (name, metadata)

unfoldable pub prepare_archive : List Text → Volume → Fields → Exec Disk (Text × Fields)
unfolding is_safe_path_component
prepare_archive uuids vol metadata = prepare_from uuids vol metadata (get "archive_name" metadata)

-- What a rename does where the source and the destination differ, by which of them exist.
abbrev pub rename_cases : Bool → Bool → Exec Disk Done → Exec Disk Done
rename_cases true true move = raise os_error
rename_cases false true move = pure tt
rename_cases false false move = raise os_error
rename_cases true false move = tick >> (move >> tick)

abbrev pub move_payload : Text → Text → Disk → Disk
move_payload source destination d = record d {
  payloads = destination ∷ drop_payload source d.payloads;
}

abbrev pub rename_payload : Text → Text → Exec Disk Done
rename_payload source destination d =
    if text_eq source destination
    then (if has_payload source d.payloads then (ok tt, d) else (err os_error, d))
    else rename_cases (has_payload source d.payloads) (has_payload destination d.payloads)
        (modify (move_payload source destination)) d

abbrev pub moved_file : Text → Text → Option Json → Files → Files
moved_file source destination none fs = fs
moved_file source destination (some v) fs = write_file destination v (unlink source fs)

abbrev pub rename_info : Text → Text → Exec Disk Done
rename_info source destination d =
    if text_eq source destination
    then (if is_file (read_file source d.infos) then (ok tt, d) else (err os_error, d))
    else rename_cases (is_file (read_file source d.infos)) (is_file (read_file destination d.infos))
        (modify (λ e. record e {
          infos = moved_file source destination (read_file source e.infos) e.infos;
        }))
        d

abbrev pub archived_metadata : Fields → Fields
archived_metadata metadata =
    put "state" (str (code_points "archived"))
      (put "path_prefix" (str (code_points "archive")) metadata)

module _ (hash : Text → Text) (now : ℕ) where
  abbrev pub move_reservation : Volume → Text → ℕ → Exec Disk Done
  move_reservation vol name size =
      tick
      >> on_tables (
          archive_pv_reservation hash vol.hostvol now (ok tt) 1 vol.volname name
            (Cell.int (pos size)))

  -- Payload, accounting, metadata: the order that the code calls retry-safe. The first two ticks are
  -- the two directories that are made.
  abbrev pub archive_as : Volume → ℕ → Text × Fields → Exec Disk Done
  archive_as vol size (name, metadata) = do
    tick
    tick
    rename_payload vol.volpath (archive_path name)
    move_reservation vol name size
    rename_info vol.info_path (archive_path name)
    write_info (archive_path name) (archived_metadata metadata)
    prune_empty_parents
    prune_empty_parents

  abbrev pub archive_volume : List Text → Volume → Fields → ℕ → Exec Disk Done
  archive_volume uuids vol metadata size =
      prepare_archive uuids vol metadata >>= archive_as vol size

  -- `_delete_managed_volume` under the policy "archive".
  unfoldable pub archive_managed_volume : List Text → Volume → Exec Disk Done
  unfolding prepare_archive
  archive_managed_volume uuids vol = settled hash vol (archive_volume uuids vol)
