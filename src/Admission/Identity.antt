-- ===== src/Admission/Identity.antt =====
-- Whose reservation a metadata file is, in csi/volumeutils.py: `_capacity_record_identity` and
-- `_delete_tombstone_payload_path`.
use kadalu.Prelude.{
  Bool, true, false, not, ◌&&◌, ◌||◌, Option, none, some, List, [], ◌∷◌, any, Text, text_eq,
  starts_with, if◌then◌else◌,
}
use kadalu.Exec.{Result, ok, err, value_error}
use kadalu.PosixPath.{basename, dirname}
use kadalu.Identifier.{is_safe_path_component, is_valid_csi_identifier}
use kadalu.Identifier.Paths.{get_volume_path}
use kadalu.Identifier.Legacy.{canonical_volume_paths}
use kadalu.Json.{Json, Fields, get}
use kadalu.Admission.Archives.{
  Mount, ArchiveDetails, metadata_path_matches, is_missing, is_text, text_of, archive_prefix,
  pvtypes, state_is, is_archive_state, legacy_archive_details, archive_metadata_details,
}

abbrev pub member : Text → List Text → Bool
member k ks = any (λ j. text_eq j k) ks

module _ (hash : Text → Text) (mount : Mount) where
  -- The loop over the types: is this the active metadata of the original volume?
  abbrev active_at : Text → Fields → Result Text → Result Bool → Result Bool
  active_at path metadata (err e) rest = err e
  active_at path metadata (ok original_path) rest =
      if metadata_path_matches mount path original_path
        && is_text (get "path_prefix" metadata) (dirname original_path)
      then ok true
      else rest

  abbrev canonical_active : Text → Fields → Text → List Text → Result Bool
  canonical_active path metadata original [] = ok false
  canonical_active path metadata original (pvtype ∷ rest) =
      active_at path metadata (get_volume_path pvtype (hash original) original)
        (canonical_active path metadata original rest)

  abbrev known_type : Text → Result (List Text)
  known_type pvtype = if member pvtype pvtypes then ok (pvtype ∷ []) else err value_error

  abbrev declared_types : Option Json → Result (List Text)
  declared_types none = ok pvtypes
  declared_types (some Json.null) = ok pvtypes
  declared_types (some (Json.str pvtype)) = known_type pvtype
  declared_types (some _) = err value_error

  abbrev identified_if : Text → Text → Result Bool → Result (Text × Option Text)
  identified_if name original (ok true) = ok (name, some original)
  identified_if name original (ok false) = err value_error
  identified_if name original (err e) = err e

  abbrev prepared : Text → Fields → Text → Text → Result (List Text) → Result (Text × Option Text)
  prepared path metadata name original (err e) = err e
  prepared path metadata name original (ok types) =
      identified_if name original (canonical_active path metadata original types)

  abbrev archived_as :
      Text → Fields → Text → Text → Result (Option ArchiveDetails) → Result (Text × Option Text)
  archived_as path metadata name original (err e) = err e
  archived_as path metadata name original (ok (some details)) = ok (name, some original)
  archived_as path metadata name original (ok none) =
      if state_is "archiving" metadata
      then prepared path metadata name original (declared_types (get "pvtype" metadata))
      else err value_error

  abbrev archive_identity : Text → Fields → Option Text → Option Text → Result (Text × Option Text)
  archive_identity path metadata (some name) (some original) =
      if not (is_safe_path_component name)
        || not (starts_with archive_prefix name)
        || not (is_valid_csi_identifier original)
        || not (is_archive_state metadata)
      then err value_error
      else archived_as path metadata name original
          (archive_metadata_details hash mount path metadata)
  archive_identity path metadata _ _ = err value_error

  -- `metadata.get("volume_id", filename_volume_id)`, if it is a text
  abbrev recorded_id : Text → Option Json → Option Text
  recorded_id filename none = some filename
  recorded_id filename v = text_of v

  abbrev valid_identity : Option Text → Option Text → Result (Text × Option Text)
  valid_identity none alias = err value_error
  valid_identity (some volume_id) alias =
      if is_valid_csi_identifier volume_id then ok (volume_id, alias) else err value_error

  abbrev active_identity :
      Text → Fields → Result (Option ArchiveDetails) → Result (Text × Option Text)
  active_identity path metadata (err e) = err e
  active_identity path metadata (ok none) =
      valid_identity (recorded_id (basename path) (get "volume_id" metadata)) none
  active_identity path metadata (ok (some legacy)) =
      valid_identity (some legacy.archive_name) (some legacy.original_volume_id)

  -- The volume of a metadata file, and its obsolete name.
  unfoldable pub capacity_record_identity : Text → Fields → Result (Text × Option Text)
  unfolding archive_metadata_details
  capacity_record_identity path metadata =
      if is_missing (get "archive_name" metadata)
      then active_identity path metadata (legacy_archive_details hash mount path metadata)
      else archive_identity path metadata (text_of (get "archive_name" metadata))
          (text_of (get "original_volume_id" metadata))

  abbrev is_candidate : Text → Fields → Text → Bool
  is_candidate path metadata volume_path =
      metadata_path_matches mount path volume_path
      && is_text (get "path_prefix" metadata) (dirname volume_path)

  abbrev any_candidate : Text → Fields → Result (List Text) → Result Bool → Result Bool
  any_candidate path metadata (ok volume_paths) (ok other) =
      ok (any (is_candidate path metadata) volume_paths || other)
  any_candidate path metadata _ _ = err value_error

  abbrev candidate_among : Text → Fields → Text → List Text → Result Bool
  candidate_among path metadata volume_id [] = ok false
  candidate_among path metadata volume_id (pvtype ∷ rest) =
      any_candidate path metadata (canonical_volume_paths hash volume_id pvtype)
        (candidate_among path metadata volume_id rest)

  -- A candidate has the path of its metadata, so there is at most one.
  abbrev tombstone_path : Text → Result Bool → Result Text
  tombstone_path path (err e) = err e
  tombstone_path path (ok found) =
      if found && mount.contained path then ok path else err value_error

  abbrev reclaimed_path : Result (Option ArchiveDetails) → Result Text
  reclaimed_path (err e) = err e
  reclaimed_path (ok none) = err value_error
  reclaimed_path (ok (some archive)) = ok archive.payload_path

  unfoldable pub delete_tombstone_payload_path : Text → Fields → Text → Result Text
  unfolding archive_metadata_details canonical_volume_paths dirname
  delete_tombstone_payload_path path metadata volume_id =
      if state_is "reclaiming" metadata
      then reclaimed_path (archive_metadata_details hash mount path metadata)
      else if not (state_is "deleting" metadata)
      then err value_error
      else tombstone_path path (candidate_among path metadata volume_id pvtypes)
