-- ===== src/Admission/Archives.antt =====
-- What the metadata of an archive says, in csi/volumeutils.py: `_legacy_archive_details`,
-- `archive_metadata_details`. A file is named by its path under `info/`, without its suffix.
use kadalu.Prelude.{
  Bool, true, false, not, ◌&&◌, ◌||◌, Option, none, some, List, [], ◌∷◌, Text, String, text_eq,
  starts_with, code_points, drop, if◌then◌else◌,
}
use kadalu.Exec.{Result, ok, err, value_error}
use kadalu.PosixPath.{basename, dirname}
use kadalu.Identifier.{is_safe_path_component, is_valid_csi_identifier}
use kadalu.Identifier.Paths.{◌/+◌, get_volume_path}
use kadalu.Json.{Json, Fields, get, equals_str}

-- What the file system answers: whether the resolved parent of a path stays inside the pool, or that
-- of a metadata file inside `info/`; whether a metadata path is no link and leads through none; and
-- whether something is at a path, or how `os.lstat` fails.
pub record Mount : Type 0 where
  pub contained : Text → Bool
  pub info_contained : Text → Bool
  pub regular : Text → Bool
  pub exists : Text → Result Bool

-- `_metadata_path_matches`
abbrev pub metadata_path_matches : Mount → Text → Text → Bool
metadata_path_matches mount path expected = text_eq path expected && mount.regular path

pub record ArchiveDetails : Type 0 where
  pub archive_name : Text
  pub original_volume_id : Text
  pub payload_path : Text
  pub legacy : Bool

abbrev pub is_missing : Option Json → Bool
is_missing none = true
is_missing (some Json.null) = true
is_missing (some _) = false

abbrev is_true : Option Json → Bool
is_true (some (Json.bool b)) = b
is_true _ = false

abbrev pub is_text : Option Json → Text → Bool
is_text (some (Json.str s)) t = text_eq s t
is_text _ t = false

abbrev pub text_of : Option Json → Option Text
text_of (some (Json.str s)) = some s
text_of _ = none

-- ARCHIVE_PREFIX
abbrev pub archive_prefix : Text
archive_prefix = code_points "archived-"

-- PV_TYPE_SUBVOL, PV_TYPE_VIRTBLOCK, PV_TYPE_RAWBLOCK
abbrev pub pvtypes : List Text
pvtypes = code_points "subvol" ∷ code_points "virtblock" ∷ code_points "rawblock" ∷ []

abbrev pub state_is : String → Fields → Bool
state_is word metadata = equals_str word (get "state" metadata)

abbrev pub is_archive_state : Fields → Bool
is_archive_state metadata =
    state_is "archived" metadata
    || (state_is "archiving" metadata || state_is "reclaiming" metadata)

abbrev legacy_reclaim : Fields → Bool
legacy_reclaim metadata = state_is "reclaiming" metadata && is_true (get "legacy_archive" metadata)

abbrev first_found :
    Result (Option ArchiveDetails) → Result (Option ArchiveDetails) → Result (Option ArchiveDetails)
first_found (ok none) rest = rest
first_found found rest = found

module _ (hash : Text → Text) (mount : Mount) where
  abbrev legacy_at :
      Text → Fields → Text → Text → Result Text → Result Text → Result (Option ArchiveDetails)
  legacy_at path metadata name original (ok original_path) (ok active_path) =
      if text_eq (dirname original_path) (dirname active_path)
        || not (is_text (get "path_prefix" metadata) (dirname original_path))
        || not (metadata_path_matches mount path (dirname original_path /+ name))
      then ok none
      else if not (mount.info_contained (dirname original_path /+ name))
          || not (mount.contained (dirname original_path /+ name))
      then err value_error
      else ok (
          some (record {
            archive_name = name;
            original_volume_id = original;
            payload_path = dirname original_path /+ name;
            legacy = true;
          }))
  legacy_at path metadata name original _ _ = err value_error

  abbrev legacy_among : Text → Fields → Text → Text → List Text → Result (Option ArchiveDetails)
  legacy_among path metadata name original [] = ok none
  legacy_among path metadata name original (pvtype ∷ rest) =
      first_found
        (legacy_at path metadata name original (get_volume_path pvtype (hash original) original)
          (get_volume_path pvtype (hash name) name))
        (legacy_among path metadata name original rest)

  abbrev legacy_named : Text → Fields → Text → Text → Result (Option ArchiveDetails)
  legacy_named path metadata name original =
      if not (starts_with archive_prefix name) || not (is_safe_path_component original)
      then ok none
      else if legacy_reclaim metadata && not (is_text (get "original_volume_id" metadata) original)
      then err value_error
      else legacy_among path metadata name original pvtypes

  unfoldable pub legacy_archive_details : Text → Fields → Result (Option ArchiveDetails)
  unfolding basename dirname get_volume_path
  legacy_archive_details path metadata =
      if not (is_missing (get "state" metadata)) && not (legacy_reclaim metadata)
        || not (is_missing (get "archive_name" metadata))
      then ok none
      else legacy_named path metadata (basename path) (drop 9 (basename path))

  -- Whether the recorded prefix is that of an active volume with this name.
  abbrev prefix_at : Option Json → Result Text → Result Bool → Result Bool
  prefix_at recorded (ok volume_path) (ok other) =
      ok (is_text recorded (dirname volume_path) || other)
  prefix_at recorded _ _ = err value_error

  abbrev original_prefix : Option Json → Text → List Text → Result Bool
  original_prefix recorded original [] = ok false
  original_prefix recorded original (pvtype ∷ rest) =
      prefix_at recorded (get_volume_path pvtype (hash original) original)
        (original_prefix recorded original rest)

  abbrev archive_checked : Text → Text → Fields → Result Bool → Result (Option ArchiveDetails)
  archive_checked name original metadata (err e) = err e
  archive_checked name original metadata (ok active) =
      if not (
          equals_str "archive" (get "path_prefix" metadata)
          || state_is "archiving" metadata && active)
        || not (mount.info_contained (code_points "archive" /+ name))
        || not (mount.contained (code_points "archive" /+ name))
      then err value_error
      else ok (
          some (record {
            archive_name = name;
            original_volume_id = original;
            payload_path = code_points "archive" /+ name;
            legacy = false;
          }))

  abbrev archive_identified :
      Text → Fields → Option Text → Option Text → Result (Option ArchiveDetails)
  archive_identified path metadata (some name) (some original) =
      if not (is_safe_path_component name)
        || not (starts_with archive_prefix name)
        || not (is_valid_csi_identifier original)
      then err value_error
      else if not (metadata_path_matches mount path (code_points "archive" /+ name))
      then (if state_is "archiving" metadata then ok none else err value_error)
      else archive_checked name original metadata
          (original_prefix (get "path_prefix" metadata) original pvtypes)
  archive_identified path metadata _ _ = err value_error

  unfoldable pub archive_metadata_details : Text → Fields → Result (Option ArchiveDetails)
  unfolding legacy_archive_details
  archive_metadata_details path metadata =
      if is_true (get "legacy_archive" metadata) || not (is_archive_state metadata)
      then legacy_archive_details path metadata
      else archive_identified path metadata (text_of (get "archive_name" metadata))
          (text_of (get "original_volume_id" metadata))
