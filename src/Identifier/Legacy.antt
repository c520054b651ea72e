-- ===== src/Identifier/Legacy.antt =====
-- `get_legacy_volume_path` of lib/kadalulib.py and `_canonical_volume_paths` of csi/volumeutils.py.
use kadalu.Prelude.{
  Bool, false, not, ◌&&◌, Option, none, some, List, [], ◌∷◌, Text, text_eq, take, drop,
  if◌then◌else◌,
}
use kadalu.Exec.{Result, ok, err, value_error}
use kadalu.PosixPath.{normpath, path_join, commonpath}
use kadalu.Identifier.{is_safe_path_component, is_valid_csi_identifier}
use kadalu.Identifier.Paths.{◌/+◌, get_volume_path}

abbrev legacy_bucket : Text → Text → Text
legacy_bucket voltype volhash = normpath (voltype /+ take 2 volhash /+ take 2 (drop 2 volhash))

abbrev is_inside : Text → Text → Option Text → Bool
is_inside candidate bucket none = false
is_inside candidate bucket (some common) = text_eq common bucket && not (text_eq candidate bucket)

abbrev contained : Text → Text → Option Text
contained candidate bucket =
    if is_inside candidate bucket (commonpath candidate bucket) then some candidate else none

unfoldable pub get_legacy_volume_path : Text → Text → Text → Result (Option Text)
unfolding normpath path_join commonpath
get_legacy_volume_path voltype volhash volname =
    if not (is_valid_csi_identifier volname)
    then err value_error
    else if not (is_safe_path_component volname)
    then ok none
    else ok (
        contained (normpath (path_join (legacy_bucket voltype volhash) volname))
          (legacy_bucket voltype volhash))

abbrev paths_of : Result Text → Result (Option Text) → Result (List Text)
paths_of (err e) legacy = err e
paths_of (ok p) (err e) = err e
paths_of (ok p) (ok none) = ok (p ∷ [])
paths_of (ok p) (ok (some q)) = ok (p ∷ q ∷ [])

-- `_canonical_volume_paths`, a set; `hash` is xxhash's digest.
unfoldable pub canonical_volume_paths : (Text → Text) → Text → Text → Result (List Text)
unfolding get_legacy_volume_path get_volume_path
canonical_volume_paths hash volume_id pvtype =
    paths_of (get_volume_path pvtype (hash volume_id) volume_id)
      (get_legacy_volume_path pvtype (hash volume_id) volume_id)
