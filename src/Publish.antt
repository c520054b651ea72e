-- ===== src/Publish.antt =====
-- The sidecar of a published block volume in csi/volumeutils.py: `_publish_state`,
-- `_publish_state_matches` and `_mount_identity_generation`.
pub mod Identity
use kadalu.Prelude.{
  ℕ, Bool, true, false, not, ◌&&◌, ◌||◌, ◌==◌, leb, Option, none, some, List, [], ◌∷◌, all, length,
  Text, text_eq, if◌then◌else◌,
}
use kadalu.Prelude.Int.{pos}
use kadalu.PosixPath.{cut_last}
use kadalu.Json.{Json, Fields, end, field, get, put, str, int, obj}
use kadalu.Json.Equality.{json_eq, dict_eq}
use kadalu.Intent.{canonical_uuid, is_hex}

abbrev pub state_fields : Text → Text → Text → Text → Text → Fields
state_fields volume_id pvtype volume_path host_volume_name host_mount_identity =
    field "version" (int (pos 1)) (
      field "volume_id" (str volume_id) (
        field "pvtype" (str pvtype) (
          field "volume_path" (str volume_path) (
            field "host_volume_name" (str host_volume_name)
              (field "host_mount_identity" (str host_mount_identity) end)))))

abbrev pub publish_state :
    Option Text → Text → Option Text → Option Text → Option Text → Option Fields
publish_state (some volume_id) pvtype (some volume_path) (some host_volume) (some identity) =
    some (state_fields volume_id pvtype volume_path host_volume identity)
publish_state _ pvtype _ _ _ = none

-- `[0-9a-f]{64}`
abbrev is_fingerprint : Text → Bool
is_fingerprint s = length s == 64 && all is_hex s

abbrev generation_of : Option (Text × Text) → Option Text
generation_of none = none
generation_of (some (generation, fingerprint)) =
    if is_fingerprint fingerprint && canonical_uuid generation then some generation else none

abbrev text_generation : Text → Option Text
text_generation identity = generation_of (cut_last b'-' [] identity)

abbrev pub mount_identity_generation : Option Json → Option Text
mount_identity_generation (some (Json.str identity)) = text_generation identity
mount_identity_generation _ = none

abbrev same_text : Option Text → Option Text → Bool
same_text (some a) (some b) = text_eq a b
same_text _ _ = false

-- `_same_mount_identity_generation`
unfoldable pub same_mount_identity_generation : Option Json → Option Json → Bool
unfolding canonical_uuid
same_mount_identity_generation first second =
    same_text (mount_identity_generation first) (mount_identity_generation second)

-- `revision_adjusted`: only the identity is taken from what is expected.
abbrev adjusted : Fields → Option Json → Fields
adjusted actual none = actual
adjusted actual (some identity) = put "host_mount_identity" identity actual

abbrev revised : Fields → Fields → Bool → Bool
revised actual expected allowed =
    allowed
    && same_mount_identity_generation (get "host_mount_identity" actual)
        (get "host_mount_identity" expected)
    && dict_eq (adjusted actual (get "host_mount_identity" expected)) expected

-- `sidecar` is what the file holds; none where it is missing, no regular file, or no JSON.
unfoldable pub publish_state_matches : Option Json → Option Fields → Bool → Bool
unfolding same_mount_identity_generation json_eq dict_eq
publish_state_matches sidecar none allowed = false
publish_state_matches none (some expected) allowed = false
publish_state_matches (some (Json.obj actual)) (some expected) allowed =
    json_eq (obj actual) (obj expected) || revised actual expected allowed
publish_state_matches (some _) (some expected) allowed = false
