-- ===== src/Tests/Names.antt =====
-- A name that is stored as it is, and one that is encoded.
use kadalu.Prelude.{◌≡◌, refl, Text, code_points}
use kadalu.Exec.{ok}
use kadalu.Identifier.Bytes.{utf8_char, b64_encode}
use kadalu.Identifier.{
  is_valid_csi_identifier, is_safe_path_component, volume_name_component,
  volume_name_from_component,
}
use kadalu.Identifier.RoundTrip.{from_component-component}
use kadalu.Identifier.Paths.{get_volume_path, get_volume_path-injective}
use kadalu.Identifier.Safety.{IsComponent, volume_name_component-IsComponent}

abbrev spaced : Text
spaced = code_points "team/pvc"

abbrev component : Text
component = code_points ".kadalu~dGVhbS9wdmM"

abbrev path : Text
path = code_points "subvol/.kadalu-v2/ab/cd/.kadalu~dGVhbS9wdmM"

from_component-component_example : volume_name_from_component component ≡ ok spaced
unfolding volume_name_component is_valid_csi_identifier is_safe_path_component utf8_char b64_encode
from_component-component_example = from_component-component spaced component refl

get_volume_path-injective_example : spaced ≡ spaced
unfolding get_volume_path volume_name_component is_valid_csi_identifier is_safe_path_component
    utf8_char b64_encode
get_volume_path-injective_example =
    get_volume_path-injective (code_points "subvol") (code_points "subvol") (code_points "abcd")
      (code_points "abcd") spaced spaced path refl refl

volume_name_component-IsComponent_example : IsComponent component
unfolding volume_name_component is_valid_csi_identifier is_safe_path_component utf8_char b64_encode
volume_name_component-IsComponent_example = volume_name_component-IsComponent spaced component refl
