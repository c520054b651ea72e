-- ===== src/Identifier.antt =====
-- Names of volumes in lib/kadalulib.py: the CSI identifier contract, safe path components, and the
-- component of a path that stands for an opaque name. A Python `str` is the list of its code points.
pub mod Bytes
pub mod Utf8
pub mod RoundTrip
pub mod Safety
pub mod Paths
pub mod Legacy
use kadalu.Prelude.{
  Text, code_points, text_eq, starts_with, ℕ, zero, suc, ◌+◌, ◌*◌, ◌/◌, ◌%◌, Bool, true, false, not,
  ◌&&◌, ◌||◌, ◌==◌, ltb, leb, Option, none, some, List, [], ◌∷◌, ◌++◌, length, any, if◌then◌else◌,
  String, drop,
}
use kadalu.Exec.{Result, ok, err, value_error}
use Bytes.{utf8_encode, utf8_decode, b64_encode, b64_decode}

-- `len(value.encode("utf-8")) <= 128`, false where the encoding raises
abbrev fits_128 : Option (List ℕ) → Bool
fits_128 none = false
fits_128 (some bytes) = leb (length bytes) 128

abbrev pub is_empty : Text → Bool
is_empty [] = true
is_empty (c ∷ s) = false

-- "/", NUL, or a control character
abbrev pub unsafe_character : ℕ → Bool
unsafe_character c = c == b'/' || (ltb c 32 || c == 127)

unfoldable pub is_safe_path_component : Text → Bool
is_safe_path_component value =
    not (is_empty value)
    && not (text_eq value (b'.' ∷ []) || text_eq value (b'.' ∷ b'.' ∷ []))
    && fits_128 (utf8_encode value)
    && not (any unsafe_character value)

abbrev forbidden_character : ℕ → Bool
forbidden_character c =
    leb c 0x08
    || (c == 0x0B || c == 0x0C)
    || (leb 0x0E c && leb c 0x1F)
    || (leb 0x7F c && leb c 0x9F)

unfoldable pub is_valid_csi_identifier : Text → Bool
is_valid_csi_identifier value =
    not (is_empty value) && fits_128 (utf8_encode value) && not (any forbidden_character value)

abbrev pub prefix : Text
prefix = code_points ".kadalu~"

abbrev pub encoded_component : Option (List ℕ) → Result Text
encoded_component none = err value_error
encoded_component (some bytes) = ok (prefix ++ b64_encode bytes)

unfoldable pub volume_name_component : Text → Result Text
volume_name_component volname =
    if not (is_valid_csi_identifier volname)
    then err value_error
    else if is_safe_path_component volname && not (starts_with prefix volname)
    then ok volname
    else encoded_component (utf8_encode volname)

-- `b64decode(…)` then `.decode("utf-8")`
abbrev pub decode_name : Option (List ℕ) → Option Text
decode_name none = none
decode_name (some bytes) = utf8_decode bytes

abbrev is_component : Result Text → Text → Bool
is_component (err e) component = false
is_component (ok c) component = text_eq c component

abbrev canonical_name : Text → Option Text → Result Text
canonical_name component none = err value_error
canonical_name component (some decoded) =
    if not (is_valid_csi_identifier decoded)
      || not (is_component (volume_name_component decoded) component)
    then err value_error
    else ok decoded

unfoldable pub volume_name_from_component : Text → Result Text
volume_name_from_component component =
    if not (starts_with prefix component)
    then ok component
    else let encoded = drop 8 component in
      if is_empty encoded
      then err value_error
      else canonical_name component (decode_name (b64_decode encoded))
