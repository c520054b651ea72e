-- ===== src/Identifier/RoundTrip.antt =====
-- Decoding the component of a name.
use kadalu.Prelude.{
  text_eq_refl, Text, starts_with, sym, ◌∙◌, ◌⊎◌, inl, inr, ℕ, ◌≡◌, refl, true, false, Option, none,
  some, List, [], ◌∷◌, ◌++◌, arith,
}
use kadalu.Exec.{ok}
use kadalu.Identifier.{
  is_empty, is_safe_path_component, is_valid_csi_identifier, prefix, encoded_component,
  volume_name_component, decode_name, volume_name_from_component,
}
use kadalu.Identifier.Bytes.{utf8_encode, decode_from, b64_encode, b64_decode}
use kadalu.Identifier.Utf8.{b64_decode-b64_encode, IsUtf8, utf8_encode-IsUtf8}

pub ok_injective : {a b : Text} → ok a ≡ ok b → a ≡ b
ok_injective h = cc

IsUtf8-decode_name :
    (bytes : List ℕ) (s : Text)
    → IsUtf8 (some bytes) s
    → decode_name (b64_decode (b64_encode bytes)) ≡ some s
IsUtf8-decode_name bytes s h = rw (b64_decode-b64_encode bytes h.1) h.0

is_empty-b64_encode : (bytes : List ℕ) → is_empty (b64_encode bytes) ≡ is_empty bytes
unfolding b64_encode
is_empty-b64_encode [] = refl
is_empty-b64_encode (a ∷ []) = refl
is_empty-b64_encode (a ∷ b ∷ []) = refl
is_empty-b64_encode (a ∷ b ∷ c ∷ rest) = refl

valid_not_empty : is_valid_csi_identifier [] ≡ true → ⊥
unfolding is_valid_csi_identifier
valid_not_empty h = cc

bytes_not_empty :
    (v bytes : List ℕ)
    → is_valid_csi_identifier v ≡ true
    → IsUtf8 (some bytes) v
    → is_empty bytes ≡ false
unfolding decode_from
bytes_not_empty [] [] valid h = absurd (valid_not_empty valid)
bytes_not_empty (c ∷ v) [] valid h = cc (h.0)
bytes_not_empty v (b ∷ bytes) valid h = refl

-- The component of a name that goes in encoded.
encoded_back :
    (v bytes : List ℕ)
    → is_valid_csi_identifier v ≡ true
    → IsUtf8 (some bytes) v
    → volume_name_component v ≡ ok (prefix ++ b64_encode bytes)
    → volume_name_from_component (prefix ++ b64_encode bytes) ≡ ok v
unfolding volume_name_from_component
encoded_back v bytes valid h back =
    rw
      (
        is_empty-b64_encode bytes,
        bytes_not_empty v bytes valid h,
        IsUtf8-decode_name bytes v h,
        valid,
        back,
      )
      (rw text_eq_refl refl)

component_cases :
    (v : Text) (o : Option (List ℕ)) (c : Text)
    → is_valid_csi_identifier v ≡ true
    → IsUtf8 o v
    → encoded_component o ≡ volume_name_component v
    → volume_name_component v ≡ ok c
    → volume_name_from_component c ≡ ok v
component_cases v none c valid h e k = cc
component_cases v (some bytes) c valid h e k =
    let same : c ≡ prefix ++ b64_encode bytes = ok_injective (sym k ∙ sym e) in
    rw same (encoded_back v bytes valid h (sym e))

-- A name is stored as it is, or encoded.
pub name_cases :
    (v c : Text)
    → volume_name_component v ≡ ok c
    → (is_valid_csi_identifier v ≡ true)
      × ((c ≡ v) × (is_safe_path_component v ≡ true) × (starts_with prefix v ≡ false)
          ⊎ (encoded_component (utf8_encode v) ≡ volume_name_component v))
unfolding volume_name_component
name_cases v c h = ground arith

raw_back : (v : Text) → starts_with prefix v ≡ false → volume_name_from_component v ≡ ok v
unfolding volume_name_from_component
raw_back v h = rw h

-- Whatever component a volume's name is stored under, decoding that component gives the name back:
-- no two names share a component.
pub from_component-component :
    (v c : Text) → volume_name_component v ≡ ok c → volume_name_from_component c ≡ ok v
from_component-component v c h =
    let (valid, how) = name_cases v c h in
    elim how [
      | inl raw ↦ rw (raw.0) (raw_back v raw.2)
      | inr encoded ↦ component_cases v (utf8_encode v) c valid (utf8_encode-IsUtf8 v) encoded h
    ]
