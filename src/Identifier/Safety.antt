-- ===== src/Identifier/Safety.antt =====
-- The component of a name as a component of a path.
use kadalu.Prelude.{
  Text, ℕ, ◌+◌, ◌*◌, ◌/◌, ◌%◌, ◌≡◌, ◌≢◌, refl, true, false, Option, none, some, List, [], ◌∷◌, ◌∙◌,
  any, arith, inl, inr,
}
use kadalu.Exec.{ok}
use kadalu.Identifier.{
  is_safe_path_component, unsafe_character, encoded_component, volume_name_component,
}
use kadalu.Identifier.Bytes.{b64_char, b64_encode, utf8_encode}
use kadalu.Identifier.RoundTrip.{name_cases}

b64_char_safe : (n : ℕ) → unsafe_character (b64_char n) ≡ false
unfolding b64_char
b64_char_safe n = ground arith

b64_encode_safe : (bytes : List ℕ) → any unsafe_character (b64_encode bytes) ≡ false
unfolding b64_encode
b64_encode_safe [] = refl
b64_encode_safe (a ∷ []) = rw (b64_char_safe (a / 4), b64_char_safe (a % 4 * 16))
b64_encode_safe (a ∷ b ∷ []) =
    rw (b64_char_safe (a / 4), b64_char_safe (a % 4 * 16 + b / 16), b64_char_safe (b % 16 * 4))
b64_encode_safe (a ∷ b ∷ c ∷ rest) = rw (
  b64_char_safe (a / 4),
  b64_char_safe (a % 4 * 16 + b / 16),
  b64_char_safe (b % 16 * 4 + c / 64),
  b64_char_safe (c % 64),
  b64_encode_safe rest,
)

-- Neither empty nor "." nor "..", and no separator, NUL or control character in it.
pub record IsComponent (c : Text) : Type 0 where
  pub named : c ≢ []
  not_here : c ≢ b'.' ∷ []
  not_parent : c ≢ b'.' ∷ b'.' ∷ []
  pub safe : any unsafe_character c ≡ false

safe-IsComponent : (c : Text) → is_safe_path_component c ≡ true → IsComponent c
unfolding is_safe_path_component
safe-IsComponent [] h = ground arith
safe-IsComponent (a ∷ []) h = ground arith
safe-IsComponent (a ∷ b ∷ []) h = ground arith
safe-IsComponent (a ∷ b ∷ d ∷ c) h = ground arith

encoded-IsComponent : (o : Option (List ℕ)) (c : Text) → encoded_component o ≡ ok c → IsComponent c
encoded-IsComponent none c h = cc
encoded-IsComponent (some bytes) c h = ground (arith, b64_encode_safe bytes)

-- The component under which a volume's name is stored is one harmless path component: it cannot
-- climb out of its directory, split into several, or hold a control character.
pub volume_name_component-IsComponent :
    (v c : Text) → volume_name_component v ≡ ok c → IsComponent c
volume_name_component-IsComponent v c h =
    let (valid, how) = name_cases v c h in
    elim how [
      | inl raw ↦ rw raw.0 (safe-IsComponent v raw.1)
      | inr encoded ↦ encoded-IsComponent (utf8_encode v) c (encoded ∙ h)
    ]
