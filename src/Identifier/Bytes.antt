-- ===== src/Identifier/Bytes.antt =====
-- Python's utf-8 codec and the unpadded URL-safe base64 that lib/kadalulib.py uses.
use kadalu.Prelude.{
  ℕ, zero, suc, ◌+◌, ◌-◌, ◌*◌, ◌/◌, ◌%◌, ◌&&◌, ◌||◌, ◌==◌, ltb, leb, Option, none, some, List, [],
  ◌∷◌, ◌++◌, if◌then◌else◌,
}

-- One code point; surrogates have no encoding, and neither has what is past U+10FFFF.
unfoldable pub utf8_char : ℕ → Option (List ℕ)
utf8_char c =
    if ltb c 0x80
    then some (c ∷ [])
    else if ltb c 0x800
    then some ((0xC0 + c / 64) ∷ (0x80 + c % 64) ∷ [])
    else if leb 0xD800 c && leb c 0xDFFF
    then none
    else if ltb c 0x10000
    then some ((0xE0 + c / 4096) ∷ (0x80 + c / 64 % 64) ∷ (0x80 + c % 64) ∷ [])
    else if ltb c 0x110000
    then some
        ((0xF0 + c / 262144) ∷ (0x80 + c / 4096 % 64) ∷ (0x80 + c / 64 % 64) ∷ (0x80 + c % 64) ∷ [])
    else none

abbrev pub join : Option (List ℕ) → Option (List ℕ) → Option (List ℕ)
join (some a) (some b) = some (a ++ b)
join _ _ = none

abbrev pub utf8_encode : List ℕ → Option (List ℕ)
utf8_encode [] = some []
utf8_encode (c ∷ s) = join (utf8_char c) (utf8_encode s)

-- Between code points, or inside one: the continuation bytes that are still to come, the value so
-- far, and the range of the next byte.
pub data Decoder : Type 0 where
  start : Decoder
  inside : (left value low high : ℕ) → Decoder

-- What one byte does: emit a code point, wait for more, or fail.
pub data Emit : Type 0 where
  emit : ℕ → Emit
  more : Decoder → Emit
  fail : Emit

unfoldable pub first_byte : ℕ → Emit
first_byte b =
    if ltb b 0x80
    then emit b
    else if ltb b 0xC2
    then fail
    else if ltb b 0xE0
    then more (inside 0 (b - 0xC0) 0x80 0xBF)
    else if ltb b 0xF0
    then more
        (inside 1 (b - 0xE0) (if b == 0xE0 then 0xA0 else 0x80) (if b == 0xED then 0x9F else 0xBF))
    else if ltb b 0xF5
    then more
        (inside 2 (b - 0xF0) (if b == 0xF0 then 0x90 else 0x80) (if b == 0xF4 then 0x8F else 0xBF))
    else fail

unfoldable pub next_byte : ℕ → ℕ → ℕ → ℕ → ℕ → Emit
next_byte left value low high b =
    if leb low b && leb b high
    then (let v = value * 64 + (b - 0x80) in
        elim left [ zero ↦ emit v | suc n ↦ more (inside n v 0x80 0xBF) ])
    else fail

abbrev pub feed : Decoder → ℕ → Emit
feed start b = first_byte b
feed (inside left value low high) b = next_byte left value low high b

abbrev pub emitted : ℕ → Option (List ℕ) → Option (List ℕ)
emitted c none = none
emitted c (some s) = some (c ∷ s)

unfoldable pub decode_from : Decoder → List ℕ → Option (List ℕ)
unfolding first_byte next_byte
decode_from start [] = some []
decode_from (inside left value low high) [] = none
decode_from d (b ∷ bytes) = elim (feed d b) [
  | emit c ↦ emitted c (decode_from start bytes)
  | more d' ↦ decode_from d' bytes
  | fail ↦ none
]

abbrev pub utf8_decode : List ℕ → Option (List ℕ)
utf8_decode = decode_from start

-- The alphabet A-Z a-z 0-9 - _.
unfoldable pub b64_char : ℕ → ℕ
b64_char n =
    if ltb n 26
    then n + b'A'
    else if ltb n 52
    then n - 26 + b'a'
    else if ltb n 62
    then n - 52 + b'0'
    else if n == 62
    then b'-'
    else b'_'

-- `altchars` are put beside + and /, which the decoder takes as well.
unfoldable pub b64_value : ℕ → Option ℕ
b64_value c =
    if leb b'A' c && leb c b'Z'
    then some (c - b'A')
    else if leb b'a' c && leb c b'z'
    then some (c - b'a' + 26)
    else if leb b'0' c && leb c b'9'
    then some (c - b'0' + 52)
    else if c == b'-' || c == b'+'
    then some 62
    else if c == b'_' || c == b'/'
    then some 63
    else none

-- Three bytes make four characters; one or two make two or three, the padding being stripped.
unfoldable pub b64_encode : List ℕ → List ℕ
unfolding b64_char
b64_encode [] = []
b64_encode (a ∷ []) = b64_char (a / 4) ∷ b64_char (a % 4 * 16) ∷ []
b64_encode (a ∷ b ∷ []) =
    b64_char (a / 4) ∷ b64_char (a % 4 * 16 + b / 16) ∷ b64_char (b % 16 * 4) ∷ []
b64_encode (a ∷ b ∷ c ∷ rest) =
    b64_char (a / 4)
    ∷ b64_char (a % 4 * 16 + b / 16)
    ∷ b64_char (b % 16 * 4 + c / 64)
    ∷ b64_char (c % 64)
    ∷ b64_encode rest

abbrev three_bytes : ℕ → ℕ → ℕ → ℕ → List ℕ
three_bytes a b c d = (a * 4 + b / 16) ∷ (b % 16 * 16 + c / 4) ∷ (c % 4 * 64 + d) ∷ []

abbrev four : Option ℕ → Option ℕ → Option ℕ → Option ℕ → Option (List ℕ)
four (some a) (some b) (some c) (some d) = some (three_bytes a b c d)
four _ _ _ _ = none

abbrev pub three : Option ℕ → Option ℕ → Option ℕ → Option (List ℕ)
three (some a) (some b) (some c) = some ((a * 4 + b / 16) ∷ (b % 16 * 16 + c / 4) ∷ [])
three _ _ _ = none

abbrev pub two : Option ℕ → Option ℕ → Option (List ℕ)
two (some a) (some b) = some ((a * 4 + b / 16) ∷ [])
two _ _ = none

-- The padding is put back, so only a single character is left over in vain.
unfoldable pub b64_decode : List ℕ → Option (List ℕ)
unfolding b64_value
b64_decode [] = some []
b64_decode (a ∷ []) = none
b64_decode (a ∷ b ∷ []) = two (b64_value a) (b64_value b)
b64_decode (a ∷ b ∷ c ∷ []) = three (b64_value a) (b64_value b) (b64_value c)
b64_decode (a ∷ b ∷ c ∷ d ∷ rest) =
    join (four (b64_value a) (b64_value b) (b64_value c) (b64_value d)) (b64_decode rest)
