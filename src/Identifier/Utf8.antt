-- ===== src/Identifier/Utf8.antt =====
-- Decoding what `utf8_encode` gives.
use native.Mathlib.Decide.{dec_lt}
use kadalu.Prelude.{
  Bool-cases, ◌∙◌, ◌⊎◌, inl, inr, ℕ, suc, ◌+◌, ◌*◌, ◌/◌, ◌%◌, ◌<◌, ◌≤◌, ◌≡◌, refl, true, false,
  ◌&&◌, ◌==◌, ltb, leb, Option, none, some, List, [], ◌∷◌, ◌++◌, if◌then◌else◌, arith, All, ap,
}
use kadalu.Identifier.Bytes.{
  utf8_char, utf8_encode, utf8_decode, decode_from, Decoder, start, inside, emit, more, first_byte,
  next_byte, feed, emitted, join, b64_char, b64_value, b64_encode, b64_decode,
}

lt→ltb : (a b : ℕ) → a < b → ltb a b ≡ true
lt→ltb a b h = ground arith

ge→ltb : (a b : ℕ) → ¬ (a < b) → ltb a b ≡ false
ge→ltb a b h = ground arith

b64_value-b64_char : (n : ℕ) → n < 64 → b64_value (b64_char n) ≡ some n
unfolding b64_value b64_char
b64_value-b64_char n h = ground arith

abbrev IsByte : ℕ → Type 0
IsByte b = b < 256

pub b64_decode-b64_encode :
    (bytes : List ℕ) → All IsByte bytes → b64_decode (b64_encode bytes) ≡ some bytes
unfolding b64_decode b64_encode
b64_decode-b64_encode [] h = refl
b64_decode-b64_encode (a ∷ []) h =
    rw (b64_value-b64_char (a / 4) (omega arith), b64_value-b64_char (a % 4 * 16) (omega arith))
      (ground arith)
b64_decode-b64_encode (a ∷ b ∷ []) h =
    rw
      (
        b64_value-b64_char (a / 4) (omega arith),
        b64_value-b64_char (a % 4 * 16 + b / 16) (omega arith),
        b64_value-b64_char (b % 16 * 4) (omega arith),
      )
      (ground arith)
b64_decode-b64_encode (a ∷ b ∷ c ∷ rest) h =
    rw
      (
        b64_value-b64_char (a / 4) (omega arith),
        b64_value-b64_char (a % 4 * 16 + b / 16) (omega arith),
        b64_value-b64_char (b % 16 * 4 + c / 64) (omega arith),
        b64_value-b64_char (c % 64) (omega arith),
        b64_decode-b64_encode rest h.1.1.1,
      )
      (ground arith)

decode-emit :
    (d : Decoder) (b c : ℕ) (rest : List ℕ)
    → feed d b ≡ emit c
    → decode_from d (b ∷ rest) ≡ emitted c (decode_from start rest)
unfolding decode_from
decode-emit start b c rest h = rw (h, decode_from)
decode-emit (inside left value low high) b c rest h = rw (h, decode_from)

decode-more :
    (d d' : Decoder) (b : ℕ) (rest : List ℕ)
    → feed d b ≡ more d'
    → decode_from d (b ∷ rest) ≡ decode_from d' rest
unfolding decode_from
decode-more start d' b rest h = rw (h, decode_from)
decode-more (inside left value low high) d' b rest h = rw (h, decode_from)

next-last :
    (value low high x : ℕ)
    → low ≤ 0x80 + x
    → 0x80 + x ≤ high
    → next_byte 0 value low high (0x80 + x) ≡ emit (value * 64 + x)
unfolding next_byte
next-last value low high x h k = ground arith

next-more :
    (left value low high x : ℕ)
    → low ≤ 0x80 + x
    → 0x80 + x ≤ high
    → next_byte (suc left) value low high (0x80 + x) ≡ more (inside left (value * 64 + x) 0x80 0xBF)
unfolding next_byte
next-more left value low high x h k = ground arith

first-one : (c : ℕ) → c < 0x80 → first_byte c ≡ emit c
unfolding first_byte
first-one c h = ground arith

first-two :
    (c : ℕ) → 0x80 ≤ c → c < 0x800 → first_byte (0xC0 + c / 64) ≡ more (inside 0 (c / 64) 0x80 0xBF)
unfolding first_byte
first-two c h k = ground arith

abbrev low_3 : ℕ → ℕ
low_3 c = if c / 4096 == 0 then 0xA0 else 0x80

abbrev high_3 : ℕ → ℕ
high_3 c = if c / 4096 == 13 then 0x9F else 0xBF

first-three :
    (c : ℕ)
    → c < 0x10000
    → first_byte (0xE0 + c / 4096) ≡ more (inside 1 (c / 4096) (low_3 c) (high_3 c))
unfolding first_byte
first-three c h = ground arith

abbrev low_4 : ℕ → ℕ
low_4 c = if c / 262144 == 0 then 0x90 else 0x80

abbrev high_4 : ℕ → ℕ
high_4 c = if c / 262144 == 4 then 0x8F else 0xBF

first-four :
    (c : ℕ)
    → c < 0x110000
    → first_byte (0xF0 + c / 262144) ≡ more (inside 2 (c / 262144) (low_4 c) (high_4 c))
unfolding first_byte
first-four c h = ground arith

abbrev Decodes : List ℕ → ℕ → Type 0
Decodes bytes c =
    (rest : List ℕ) → decode_from start (bytes ++ rest) ≡ emitted c (decode_from start rest)

Decodes-one : (c : ℕ) → c < 0x80 → Decodes (c ∷ []) c
Decodes-one c h rest = decode-emit start c c rest (first-one c h)

Decodes-two : (c : ℕ) → 0x80 ≤ c → c < 0x800 → Decodes ((0xC0 + c / 64) ∷ (0x80 + c % 64) ∷ []) c
Decodes-two c h k rest =
    decode-more start _ _ _ (first-two c h k)
    ∙ decode-emit _ _ c rest
        (next-last (c / 64) 0x80 0xBF (c % 64) (omega arith) (omega arith) ∙ ap emit (omega arith))

Decodes-three :
    (c : ℕ)
    → 0x800 ≤ c
    → (c < 0xD800) ⊎ (0xDFFF < c)
    → c < 0x10000
    → Decodes ((0xE0 + c / 4096) ∷ (0x80 + c / 64 % 64) ∷ (0x80 + c % 64) ∷ []) c
Decodes-three c h k l rest =
    decode-more start _ _ _ (first-three c l)
    ∙ decode-more _ _ _ _
        (next-more 0 (c / 4096) (low_3 c) (high_3 c) (c / 64 % 64) (ground arith) (ground arith))
    ∙ decode-emit _ _ c rest
        (next-last _ 0x80 0xBF (c % 64) (omega arith) (omega arith) ∙ ap emit (omega arith))

Decodes-four :
    (c : ℕ)
    → 0x10000 ≤ c
    → c < 0x110000
    → Decodes
        ((0xF0 + c / 262144) ∷ (0x80 + c / 4096 % 64) ∷ (0x80 + c / 64 % 64) ∷ (0x80 + c % 64) ∷ [])
        c
Decodes-four c h l rest =
    decode-more start _ _ _ (first-four c l)
    ∙ decode-more _ _ _ _ (
        next-more 1 (c / 262144) (low_4 c) (high_4 c) (c / 4096 % 64) (ground arith) (ground arith))
    ∙ decode-more _ _ _ _ (next-more 0 _ 0x80 0xBF (c / 64 % 64) (omega arith) (omega arith))
    ∙ decode-emit _ _ c rest
        (next-last _ 0x80 0xBF (c % 64) (omega arith) (omega arith) ∙ ap emit (omega arith))

-- What an encoded character's bytes are.
abbrev IsUtf8Char : Option (List ℕ) → ℕ → Type 0
IsUtf8Char none c = Unit
IsUtf8Char (some bytes) c = Decodes bytes c × All IsByte bytes

not_surrogate : (c : ℕ) → (leb 0xD800 c && leb c 0xDFFF) ≡ false → (c < 0xD800) ⊎ (0xDFFF < c)
not_surrogate c h = ground arith

above_two :
    (c : ℕ)
    → 0x800 ≤ c
    → IsUtf8Char
        (if leb 0xD800 c && leb c 0xDFFF
          then none
          else if ltb c 0x10000
          then some ((0xE0 + c / 4096) ∷ (0x80 + c / 64 % 64) ∷ (0x80 + c % 64) ∷ [])
          else if ltb c 0x110000
          then some (
              (0xF0 + c / 262144)
              ∷ (0x80 + c / 4096 % 64)
              ∷ (0x80 + c / 64 % 64)
              ∷ (0x80 + c % 64)
              ∷ [])
          else none)
        c
above_two c h = elim (Bool-cases (leb 0xD800 c && leb c 0xDFFF)) [
  | inl e ↦ rw e tt
  | inr e ↦ rw e (elim (dec_lt c 0x10000) [
    | yes l ↦
        rw (lt→ltb c 0x10000 l)
          (Decodes-three c h (not_surrogate c e) l, (omega arith, (omega arith, (omega arith, tt))))
    | no l ↦ rw (ge→ltb c 0x10000 l) (elim (dec_lt c 0x110000) [
      | yes m ↦ rw (lt→ltb c 0x110000 m) (
        Decodes-four c (omega arith) m,
        (omega arith, (omega arith, (omega arith, (omega arith, tt)))),
      )
      | no m ↦ rw (ge→ltb c 0x110000 m) tt
    ])
  ])
]

utf8_char-IsUtf8Char : (c : ℕ) → IsUtf8Char (utf8_char c) c
unfolding utf8_char
utf8_char-IsUtf8Char c = elim (dec_lt c 0x80) [
  | yes a ↦ rw (lt→ltb c 0x80 a) (Decodes-one c a, (omega arith, tt))
  | no a ↦ rw (ge→ltb c 0x80 a) (elim (dec_lt c 0x800) [
    | yes b ↦
        rw (lt→ltb c 0x800 b) (Decodes-two c (omega arith) b, (omega arith, (omega arith, tt)))
    | no b ↦ rw (ge→ltb c 0x800 b) (above_two c (omega arith))
  ])
]

All-append : (xs ys : List ℕ) → All IsByte xs → All IsByte ys → All IsByte (xs ++ ys)
All-append [] ys h k = k
All-append (x ∷ xs) ys h k = (h.0, All-append xs ys h.1 k)

-- The encoding of a whole text, where it has one.
abbrev pub IsUtf8 : Option (List ℕ) → List ℕ → Type 0
IsUtf8 none s = Unit
IsUtf8 (some bytes) s = (utf8_decode bytes ≡ some s) × All IsByte bytes

join-IsUtf8 :
    (c : ℕ) (s : List ℕ) (o p : Option (List ℕ))
    → IsUtf8Char o c
    → IsUtf8 p s
    → IsUtf8 (join o p) (c ∷ s)
join-IsUtf8 c s none p h k = tt
join-IsUtf8 c s (some a) none h k = tt
join-IsUtf8 c s (some a) (some b) h k = (h.0 b ∙ ap (emitted c) k.0, All-append a b h.1 k.1)

pub utf8_encode-IsUtf8 : (s : List ℕ) → IsUtf8 (utf8_encode s) s
unfolding decode_from
utf8_encode-IsUtf8 [] = (refl, tt)
utf8_encode-IsUtf8 (c ∷ s) =
    join-IsUtf8 c s (utf8_char c) (utf8_encode s) (utf8_char-IsUtf8Char c) (utf8_encode-IsUtf8 s)
