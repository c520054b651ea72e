-- ===== src/Intent/Positive.antt =====
-- The sizes that intents record are positive.
use kadalu.Prelude.{
  ℕ, zero, suc, ◌&&◌, ◌<◌, Option, none, some, Text, arith, Bool-cases, inl, inr, ltb,
}
use kadalu.Prelude.Int.{pos, negsuc}
use kadalu.Exec.{Result, ok, err}
use kadalu.Json.{Json, Fields, get, equals_int}
use kadalu.Intent.{
  positive_int, valid_id, valid_pvtype, valid_incarnation, at_canonical_path, creation_of,
  validate_creation_intent,
}
use kadalu.Intent.Expansion.{at_path, expansion_of, validate_expansion_intent}
use kadalu.Identifier.Legacy.{canonical_volume_paths}

abbrev pub IsPositive : Option ℕ → Type 0
IsPositive none = Unit
IsPositive (some n) = 0 < n

pub positive_int-IsPositive : (v : Option Json) → IsPositive (positive_int v)
positive_int-IsPositive (some (Json.int (pos (suc n)))) = omega arith
positive_int-IsPositive (some (Json.int (pos zero))) = tt
positive_int-IsPositive (some (Json.int (negsuc n))) = tt
positive_int-IsPositive (some Json.null) = tt
positive_int-IsPositive (some (Json.bool b)) = tt
positive_int-IsPositive (some (Json.str s)) = tt
positive_int-IsPositive (some (Json.arr vs)) = tt
positive_int-IsPositive (some (Json.obj fs)) = tt
positive_int-IsPositive none = tt

-- An identity with a size that is positive, or no result.
abbrev pub PositiveResult : Result (Text × ℕ) → Type 0
PositiveResult (err e) = Unit
PositiveResult (ok (v, n)) = 0 < n

module _ (hash : Text → Text) (path : Text) where
  creation_of-PositiveResult :
      (intent : Fields) (v t : Option Text) (n : Option ℕ)
      → IsPositive n
      → PositiveResult (creation_of hash path intent v t n)
  creation_of-PositiveResult intent none t n h = tt
  creation_of-PositiveResult intent (some v) none n h = tt
  creation_of-PositiveResult intent (some v) (some t) none h = tt
  creation_of-PositiveResult intent (some v) (some t) (some n) h =
      elim (Bool-cases (
        equals_int (pos 1) (get "version" intent)
        && valid_incarnation (get "incarnation" intent)
        && at_canonical_path hash path intent v t)) [ inl e ↦ rw e h | inr e ↦ rw e tt ]

  pub validate_creation-PositiveResult :
      (intent : Json) → PositiveResult (validate_creation_intent hash path intent)
  validate_creation-PositiveResult (Json.obj intent) =
      creation_of-PositiveResult intent (valid_id (get "volume_id" intent))
        (valid_pvtype (get "pvtype" intent)) (positive_int (get "size" intent))
        (positive_int-IsPositive (get "size" intent))
  validate_creation-PositiveResult Json.null = tt
  validate_creation-PositiveResult (Json.bool b) = tt
  validate_creation-PositiveResult (Json.int n) = tt
  validate_creation-PositiveResult (Json.str s) = tt
  validate_creation-PositiveResult (Json.arr vs) = tt

  expansion_of-PositiveResult :
      (intent : Fields) (v t : Option Text) (m n : Option ℕ)
      → IsPositive n
      → PositiveResult (expansion_of hash path intent v t m n)
  expansion_of-PositiveResult intent none t m n h = tt
  expansion_of-PositiveResult intent (some v) none m n h = tt
  expansion_of-PositiveResult intent (some v) (some t) none n h = tt
  expansion_of-PositiveResult intent (some v) (some t) (some m) none h = tt
  expansion_of-PositiveResult intent (some v) (some t) (some m) (some n) h =
      elim (Bool-cases (
        equals_int (pos 1) (get "version" intent)
        && at_path path (get "path" intent) (canonical_volume_paths hash v t)
        && ltb m n)) [ inl e ↦ rw e h | inr e ↦ rw e tt ]

  pub validate_expansion-PositiveResult :
      (intent : Json) → PositiveResult (validate_expansion_intent hash path intent)
  unfolding validate_expansion_intent
  validate_expansion-PositiveResult (Json.obj intent) =
      expansion_of-PositiveResult intent (valid_id (get "volume_id" intent))
        (valid_pvtype (get "pvtype" intent)) (positive_int (get "from_size" intent))
        (positive_int (get "to_size" intent)) (positive_int-IsPositive (get "to_size" intent))
  validate_expansion-PositiveResult Json.null = tt
  validate_expansion-PositiveResult (Json.bool b) = tt
  validate_expansion-PositiveResult (Json.int n) = tt
  validate_expansion-PositiveResult (Json.str s) = tt
  validate_expansion-PositiveResult (Json.arr vs) = tt
