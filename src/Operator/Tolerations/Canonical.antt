-- ===== src/Operator/Tolerations/Canonical.antt =====
-- One toleration: what is accepted, and that a canonical one is its own canonical form.
use kadalu.Prelude.{
  true, false, ◌≡◌, refl, ◌∙◌, Option, none, some, [], ◌∷◌, Text, String, str_eq, Bool-cases, inl,
  inr,
}
use kadalu.Prelude.Int.{ℤ}
use kadalu.Exec.{Result, ok, err}
use kadalu.Json.{Json, Fields, get, obj}
use kadalu.Operator.Tolerations.{
  Toleration, present, or_else, text_field, fits_int64, seconds_field, or_equal, allowed, checked,
  canonical, normalized_toleration, text_entry, seconds_entry, toleration_fields,
}

abbrev pub FitSeconds : Option ℤ → Type 0
FitSeconds none = Unit
FitSeconds (some n) = fits_int64 n ≡ true

pub record IsCanonical (t : Toleration) : Type 0 where
  pub operator : or_equal t.operator ≡ t.operator
  pub allows : allowed t ≡ true
  pub fits : FitSeconds t.seconds

or_equal-or_equal : (s : Text) → or_equal (or_equal s) ≡ or_equal s
or_equal-or_equal [] = refl
or_equal-or_equal (c ∷ s) = refl

abbrev pub IsGood : Result Toleration → Type 0
IsGood (ok t) = IsCanonical t
IsGood (err e) = Unit

checked-IsGood :
    (t : Toleration) → or_equal t.operator ≡ t.operator → FitSeconds t.seconds → IsGood (checked t)
checked-IsGood t same fits = elim (Bool-cases (allowed t)) [
  | inl e ↦ rw e (record { operator = same; allows = e; fits = fits })
  | inr e ↦ rw e tt
]

abbrev GoodSeconds : Result (Option ℤ) → Type 0
GoodSeconds (ok o) = FitSeconds o
GoodSeconds (err e) = Unit

seconds_field-GoodSeconds : (o : Option Json) → GoodSeconds (seconds_field o)
seconds_field-GoodSeconds none = tt
seconds_field-GoodSeconds (some (Json.int n)) = elim (Bool-cases (fits_int64 n)) [
  | inl e ↦ rw e e
  | inr e ↦ rw e tt
]
seconds_field-GoodSeconds (some Json.null) = tt
seconds_field-GoodSeconds (some (Json.bool b)) = tt
seconds_field-GoodSeconds (some (Json.str s)) = tt
seconds_field-GoodSeconds (some (Json.arr vs)) = tt
seconds_field-GoodSeconds (some (Json.obj fs)) = tt

canonical-IsGood :
    (operator key effect value : Result Text) (seconds : Result (Option ℤ))
    → GoodSeconds seconds
    → IsGood (canonical operator key effect value seconds)
canonical-IsGood (ok operator) (ok key) (ok effect) (ok value) (ok seconds) h =
    checked-IsGood _ (or_equal-or_equal operator) h
canonical-IsGood (err e) key effect value seconds h = tt
canonical-IsGood (ok o) (err e) effect value seconds h = tt
canonical-IsGood (ok o) (ok k) (err e) value seconds h = tt
canonical-IsGood (ok o) (ok k) (ok f) (err e) seconds h = tt
canonical-IsGood (ok o) (ok k) (ok f) (ok v) (err e) h = tt

pub normalized-IsGood : (v : Json) → IsGood (normalized_toleration v)
unfolding normalized_toleration
normalized-IsGood (Json.obj fs) = canonical-IsGood _ _ _ _ _ (
    seconds_field-GoodSeconds
      (or_else (present (get "tolerationSeconds" fs)) (present (get "toleration_seconds" fs))))
normalized-IsGood Json.null = tt
normalized-IsGood (Json.bool b) = tt
normalized-IsGood (Json.int n) = tt
normalized-IsGood (Json.str s) = tt
normalized-IsGood (Json.arr vs) = tt

-- Reading back one field of the dict that was built.
abbrev read_text : String → Fields → Result Text
read_text name fs = text_field (present (get name fs))

read_text_same :
    (name : String) (s : Text) (rest : Fields)
    → get name rest ≡ none
    → str_eq name name ≡ true
    → read_text name (text_entry name s rest) ≡ ok s
read_text_same name [] rest absent e = rw absent refl
read_text_same name (c ∷ s) rest absent e = rw e refl

get_other :
    (name k : String) (s : Text) (rest : Fields)
    → str_eq name k ≡ false
    → get k (text_entry name s rest) ≡ get k rest
get_other name k [] rest e = refl
get_other name k (c ∷ s) rest e = rw e refl

get-seconds_entry :
    (k : String) (s : Option ℤ)
    → str_eq "tolerationSeconds" k ≡ false
    → get k (seconds_entry s) ≡ none
get-seconds_entry k none e = refl
get-seconds_entry k (some n) e = rw e refl

-- `tolerationSeconds` is read back from the end of the dict.
seconds_same :
    (s : Option ℤ)
    → FitSeconds s
    → seconds_field (
        or_else
          (present (get "tolerationSeconds" (seconds_entry s)))
          (present (get "toleration_seconds" (seconds_entry s))))
      ≡ ok s
seconds_same none h = refl
seconds_same (some n) h = rw h refl

module _ (key effect value : Text) (seconds : Option ℤ) where
  abbrev from_value : Fields
  from_value = text_entry "value" value (seconds_entry seconds)

  abbrev from_effect : Fields
  from_effect = text_entry "effect" effect from_value

  abbrev from_key : Fields
  from_key = text_entry "key" key from_effect

  read_key : read_text "key" from_key ≡ ok key
  read_key =
      read_text_same "key" key from_effect
        (get_other "effect" "key" effect from_value refl
          ∙ get_other "value" "key" value (seconds_entry seconds) refl
          ∙ get-seconds_entry "key" seconds refl)
        refl

  read_effect : read_text "effect" from_key ≡ ok effect
  read_effect = rw (get_other "key" "effect" key from_effect refl) (
      read_text_same "effect" effect from_value
        (get_other "value" "effect" value (seconds_entry seconds) refl
          ∙ get-seconds_entry "effect" seconds refl)
        refl)

  read_value : read_text "value" from_key ≡ ok value
  read_value = rw (get_other "key" "value" key from_effect refl) (
      rw (get_other "effect" "value" effect from_value refl) (
        read_text_same "value" value (seconds_entry seconds)
          (get-seconds_entry "value" seconds refl) refl))

  get_seconds :
      (k : String)
      → str_eq "key" k ≡ false
      → str_eq "effect" k ≡ false
      → str_eq "value" k ≡ false
      → get k from_key ≡ get k (seconds_entry seconds)
  get_seconds k a b c =
      get_other "key" k key from_effect a
      ∙ get_other "effect" k effect from_value b
      ∙ get_other "value" k value (seconds_entry seconds) c

pub normalized-canonical :
    (t : Toleration) → IsCanonical t → normalized_toleration (obj (toleration_fields t)) ≡ ok t
unfolding normalized_toleration
normalized-canonical t h = rw (read_key t.key t.effect t.value t.seconds) (
    rw (read_effect t.key t.effect t.value t.seconds) (
      rw (read_value t.key t.effect t.value t.seconds) (
        rw (get_seconds t.key t.effect t.value t.seconds "tolerationSeconds" refl refl refl) (
          rw (get_seconds t.key t.effect t.value t.seconds "toleration_seconds" refl refl refl)
            (rw (seconds_same t.seconds h.fits) (rw h.operator (rw h.allows refl)))))))
