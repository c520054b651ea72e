-- ===== src/Operator/Tolerations.antt =====
-- `_normalized_toleration` and `normalize_tolerations` of kadalu_operator/main.py, on the JSON of a
-- custom resource or a stored record.
pub mod Canonical
pub mod Order
pub mod Distinct
pub mod Idempotent
use kadalu.Prelude.{
  then_compare, compare_text, ℕ, Bool, true, false, not, ◌&&◌, ◌||◌, ◌==◌, Option, none, some, List,
  [], ◌∷◌, Text, String, text_eq, is_word, code_points, if◌then◌else◌,
}
use Prim.Native.Nat.{compare, Ordering}
use kadalu.Prelude.Int.{ℤ, pos, negsuc, leb_ℤ, ltb_ℤ, eq_ℤ}
use kadalu.Exec.{Result, ok, err, runtime_error}
use kadalu.Json.{Json, Items, Fields, end, field, nil, cons, get, str, int, obj, arr}
use kadalu.PosixPath.{is_nil}
use kadalu.Operator.Labels.{valid_label_value, valid_qualified_label_name}

-- A canonical toleration; an empty text stands for a field that is dropped.
pub record Toleration : Type 0 where
  pub operator : Text
  pub key : Text
  pub effect : Text
  pub value : Text
  pub seconds : Option ℤ

abbrev pub present : Option Json → Option Json
present (some Json.null) = none
present o = o

abbrev or_else : Option Json → Option Json → Option Json
or_else none other = other
or_else o other = o

abbrev pub text_field : Option Json → Result Text
text_field none = ok []
text_field (some (Json.str s)) = ok s
text_field (some _) = err runtime_error

-- A signed 64-bit number
abbrev pub fits_int64 : ℤ → Bool
fits_int64 n = leb_ℤ (negsuc 9223372036854775807) n && leb_ℤ n (pos 9223372036854775807)

abbrev pub seconds_field : Option Json → Result (Option ℤ)
seconds_field none = ok none
seconds_field (some (Json.int n)) = if fits_int64 n then ok (some n) else err runtime_error
seconds_field (some _) = err runtime_error

-- `operator or "Equal"`
abbrev pub or_equal : Text → Text
or_equal [] = code_points "Equal"
or_equal operator = operator

abbrev is_exists : Text → Bool
is_exists = is_word "Exists"

abbrev pub is_no_execute : Text → Bool
is_no_execute = is_word "NoExecute"

abbrev known_effect : Text → Bool
known_effect effect =
    is_nil effect
    || (is_word "NoSchedule" effect || (is_word "PreferNoSchedule" effect || is_no_execute effect))

abbrev pub has_seconds : Option ℤ → Bool
has_seconds none = false
has_seconds (some n) = true

unfoldable pub allowed : Toleration → Bool
unfolding valid_qualified_label_name
allowed t =
    (is_word "Equal" t.operator || is_exists t.operator)
    && known_effect t.effect
    && (is_nil t.key || valid_qualified_label_name t.key)
    && valid_label_value t.value
    && not (is_nil t.key && not (is_exists t.operator))
    && not (is_exists t.operator && not (is_nil t.value))
    && not (has_seconds t.seconds && not (is_no_execute t.effect))

abbrev pub checked : Toleration → Result Toleration
checked t = if allowed t then ok t else err runtime_error

abbrev pub canonical :
    Result Text → Result Text → Result Text → Result Text → Result (Option ℤ) → Result Toleration
canonical (ok operator) (ok key) (ok effect) (ok value) (ok seconds) = checked (record {
  operator = or_equal operator;
  key = key;
  effect = effect;
  value = value;
  seconds = seconds;
})
canonical _ _ _ _ _ = err runtime_error

unfoldable pub normalized_toleration : Json → Result Toleration
normalized_toleration (Json.obj fs) =
    canonical (text_field (present (get "operator" fs))) (text_field (present (get "key" fs)))
      (text_field (present (get "effect" fs))) (text_field (present (get "value" fs)))
      (seconds_field
        (or_else (present (get "tolerationSeconds" fs)) (present (get "toleration_seconds" fs))))
normalized_toleration _ = err runtime_error

abbrev pub text_entry : String → Text → Fields → Fields
text_entry name [] rest = rest
text_entry name (c ∷ s) rest = field name (str (c ∷ s)) rest

abbrev pub seconds_entry : Option ℤ → Fields
seconds_entry none = end
seconds_entry (some n) = field "tolerationSeconds" (int n) end

-- The dict that is returned.
abbrev pub toleration_fields : Toleration → Fields
toleration_fields t = field "operator" (str t.operator) (
    text_entry "key" t.key
      (text_entry "effect" t.effect (text_entry "value" t.value (seconds_entry t.seconds))))

abbrev seconds_eq : Option ℤ → Option ℤ → Bool
seconds_eq none none = true
seconds_eq (some a) (some b) = eq_ℤ a b
seconds_eq _ _ = false

-- The serialized forms are equal.
abbrev pub same_toleration : Toleration → Toleration → Bool
same_toleration a b =
    text_eq a.operator b.operator
    && text_eq a.key b.key
    && text_eq a.effect b.effect
    && text_eq a.value b.value
    && seconds_eq a.seconds b.seconds

abbrev pub has_toleration : Toleration → List Toleration → Bool
has_toleration t [] = false
has_toleration t (u ∷ us) = same_toleration u t || has_toleration t us

-- A dict that is filled in order keeps the place of a key's first occurrence.
abbrev pub distinct_onto : List Toleration → List Toleration → List Toleration
distinct_onto seen [] = []
distinct_onto seen (t ∷ ts) = elim (has_toleration t seen) [
  | true ↦ distinct_onto seen ts
  | false ↦ t ∷ distinct_onto (t ∷ seen) ts
]

abbrev pub compare_ℤ : ℤ → ℤ → Ordering
compare_ℤ (pos a) (pos b) = compare a b
compare_ℤ (pos a) (negsuc b) = Ordering.gt
compare_ℤ (negsuc a) (pos b) = Ordering.lt
compare_ℤ (negsuc a) (negsuc b) = compare b a

-- `item.get("tolerationSeconds", -1)`
abbrev pub seconds_key : Option ℤ → ℤ
seconds_key none = negsuc 0
seconds_key (some n) = n

-- The order of the sort keys.
abbrev pub compare_toleration : Toleration → Toleration → Ordering
compare_toleration a b = then_compare (compare_text a.key b.key) (
    then_compare (compare_text a.effect b.effect) (
      then_compare (compare_text a.operator b.operator) (
        then_compare (compare_text a.value b.value)
          (compare_ℤ (seconds_key a.seconds) (seconds_key b.seconds)))))

abbrev pub is_greater : Ordering → Bool
is_greater Ordering.gt = true
is_greater _ = false

abbrev pub insert : Toleration → List Toleration → List Toleration
insert t [] = t ∷ []
insert t (u ∷ us) =
    let rest = insert t us in if is_greater (compare_toleration t u) then u ∷ rest else t ∷ u ∷ us

-- `sorted`, which is stable
abbrev pub sorted : List Toleration → List Toleration
sorted [] = []
sorted (t ∷ ts) = insert t (sorted ts)

abbrev pub append_result : Result Toleration → Result (List Toleration) → Result (List Toleration)
append_result (ok t) (ok ts) = ok (t ∷ ts)
append_result _ _ = err runtime_error

abbrev pub normalized_items : Items → Result (List Toleration)
normalized_items nil = ok []
normalized_items (cons v vs) = append_result (normalized_toleration v) (normalized_items vs)

abbrev pub ordered : Result (List Toleration) → Result (List Toleration)
ordered (err e) = err e
ordered (ok ts) = ok (sorted (distinct_onto [] ts))

unfoldable pub normalize_tolerations : Option Json → Result (List Toleration)
unfolding normalized_toleration
normalize_tolerations none = ok []
normalize_tolerations (some Json.null) = ok []
normalize_tolerations (some (Json.arr items)) = ordered (normalized_items items)
normalize_tolerations (some _) = err runtime_error

abbrev pub toleration_items : List Toleration → Items
toleration_items [] = nil
toleration_items (t ∷ ts) = cons (obj (toleration_fields t)) (toleration_items ts)
