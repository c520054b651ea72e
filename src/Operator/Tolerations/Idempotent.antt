-- ===== src/Operator/Tolerations/Idempotent.antt =====
-- `normalize_tolerations` on lists: what each member satisfies, and a second run on the result.
use mathlib.Core.Path.{subst}
use kadalu.Prelude.{
  and_true, Text, Bool, true, false, ◌≡◌, refl, Option, none, some, List, [], ◌∷◌, Bool-cases, inl,
  inr, arith, All, code_points, text_eq_iff, not, ◌&&◌, false≢true,
}
use kadalu.Prelude.Int.{ℤ, pos, negsuc, leb_ℤ, ◌≤ℤ◌}
use kadalu.Exec.{Result, ok, err}
use kadalu.Json.{Json, Items, arr, nil, cons}
use kadalu.Operator.Tolerations.{
  Toleration, allowed, has_seconds, is_no_execute, has_toleration, distinct_onto, is_greater,
  compare_toleration, insert, sorted, append_result, normalized_items, normalized_toleration,
  ordered, normalize_tolerations, toleration_items,
}
use kadalu.Operator.Tolerations.Canonical.{
  IsCanonical, FitSeconds, IsGood, normalized-IsGood, normalized-canonical,
}
use kadalu.Operator.Tolerations.Order.{IsSorted, sorted-IsSorted, sorted_fixed}
use kadalu.Operator.Tolerations.Distinct.{
  IsDistinct, distinct_seen, distinct_new, distinct_onto-IsDistinct, distinct_fixed,
  sorted-IsDistinct,
}

abbrev AllCanonical : List Toleration → Type 0
AllCanonical = All IsCanonical

abbrev AreGood : Result (List Toleration) → Type 0
AreGood (ok ts) = AllCanonical ts
AreGood (err e) = Unit

append-AreGood :
    (r : Result Toleration) (rs : Result (List Toleration))
    → IsGood r
    → AreGood rs
    → AreGood (append_result r rs)
append-AreGood (ok t) (ok ts) h hs = (h, hs)
append-AreGood (ok t) (err e) h hs = tt
append-AreGood (err e) (ok ts) h hs = tt
append-AreGood (err e) (err f) h hs = tt

items-AreGood : (vs : Items) → AreGood (normalized_items vs)
items-AreGood nil = tt
items-AreGood (cons v vs) =
    append-AreGood (normalized_toleration v) (normalized_items vs) (normalized-IsGood v)
      (items-AreGood vs)

distinct-canonical :
    (seen ts : List Toleration) → AllCanonical ts → AllCanonical (distinct_onto seen ts)
distinct-canonical seen [] h = tt
distinct-canonical seen (t ∷ ts) (h, hs) = elim (Bool-cases (has_toleration t seen)) [
  | inl e ↦ rw (distinct_seen seen t ts e) (distinct-canonical seen ts hs)
  | inr e ↦ rw (distinct_new seen t ts e) (h, distinct-canonical (t ∷ seen) ts hs)
]

insert-canonical :
    (t : Toleration) (us : List Toleration)
    → IsCanonical t
    → AllCanonical us
    → AllCanonical (insert t us)
insert-canonical t [] h hs = (h, tt)
insert-canonical t (u ∷ us) h (hu, hs) = elim (Bool-cases (is_greater (compare_toleration t u))) [
  | inl e ↦ rw (e, insert) (hu, insert-canonical t us h hs)
  | inr e ↦ rw (e, insert) (h, (hu, hs))
]

sorted-canonical : (ts : List Toleration) → AllCanonical ts → AllCanonical (sorted ts)
sorted-canonical [] h = tt
sorted-canonical (t ∷ ts) (h, hs) = insert-canonical t (sorted ts) h (sorted-canonical ts hs)

-- A list that a run may return: canonical members, each once, in the order of the keys.
pub record IsNormal (ts : List Toleration) : Type 0 where
  pub canonical : AllCanonical ts
  pub distinct : IsDistinct ts
  pub in_order : IsSorted ts

abbrev NormalResult : Result (List Toleration) → Type 0
NormalResult (ok ts) = IsNormal ts
NormalResult (err e) = Unit

ordered-IsNormal : (r : Result (List Toleration)) → AreGood r → NormalResult (ordered r)
ordered-IsNormal (err e) h = tt
ordered-IsNormal (ok ts) h = record {
  canonical = sorted-canonical (distinct_onto [] ts) (distinct-canonical [] ts h);
  distinct = sorted-IsDistinct (distinct_onto [] ts) (distinct_onto-IsDistinct [] ts).0;
  in_order = sorted-IsSorted (distinct_onto [] ts);
}

empty-IsNormal : IsNormal []
empty-IsNormal = record { canonical = tt; distinct = tt; in_order = tt }

normalize-NormalResult : (v : Option Json) → NormalResult (normalize_tolerations v)
unfolding normalize_tolerations
normalize-NormalResult none = empty-IsNormal
normalize-NormalResult (some Json.null) = empty-IsNormal
normalize-NormalResult (some (Json.arr items)) =
    ordered-IsNormal (normalized_items items) (items-AreGood items)
normalize-NormalResult (some (Json.bool b)) = tt
normalize-NormalResult (some (Json.int n)) = tt
normalize-NormalResult (some (Json.str s)) = tt
normalize-NormalResult (some (Json.obj fs)) = tt

items_fixed :
    (ts : List Toleration) → AllCanonical ts → normalized_items (toleration_items ts) ≡ ok ts
items_fixed [] h = refl
items_fixed (t ∷ ts) (h, hs) = rw (normalized-canonical t h) (rw (items_fixed ts hs) refl)

normal_fixed :
    (ts : List Toleration)
    → IsNormal ts
    → normalize_tolerations (some (arr (toleration_items ts))) ≡ ok ts
unfolding normalize_tolerations
normal_fixed ts h = rw (items_fixed ts h.canonical) (
    rw (distinct_fixed [] ts h.distinct (λ x e. absurd (false≢true e)))
      (rw (sorted_fixed ts h.in_order) refl))

-- A list that came out of `normalize_tolerations` comes out again unchanged, when it is given back in
-- the form in which it is stored.
pub normalize-normalize :
    (v : Option Json) (ts : List Toleration)
    → normalize_tolerations v ≡ ok ts
    → normalize_tolerations (some (arr (toleration_items ts))) ≡ ok ts
normalize-normalize v ts e = normal_fixed ts (subst NormalResult e (normalize-NormalResult v))

-- What a number of seconds has to satisfy on a toleration with this effect.
abbrev pub InBounds : Option ℤ → Text → Type 0
InBounds none effect = Unit
InBounds (some n) effect =
    (negsuc 9223372036854775807 ≤ℤ n)
    × (n ≤ℤ pos 9223372036854775807)
    × (effect ≡ code_points "NoExecute")

seconds-InBounds :
    (seconds : Option ℤ) (effect : Text)
    → FitSeconds seconds
    → not (has_seconds seconds && not (is_no_execute effect)) ≡ true
    → InBounds seconds effect
seconds-InBounds none effect fits h = tt
seconds-InBounds (some n) effect fits h =
    let low =
      (and_true (leb_ℤ (negsuc 9223372036854775807) n) (leb_ℤ n (pos 9223372036854775807))
        fits).0 in
    let high =
      (and_true (leb_ℤ (negsuc 9223372036854775807) n) (leb_ℤ n (pos 9223372036854775807))
        fits).1 in
    (
      ground (arith, low),
      ground (arith, high),
      (text_eq_iff effect (code_points "NoExecute")).0 (not_not (is_no_execute effect) h),
    )
  where
    not_not : (b : Bool) → not (not b) ≡ true → b ≡ true
    not_not true h = refl
    not_not false h = h

canonical-InBounds : (t : Toleration) → IsCanonical t → InBounds t.seconds t.effect
unfolding allowed
canonical-InBounds t h = seconds-InBounds t.seconds t.effect h.fits (and_true _ _ h.allows).1

All-InBounds : (ts : List Toleration) → AllCanonical ts → All (λ t. InBounds t.seconds t.effect) ts
All-InBounds [] h = tt
All-InBounds (t ∷ ts) (h, hs) = (canonical-InBounds t h, All-InBounds ts hs)

-- Every toleration that is returned fits the API: a number of seconds is a signed 64-bit number, and
-- it stands only on the effect NoExecute.
pub normalize-InBounds :
    (v : Option Json) (ts : List Toleration)
    → normalize_tolerations v ≡ ok ts
    → All (λ t. InBounds t.seconds t.effect) ts
normalize-InBounds v ts e =
    All-InBounds ts (subst NormalResult e (normalize-NormalResult v)).canonical
