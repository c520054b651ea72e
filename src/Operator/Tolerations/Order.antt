-- ===== src/Operator/Tolerations/Order.antt =====
-- The order and the distinctness of the list that `normalize_tolerations` returns.
use kadalu.Prelude.{
  then_compare, compare_text, ℕ, true, false, ◌≡◌, refl, sym, List, [], ◌∷◌, Text, Bool-cases, inl,
  inr, arith,
}
use Prim.Native.Nat.{compare, Ordering}
use kadalu.Prelude.Int.{ℤ, pos, negsuc}
use kadalu.Operator.Tolerations.{
  Toleration, compare_ℤ, seconds_key, compare_toleration, is_greater, insert, sorted,
}

abbrev swap : Ordering → Ordering
swap Ordering.lt = Ordering.gt
swap Ordering.eq = Ordering.eq
swap Ordering.gt = Ordering.lt

swap-compare : (a b : ℕ) → compare b a ≡ swap (compare a b)
swap-compare a b = ground arith

swap-then_compare :
    (o p q r : Ordering) → o ≡ swap p → q ≡ swap r → then_compare o q ≡ swap (then_compare p r)
swap-then_compare o Ordering.lt q r e f = rw e refl
swap-then_compare o Ordering.eq q r e f = rw e f
swap-then_compare o Ordering.gt q r e f = rw e refl

swap-compare_text : (s t : Text) → compare_text t s ≡ swap (compare_text s t)
swap-compare_text [] [] = refl
swap-compare_text [] (d ∷ t) = refl
swap-compare_text (c ∷ s) [] = refl
swap-compare_text (c ∷ s) (d ∷ t) =
    swap-then_compare _ (compare c d) _ (compare_text s t) (swap-compare c d)
      (swap-compare_text s t)

swap-compare_ℤ : (a b : ℤ) → compare_ℤ b a ≡ swap (compare_ℤ a b)
swap-compare_ℤ (pos a) (pos b) = swap-compare a b
swap-compare_ℤ (pos a) (negsuc b) = refl
swap-compare_ℤ (negsuc a) (pos b) = refl
swap-compare_ℤ (negsuc a) (negsuc b) = swap-compare b a

swap-compare_toleration :
    (a b : Toleration) → compare_toleration b a ≡ swap (compare_toleration a b)
swap-compare_toleration a b =
    swap-then_compare _ (compare_text a.key b.key) _ _ (swap-compare_text a.key b.key) (
      swap-then_compare _ (compare_text a.effect b.effect) _ _ (swap-compare_text a.effect b.effect)
        (swap-then_compare _ (compare_text a.operator b.operator) _ _
          (swap-compare_text a.operator b.operator)
          (swap-then_compare _ (compare_text a.value b.value) _ _
            (swap-compare_text a.value b.value)
            (swap-compare_ℤ (seconds_key a.seconds) (seconds_key b.seconds)))))

not_greater : (o p : Ordering) → p ≡ swap o → is_greater o ≡ true → is_greater p ≡ false
not_greater Ordering.gt p e g = rw e refl
not_greater Ordering.lt p e g = rw e (sym g)
not_greater Ordering.eq p e g = rw e refl

-- The first of `us` is not before `t`.
abbrev Below : Toleration → List Toleration → Type 0
Below t [] = Unit
Below t (u ∷ us) = is_greater (compare_toleration t u) ≡ false

abbrev pub IsSorted : List Toleration → Type 0
IsSorted [] = Unit
IsSorted (t ∷ ts) = Below t ts × IsSorted ts

Below-insert :
    (u t : Toleration) (us : List Toleration)
    → Below u us
    → is_greater (compare_toleration u t) ≡ false
    → Below u (insert t us)
Below-insert u t [] below first = first
Below-insert u t (w ∷ us) below first = elim (Bool-cases (is_greater (compare_toleration t w))) [
  | inl e ↦ rw e below
  | inr e ↦ rw e first
]

insert-IsSorted : (t : Toleration) (us : List Toleration) → IsSorted us → IsSorted (insert t us)
insert-IsSorted t [] h = (tt, tt)
insert-IsSorted t (u ∷ us) (below, h) = elim (Bool-cases (is_greater (compare_toleration t u))) [
  | inl e ↦ rw e (
    Below-insert u t us below (
        not_greater (compare_toleration t u) (compare_toleration u t) (swap-compare_toleration t u)
          e),
    insert-IsSorted t us h,
  )
  | inr e ↦ rw e (e, (below, h))
]

pub sorted-IsSorted : (ts : List Toleration) → IsSorted (sorted ts)
sorted-IsSorted [] = tt
sorted-IsSorted (t ∷ ts) = insert-IsSorted t (sorted ts) (sorted-IsSorted ts)

insert_first : (t : Toleration) (ts : List Toleration) → Below t ts → insert t ts ≡ t ∷ ts
insert_first t [] h = refl
insert_first t (u ∷ us) h = rw h refl

pub sorted_fixed : (ts : List Toleration) → IsSorted ts → sorted ts ≡ ts
sorted_fixed [] h = refl
sorted_fixed (t ∷ ts) (below, h) = rw (sorted_fixed ts h) (insert_first t ts below)
