-- ===== src/Operator/Tolerations/Distinct.antt =====
-- `normalize_tolerations` drops repeated tolerations, in any order of the rest.
use kadalu.Prelude.{
  or_false, or_rest, or_true, Bool, true, false, ◌||◌, ◌&&◌, ◌≡◌, refl, sym, ap, ◌∙◌, Option, none,
  some, List, [], ◌∷◌, Text, text_eq, text_eq_refl, text_eq_iff, Bool-cases, inl, inr, arith,
  false≢true,
}
use kadalu.Prelude.Int.{ℤ, pos, negsuc, eq_ℤ}
use kadalu.Operator.Tolerations.{
  Toleration, seconds_eq, same_toleration, has_toleration, distinct_onto, compare_toleration,
  is_greater, insert, sorted,
}

abbrev make : Text → Text → Text → Text → Option ℤ → Toleration
make operator key effect value seconds = record {
  operator = operator;
  key = key;
  effect = effect;
  value = value;
  seconds = seconds;
}

eq_ℤ_sound : (a b : ℤ) → eq_ℤ a b ≡ true → a ≡ b
eq_ℤ_sound (pos a) (pos b) h = ap pos (ground arith)
eq_ℤ_sound (negsuc a) (negsuc b) h = ap negsuc (ground arith)
eq_ℤ_sound (pos a) (negsuc b) h = cc
eq_ℤ_sound (negsuc a) (pos b) h = cc

seconds_eq_sound : (a b : Option ℤ) → seconds_eq a b ≡ true → a ≡ b
seconds_eq_sound none none h = refl
seconds_eq_sound (some a) (some b) h = ap some (eq_ℤ_sound a b h)
seconds_eq_sound none (some b) h = cc
seconds_eq_sound (some a) none h = cc

eq_ℤ_refl : (a : ℤ) → eq_ℤ a a ≡ true
eq_ℤ_refl (pos a) = ground arith
eq_ℤ_refl (negsuc a) = ground arith

seconds_eq_refl : (a : Option ℤ) → seconds_eq a a ≡ true
seconds_eq_refl none = refl
seconds_eq_refl (some a) = eq_ℤ_refl a

and_parts :
    (a b c d e : Bool)
    → (a && b && c && d && e) ≡ true
    → (a ≡ true) × (b ≡ true) × (c ≡ true) × (d ≡ true) × (e ≡ true)
and_parts true true true true true h = (refl, refl, refl, refl, refl)
and_parts true true true true false h = absurd (false≢true h)
and_parts true true true false e h = absurd (false≢true h)
and_parts true true false d e h = absurd (false≢true h)
and_parts true false c d e h = absurd (false≢true h)
and_parts false b c d e h = absurd (false≢true h)

same_refl : (t : Toleration) → same_toleration t t ≡ true
same_refl t = rw (text_eq_refl t.operator) (
    rw (text_eq_refl t.key) (
      rw (text_eq_refl t.effect) (rw (text_eq_refl t.value) (rw (seconds_eq_refl t.seconds) refl))))

make_eq :
    (o p k l e f v w : Text) (s r : Option ℤ)
    → o ≡ p
    → k ≡ l
    → e ≡ f
    → v ≡ w
    → s ≡ r
    → make o k e v s ≡ make p l f w r
make_eq o p k l e f v w s r a b c d g = cc

same_sound : (a b : Toleration) → same_toleration a b ≡ true → a ≡ b
same_sound a b h =
    let (o, k, e, v, s) =
      and_parts (text_eq a.operator b.operator) (text_eq a.key b.key) (text_eq a.effect b.effect)
        (text_eq a.value b.value) (seconds_eq a.seconds b.seconds) h in
    make_eq a.operator b.operator a.key b.key a.effect b.effect a.value b.value a.seconds b.seconds
      ((text_eq_iff a.operator b.operator).0 o) ((text_eq_iff a.key b.key).0 k)
      ((text_eq_iff a.effect b.effect).0 e) ((text_eq_iff a.value b.value).0 v)
      (seconds_eq_sound a.seconds b.seconds s)

same_sym : (a b : Toleration) → same_toleration a b ≡ false → same_toleration b a ≡ false
same_sym a b h = elim (Bool-cases (same_toleration b a)) [
  | inr e ↦ e
  | inl e ↦ absurd (false≢true (sym h ∙ rw (same_sound b a e) (same_refl a)))
]

abbrev pub IsDistinct : List Toleration → Type 0
IsDistinct [] = Unit
IsDistinct (t ∷ ts) = (has_toleration t ts ≡ false) × IsDistinct ts

-- No member of the first list is one of the second.
abbrev AreApart : List Toleration → List Toleration → Type 0
AreApart seen ts = (x : Toleration) → has_toleration x seen ≡ true → has_toleration x ts ≡ false

or_swap : (a b c : Bool) → (a || (b || c)) ≡ (b || (a || c))
or_swap true true c = refl
or_swap true false c = refl
or_swap false b c = refl

module _ (seen : List Toleration) (t : Toleration) where
  seen_first : has_toleration t (t ∷ seen) ≡ true
  seen_first = rw (same_refl t) refl

  apart_kept :
      (ts : List Toleration)
      → has_toleration t seen ≡ false
      → AreApart (t ∷ seen) ts
      → AreApart seen (t ∷ ts)
  apart_kept ts fresh apart x h = elim (Bool-cases (same_toleration t x)) [
    | inl e ↦ absurd (false≢true (sym fresh ∙ rw (same_sound t x e) h))
    | inr e ↦ rw e (apart x (or_true (same_toleration t x) (has_toleration x seen) h))
  ]

pub distinct_seen :
    (seen : List Toleration) (t : Toleration) (ts : List Toleration)
    → has_toleration t seen ≡ true
    → distinct_onto seen (t ∷ ts) ≡ distinct_onto seen ts
distinct_seen seen t ts e = rw (e, distinct_onto) refl

pub distinct_new :
    (seen : List Toleration) (t : Toleration) (ts : List Toleration)
    → has_toleration t seen ≡ false
    → distinct_onto seen (t ∷ ts) ≡ t ∷ distinct_onto (t ∷ seen) ts
distinct_new seen t ts e = rw (e, distinct_onto) refl

pub distinct_onto-IsDistinct :
    (seen ts : List Toleration)
    → IsDistinct (distinct_onto seen ts) × AreApart seen (distinct_onto seen ts)
distinct_onto-IsDistinct seen [] = (tt, λ x h. refl)
distinct_onto-IsDistinct seen (t ∷ ts) = elim (Bool-cases (has_toleration t seen)) [
  | inl e ↦ rw (distinct_seen seen t ts e) (distinct_onto-IsDistinct seen ts)
  | inr e ↦ rw (distinct_new seen t ts e) (
      let (d, apart) = distinct_onto-IsDistinct (t ∷ seen) ts in
      ((apart t (seen_first seen t), d), apart_kept seen t (distinct_onto (t ∷ seen) ts) e apart))
]

pub distinct_fixed :
    (seen ts : List Toleration) → IsDistinct ts → AreApart seen ts → distinct_onto seen ts ≡ ts
distinct_fixed seen [] d apart = refl
distinct_fixed seen (t ∷ ts) (new, d) apart = elim (Bool-cases (has_toleration t seen)) [
  | inl e ↦ absurd (false≢true (sym (apart t e) ∙ seen_first ts t))
  | inr e ↦
      rw (distinct_new seen t ts e) (ap (λ us. t ∷ us) (distinct_fixed (t ∷ seen) ts d apart_rest))
]
  where
    apart_rest : AreApart (t ∷ seen) ts
    apart_rest x h = elim (Bool-cases (same_toleration t x)) [
      | inl e ↦ rw (sym (same_sound t x e)) new
      | inr e ↦
          (or_false (same_toleration t x) (has_toleration x ts)
            (apart x (or_rest (same_toleration t x) (has_toleration x seen) h e))).1
    ]

has-insert :
    (x t : Toleration) (us : List Toleration)
    → has_toleration x (insert t us) ≡ (same_toleration t x || has_toleration x us)
has-insert x t [] = refl
has-insert x t (u ∷ us) = elim (Bool-cases (is_greater (compare_toleration t u))) [
  | inl e ↦ rw e (
      rw (has-insert x t us)
        (or_swap (same_toleration u x) (same_toleration t x) (has_toleration x us)))
  | inr e ↦ rw e refl
]

insert-IsDistinct :
    (t : Toleration) (us : List Toleration)
    → has_toleration t us ≡ false
    → IsDistinct us
    → IsDistinct (insert t us)
insert-IsDistinct t [] new d = (refl, tt)
insert-IsDistinct t (u ∷ us) new (first, d) =
    elim (Bool-cases (is_greater (compare_toleration t u))) [
      | inl e ↦ rw e (
          let (other, rest) = or_false (same_toleration u t) (has_toleration t us) new in
          (has-insert u t us ∙ (rw (same_sym u t other) first), insert-IsDistinct t us rest d))
      | inr e ↦ rw e (new, (first, d))
    ]

has-sorted :
    (x : Toleration) (ts : List Toleration) → has_toleration x (sorted ts) ≡ has_toleration x ts
has-sorted x [] = refl
has-sorted x (t ∷ ts) =
    has-insert x t (sorted ts) ∙ ap (λ b. same_toleration t x || b) (has-sorted x ts)

pub sorted-IsDistinct : (ts : List Toleration) → IsDistinct ts → IsDistinct (sorted ts)
sorted-IsDistinct [] d = tt
sorted-IsDistinct (t ∷ ts) (new, d) =
    insert-IsDistinct t (sorted ts) (has-sorted t ts ∙ new) (sorted-IsDistinct ts d)
