-- ===== src/Admission/Scan/Laws.antt =====
-- The maps that the scan fills.
use kadalu.Prelude.{
  ℕ, ◌≡◌, refl, ◌∙◌, ◌<◌, false, List, [], ◌∷◌, Text, text_eq, text_eq_iff, Bool-cases, inl, inr,
  arith,
}
use kadalu.Exec.{Result, ok, err}
use kadalu.Admission.{lookup}
use kadalu.Admission.Rebuild.{AreDistinct}
use kadalu.Admission.Scan.{set_key, overlay, exact, conflicts}
use kadalu.Admission.Identity.{member}

text_neq : (j k : Text) → text_eq j k ≡ false → text_eq k j ≡ false
text_neq j k e = ground (arith, text_eq_iff j k, text_eq_iff k j)

lookup-set_key :
    (j k : Text) (n : ℕ) (xs : List (Text × ℕ))
    → text_eq k j ≡ false
    → lookup j (set_key k n xs) ≡ lookup j xs
lookup-set_key j k n [] h = rw h refl
lookup-set_key j k n ((i, m) ∷ xs) h =
    ground (arith, text_eq_iff i k, text_eq_iff i j, text_eq_iff k j, lookup-set_key j k n xs h)

abbrev pub ArePositive : List (Text × ℕ) → Type 0
ArePositive [] = Unit
ArePositive ((v, n) ∷ rest) = (0 < n) × ArePositive rest

pub set_key-ArePositive :
    (k : Text) (n : ℕ) (xs : List (Text × ℕ))
    → 0 < n
    → ArePositive xs
    → ArePositive (set_key k n xs)
set_key-ArePositive k n [] p h = (p, tt)
set_key-ArePositive k n ((j, m) ∷ xs) p (hm, hs) = elim (Bool-cases (text_eq j k)) [
  | inl e ↦ rw e (p, hs)
  | inr e ↦ rw e (hm, set_key-ArePositive k n xs p hs)
]

set_key-AreDistinct :
    (k : Text) (n : ℕ) (xs : List (Text × ℕ)) → AreDistinct xs → AreDistinct (set_key k n xs)
set_key-AreDistinct k n [] h = (refl, tt)
set_key-AreDistinct k n ((j, m) ∷ xs) (new, hs) = elim (Bool-cases (text_eq j k)) [
  | inl e ↦ rw e (new, hs)
  | inr e ↦ rw e (lookup-set_key j k n xs (text_neq j k e) ∙ new, set_key-AreDistinct k n xs hs)
]

-- Distinct volumes with positive sizes.
pub record AreSound (xs : List (Text × ℕ)) : Type 0 where
  pub positive : ArePositive xs
  pub distinct : AreDistinct xs

pub set_key-AreSound :
    (k : Text) (n : ℕ) (xs : List (Text × ℕ)) → 0 < n → AreSound xs → AreSound (set_key k n xs)
set_key-AreSound k n xs p h = record {
  positive = set_key-ArePositive k n xs p h.positive;
  distinct = set_key-AreDistinct k n xs h.distinct;
}

-- The sizes that the intents reserve are positive.
abbrev pub TargetsPositive : List (Text × (ℕ × ℕ)) → Type 0
TargetsPositive [] = Unit
TargetsPositive ((v, (m, n)) ∷ xs) = (0 < n) × TargetsPositive xs

pub set_key-TargetsPositive :
    (k : Text) (m n : ℕ) (xs : List (Text × (ℕ × ℕ)))
    → 0 < n
    → TargetsPositive xs
    → TargetsPositive (set_key k (m, n) xs)
set_key-TargetsPositive k m n [] p h = (p, tt)
set_key-TargetsPositive k m n ((j, (a, b)) ∷ xs) p (hb, hs) = elim (Bool-cases (text_eq j k)) [
  | inl e ↦ rw e (p, hs)
  | inr e ↦ rw e (hb, set_key-TargetsPositive k m n xs p hs)
]

pub exact-TargetsPositive : (xs : List (Text × ℕ)) → ArePositive xs → TargetsPositive (exact xs)
exact-TargetsPositive [] h = tt
exact-TargetsPositive ((v, n) ∷ xs) (p, h) = (p, exact-TargetsPositive xs h)

abbrev pub SoundResult : Result (List (Text × ℕ)) → Type 0
SoundResult (err e) = Unit
SoundResult (ok xs) = AreSound xs

pub overlay-SoundResult :
    (tombstones : List Text) (intents : List (Text × (ℕ × ℕ))) (xs : List (Text × ℕ))
    → TargetsPositive intents
    → AreSound xs
    → SoundResult (overlay tombstones intents xs)
overlay-SoundResult tombstones [] xs p h = h
overlay-SoundResult tombstones ((v, (m, n)) ∷ intents) xs (p, ps) h =
    elim (Bool-cases (member v tombstones)) [
      | inl e ↦ rw (e, overlay) (overlay-SoundResult tombstones intents xs ps h)
      | inr e ↦ elim (Bool-cases (conflicts (lookup v xs) m n)) [
        | inl f ↦ rw (e, f, overlay) tt
        | inr f ↦
            rw (e, f, overlay)
              (overlay-SoundResult tombstones intents (set_key v n xs) ps
                (set_key-AreSound v n xs p h))
      ]
    ]
