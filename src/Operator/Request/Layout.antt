-- ===== src/Operator/Request/Layout.antt =====
-- The bricks of an accepted resource as distribute groups.
use mathlib.Core.Path.{subst}
use kadalu.Prelude.{
  and_true, or_rest, ℕ, zero, suc, ◌+◌, ◌*◌, ◌/◌, ◌%◌, ◌<◌, ◌≡◌, refl, ap, ◌∙◌, true, not, ◌&&◌,
  ◌||◌, ◌==◌, leb, Option, none, some, List, [], ◌∷◌, ◌++◌, take, drop, length, length-take,
  length-drop, take-drop, All, arith, Bool-cases, inl, inr, false≢true, ==_iff,
}
use kadalu.Intent.{positive_int}
use kadalu.Intent.Positive.{IsPositive, positive_int-IsPositive}
use kadalu.Json.{Json, Fields, get}
use kadalu.Operator.Request.{
  VolumeType, disperse_size, disperse_config, subvol_bricks_count, agrees, groups_agree,
  groups_valid, layout_valid,
}

abbrev cut : ℕ → ℕ → List Json → List (List Json)
cut zero size bricks = []
cut (suc count) size bricks = take size bricks ∷ cut count size (drop size bricks)

abbrev pub concat : List (List Json) → List Json
concat [] = []
concat (g ∷ gs) = g ++ concat gs

concat-cut : (q n : ℕ) (bs : List Json) → length bs ≡ n * q → concat (cut q n bs) ≡ bs
concat-cut zero n [] h = refl
concat-cut zero n (b ∷ bs) h = absurd (omega arith)
concat-cut (suc q) n bs h =
    ap (λ t. take n bs ++ t) (concat-cut q n (drop n bs) (omega (arith, length-drop n bs)))
    ∙ take-drop n bs

cut_sizes : (q n : ℕ) (bs : List Json) → length bs ≡ n * q → All (λ g. length g ≡ n) (cut q n bs)
cut_sizes zero n bs h = tt
cut_sizes (suc q) n bs h =
    (length-take n bs (omega arith), cut_sizes q n (drop n bs) (omega (arith, length-drop n bs)))

cut_agree :
    (q n : ℕ) (bs : List Json)
    → groups_agree q n bs ≡ true
    → All (λ g. agrees g ≡ true) (cut q n bs)
cut_agree zero n bs h = tt
cut_agree (suc q) n bs h =
    let (first, rest) = and_true (agrees (take n bs)) (groups_agree q n (drop n bs)) h in
    (first, cut_agree q n (drop n bs) rest)

-- One brick agrees with itself.
single-agrees : (q : ℕ) (bs : List Json) → All (λ g. agrees g ≡ true) (cut q 1 bs)
single-agrees zero bs = tt
single-agrees (suc q) [] = (refl, single-agrees q [])
single-agrees (suc q) (b ∷ bs) = (refl, single-agrees q bs)

-- Groups of `n` bricks, which together are the bricks in their order.
pub record AreGroups (n : ℕ) (bricks : List Json) (groups : List (List Json)) : Type 0 where
  pub whole : concat groups ≡ bricks
  pub sizes : All (λ g. length g ≡ n) groups

cut-AreGroups :
    (n : ℕ) (bs : List Json) → 0 < n → length bs % n ≡ 0 → AreGroups n bs (cut (length bs / n) n bs)
cut-AreGroups n bs p h = record {
  whole = concat-cut (length bs / n) n bs exact;
  sizes = cut_sizes (length bs / n) n bs exact;
}
  where
    exact : length bs ≡ n * (length bs / n)
    exact = ground (arith, h)

-- The number of bricks in a group of a volume of this type.
abbrev pub GroupSize : VolumeType → Fields → ℕ → Type 0
GroupSize VolumeType.replica1 spec n = (n ≡ 1)
GroupSize VolumeType.replica2 spec n = (n ≡ 2)
GroupSize VolumeType.replica3 spec n = (n ≡ 3)
GroupSize VolumeType.arbiter spec n = (n ≡ 3)
GroupSize VolumeType.disperse spec n =
    (d : ℕ) × (r : ℕ) × (n ≡ d + r) × (0 < r) × (r < d) × (d % 2 ≡ 0)
GroupSize VolumeType.external spec n = ⊥

-- Outside arbiter volumes every group is decommissioned as a whole, or not at all.
abbrev pub Uniform : VolumeType → List (List Json) → Type 0
Uniform VolumeType.arbiter groups = Unit
Uniform voltype groups = All (λ g. agrees g ≡ true) groups

pub record IsLaidOut (voltype : VolumeType) (spec : Fields) (bricks : List Json) : Type 0 where
  pub size : ℕ
  pub groups : List (List Json)
  pub sized : GroupSize voltype spec size
  pub split : AreGroups size bricks groups
  pub uniform : Uniform voltype groups

groups_valid-agree :
    (n : ℕ) (bs : List Json)
    → 0 < n
    → groups_valid n bs ≡ true
    → (length bs % n ≡ 0) × All (λ g. agrees g ≡ true) (cut (length bs / n) n bs)
groups_valid-agree n bs p h =
    let (whole, agree) =
      and_true (length bs % n == 0) (leb n 1 || groups_agree (length bs / n) n bs) h in
    (
      (==_iff _ _).0 whole,
      elim (Bool-cases (leb n 1)) [
        | inl e ↦
            subst (λ m. All (λ g. agrees g ≡ true) (cut (length bs / n) m bs)) (one n p e)
              (single-agrees (length bs / n) bs)
        | inr e ↦
            cut_agree (length bs / n) n bs
              (or_rest (leb n 1) (groups_agree (length bs / n) n bs) agree e)
      ],
    )
  where
    one : (n : ℕ) → 0 < n → leb n 1 ≡ true → 1 ≡ n
    one n p e = ground arith

laid_out :
    (voltype : VolumeType) (spec : Fields) (n : ℕ) (bs : List Json)
    → 0 < n
    → GroupSize voltype spec n
    → (All (λ g. agrees g ≡ true) (cut (length bs / n) n bs)
        → Uniform voltype (cut (length bs / n) n bs))
    → groups_valid n bs ≡ true
    → IsLaidOut voltype spec bs
laid_out voltype spec n bs p sized uniform h =
    let (whole, agree) = groups_valid-agree n bs p h in
    record {
      size = n;
      groups = cut (length bs / n) n bs;
      sized = sized;
      split = cut-AreGroups n bs p whole;
      uniform = uniform agree;
    }

-- What is known of a computed group size.
abbrev SizeRule : VolumeType → Fields → Option ℕ → Type 0
SizeRule voltype spec none = Unit
SizeRule VolumeType.arbiter spec (some n) = Unit
SizeRule voltype spec (some n) = (0 < n) × GroupSize voltype spec n

disperse-SizeRule :
    (spec : Fields) (d r : Option ℕ)
    → IsPositive r
    → SizeRule VolumeType.disperse spec (disperse_size d r)
disperse-SizeRule spec none r p = tt
disperse-SizeRule spec (some d) none p = tt
disperse-SizeRule spec (some d) (some r) p = elim (Bool-cases (leb (d + r) (2 * r))) [
  | inl e ↦ rw e tt
  | inr e ↦ elim (Bool-cases (d % 2 == 0)) [
    | inr f ↦ rw (e, f) tt
    | inl f ↦ rw (e, f) (omega arith, (d, r, refl, p, ground arith, (==_iff _ _).0 f))
  ]
]

config-SizeRule :
    (spec : Fields) (v : Option Json) → SizeRule VolumeType.disperse spec (disperse_config v)
config-SizeRule spec (some (Json.obj config)) =
    disperse-SizeRule spec (positive_int (get "data" config))
      (positive_int (get "redundancy" config)) (positive_int-IsPositive (get "redundancy" config))
config-SizeRule spec (some Json.null) = tt
config-SizeRule spec (some (Json.bool b)) = tt
config-SizeRule spec (some (Json.int n)) = tt
config-SizeRule spec (some (Json.str s)) = tt
config-SizeRule spec (some (Json.arr vs)) = tt
config-SizeRule spec none = tt

abbrev pub IsStored : VolumeType → Type 0
IsStored VolumeType.external = ⊥
IsStored voltype = Unit

disperse-IsLaidOut :
    (spec : Fields) (o : Option ℕ) (bs : List Json)
    → SizeRule VolumeType.disperse spec o
    → layout_valid VolumeType.disperse spec o bs ≡ true
    → IsLaidOut VolumeType.disperse spec bs
disperse-IsLaidOut spec none bs rule h = absurd (false≢true h)
disperse-IsLaidOut spec (some n) bs (p, sized) h =
    laid_out VolumeType.disperse spec n bs p sized (λ agree. agree)
      (and_true (groups_valid n bs) true h).0

arbiter-IsLaidOut :
    (spec : Fields) (bs : List Json)
    → (length bs % 3 == 0) ≡ true
    → IsLaidOut VolumeType.arbiter spec bs
arbiter-IsLaidOut spec bs h = record {
  size = 3;
  groups = cut (length bs / 3) 3 bs;
  sized = refl;
  split = cut-AreGroups 3 bs (omega arith) ((==_iff _ _).0 h);
  uniform = tt;
}

pub layout_valid-IsLaidOut :
    (voltype : VolumeType) (spec : Fields) (bs : List Json)
    → IsStored voltype
    → layout_valid voltype spec (subvol_bricks_count voltype spec) bs ≡ true
    → IsLaidOut voltype spec bs
layout_valid-IsLaidOut VolumeType.replica1 spec bs stored h =
    laid_out VolumeType.replica1 spec 1 bs (omega arith) refl (λ agree. agree)
      (and_true (groups_valid 1 bs) _ h).0
layout_valid-IsLaidOut VolumeType.replica2 spec bs stored h =
    laid_out VolumeType.replica2 spec 2 bs (omega arith) refl (λ agree. agree)
      (and_true (groups_valid 2 bs) _ h).0
layout_valid-IsLaidOut VolumeType.replica3 spec bs stored h =
    laid_out VolumeType.replica3 spec 3 bs (omega arith) refl (λ agree. agree)
      (and_true (groups_valid 3 bs) _ h).0
layout_valid-IsLaidOut VolumeType.disperse spec bs stored h =
    disperse-IsLaidOut spec (disperse_config (get "disperse" spec)) bs
      (config-SizeRule spec (get "disperse" spec)) h
layout_valid-IsLaidOut VolumeType.arbiter spec bs stored h =
    arbiter-IsLaidOut spec bs
      (and_true (not (leb (length bs) 2)) (length bs % 3 == 0)
        (and_true (groups_valid 1 bs) (not (leb (length bs) 2) && length bs % 3 == 0) h).1).1
layout_valid-IsLaidOut VolumeType.external spec bs stored h = absurd stored
