-- ===== src/Operator/Bricks/Sound.antt =====
-- What an accepted list of bricks is.
use mathlib.Core.Path.{subst}
use kadalu.PosixPath.{isabs, normpath}
use kadalu.Operator.Labels.{dns_subdomain}
use kadalu.Prelude.{
  or_false, and_true, not-true, ◌≤◌, leb, length, text_eq_iff, Bool, true, false, not, ◌&&◌, ◌≡◌,
  refl, sym, ◌∙◌, Option, none, some, List, [], ◌∷◌, Text, text_eq, Bool-cases, inl, inr, arith,
  false≢true, ◌≢◌, text_eq_refl, All,
}
use kadalu.Json.{Json, Items, nil, cons, get}
use kadalu.Operator.Bricks.{
  Backing, Identity, backing_of, given_of, value_canonical, identity_of, identity_from, node_of,
  brick_identity, same_backing, same_identity, identity_in, bricks_from, bricks_validation,
}

-- The identities of the bricks, in their order.
abbrev pub HaveIdentities : Items → List Identity → Type 0
HaveIdentities nil [] = Unit
HaveIdentities (cons b bs) (i ∷ is) = (brick_identity b ≡ some i) × HaveIdentities bs is
HaveIdentities _ _ = ⊥

abbrev Absent : Identity → List Identity → Type 0
Absent i [] = Unit
Absent i (j ∷ js) = (i ≢ j) × Absent i js

abbrev pub AreDistinct : List Identity → Type 0
AreDistinct [] = Unit
AreDistinct (i ∷ is) = Absent i is × AreDistinct is

same_backing_refl : (b : Backing) → same_backing b b ≡ true
same_backing_refl Backing.pvc = refl
same_backing_refl Backing.path = refl
same_backing_refl Backing.device = refl

same_identity_refl : (i : Identity) → same_identity i i ≡ true
same_identity_refl (Identity.claim v) = text_eq_refl v
same_identity_refl (Identity.at_node b n v) =
    rw (same_backing_refl b) (rw (text_eq_refl n) (rw (text_eq_refl v) refl))

-- A claim's name has at most 253 characters; a path or a device is absolute and normalized.
abbrev pub IsCanonical : Identity → Type 0
IsCanonical (Identity.claim v) = length v ≤ 253
IsCanonical (Identity.at_node b n v) = (isabs v ≡ true) × (normpath v ≡ v)

abbrev CanonicalIf : Option Identity → Type 0
CanonicalIf none = Unit
CanonicalIf (some i) = IsCanonical i

path-CanonicalIf :
    (b : Backing) (v : Text) (more : Bool) (supplied : Option (Option Text))
    → (isabs v && text_eq (normpath v) v && more) ≡ true
    → (isabs v ≡ true) × (normpath v ≡ v)
path-CanonicalIf b v more supplied h =
    let (first, last) = and_true (isabs v && text_eq (normpath v) v) more h in
    let (absolute, same) = and_true (isabs v) (text_eq (normpath v) v) first in
    (absolute, (text_eq_iff (normpath v) v).0 same)

identity_of-CanonicalIf :
    (b : Backing) (v : Text) (supplied : Option (Option Text))
    → value_canonical b v ≡ true
    → CanonicalIf (identity_of b v supplied)
identity_of-CanonicalIf b v none h = tt
identity_of-CanonicalIf Backing.pvc v (some supplied) h =
    ground (arith, and_true (leb (length v) 253) (dns_subdomain v) h)
identity_of-CanonicalIf Backing.path v (some none) h = tt
identity_of-CanonicalIf Backing.device v (some none) h = tt
identity_of-CanonicalIf Backing.path v (some (some n)) h = path-CanonicalIf Backing.path v _ none h
identity_of-CanonicalIf Backing.device v (some (some n)) h =
    path-CanonicalIf Backing.device v _ none h

identity_from-CanonicalIf :
    (o : Option (Backing × Text)) (supplied : Option Json) → CanonicalIf (identity_from o supplied)
identity_from-CanonicalIf none supplied = tt
identity_from-CanonicalIf (some (b, v)) supplied = elim (Bool-cases (value_canonical b v)) [
  | inl e ↦ rw e (identity_of-CanonicalIf b v (node_of supplied) e)
  | inr e ↦ rw e tt
]

brick_identity-CanonicalIf : (brick : Json) → CanonicalIf (brick_identity brick)
unfolding brick_identity
brick_identity-CanonicalIf (Json.obj brick) =
    identity_from-CanonicalIf
      (backing_of (given_of (get "pvc" brick)) (given_of (get "path" brick))
        (given_of (get "device" brick)))
      (get "node" brick)
brick_identity-CanonicalIf Json.null = tt
brick_identity-CanonicalIf (Json.bool b) = tt
brick_identity-CanonicalIf (Json.int n) = tt
brick_identity-CanonicalIf (Json.str s) = tt
brick_identity-CanonicalIf (Json.arr vs) = tt

identity-IsCanonical : (brick : Json) (i : Identity) → brick_identity brick ≡ some i → IsCanonical i
identity-IsCanonical brick i e = subst CanonicalIf e (brick_identity-CanonicalIf brick)

abbrev NotAmong : List Identity → List Identity → Type 0
NotAmong seen = All (λ i. identity_in i seen ≡ false)

NotAmong-rest :
    (i : Identity) (seen is : List Identity)
    → NotAmong (i ∷ seen) is
    → Absent i is × NotAmong seen is
NotAmong-rest i seen [] h = (tt, tt)
NotAmong-rest i seen (j ∷ is) (h, hs) =
    let (other, new) = or_false (same_identity i j) (identity_in j seen) h in
    let (absent, rest) = NotAmong-rest i seen is hs in ((different other, absent), (new, rest))
  where
    different : same_identity i j ≡ false → i ≢ j
    different e same = false≢true (sym e ∙ rw (sym same) (same_identity_refl i))

abbrev IsListed : List Identity → Items → Type 0
IsListed seen bricks =
    (is : List Identity) × HaveIdentities bricks is
    × AreDistinct is
    × All IsCanonical is
    × NotAmong seen is

-- What is left to do once the first brick has an identity.
abbrev continued : List Identity → Items → Option Identity → Bool
continued seen bricks none = false
continued seen bricks (some i) = not (identity_in i seen) && bricks_from (i ∷ seen) bricks

continued-IsListed :
    (seen : List Identity) (brick : Json) (bricks : Items) (o : Option Identity)
    → brick_identity brick ≡ o
    → ((i : Identity) → bricks_from (i ∷ seen) bricks ≡ true → IsListed (i ∷ seen) bricks)
    → continued seen bricks o ≡ true
    → IsListed seen (cons brick bricks)
continued-IsListed seen brick bricks none e listed h = absurd (false≢true h)
continued-IsListed seen brick bricks (some i) e listed h =
    let (new, accepted) = and_true (not (identity_in i seen)) (bricks_from (i ∷ seen) bricks) h in
    let (is, have, distinct, canonical, apart) = listed i accepted in
    let (absent, rest) = NotAmong-rest i seen is apart in
    (
      i ∷ is,
      (e, have),
      (absent, distinct),
      (identity-IsCanonical brick i e, canonical),
      (not-true (identity_in i seen) new, rest),
    )

bricks_from-IsListed :
    (seen : List Identity) (bricks : Items) → bricks_from seen bricks ≡ true → IsListed seen bricks
bricks_from-IsListed seen nil h = ([], tt, tt, tt, tt)
bricks_from-IsListed seen (cons brick bricks) h =
    continued-IsListed seen brick bricks (brick_identity brick) refl
      (λ i. bricks_from-IsListed (i ∷ seen) bricks) h

abbrev IsEmpty : Items → Type 0
IsEmpty nil = Unit
IsEmpty (cons b bs) = ⊥

-- At least one brick; each passes the checks of its own fields and has a canonical backing, and no two
-- have the same claim, or the same device or path on the same node.
abbrev pub AreUsable : Option Json → Type 0
AreUsable (some (Json.arr bricks)) =
    ¬ IsEmpty bricks
    × ((is : List Identity) × HaveIdentities bricks is × AreDistinct is × All IsCanonical is)
AreUsable _ = ⊥

pub bricks_validation-AreUsable : (v : Option Json) → bricks_validation v ≡ true → AreUsable v
unfolding bricks_validation
bricks_validation-AreUsable (some (Json.arr (cons brick bricks))) h =
    let (is, have, distinct, canonical, apart) = bricks_from-IsListed [] (cons brick bricks) h in
    (λ e. e, (is, have, distinct, canonical))
bricks_validation-AreUsable (some (Json.arr nil)) h = absurd (false≢true h)
bricks_validation-AreUsable (some Json.null) h = false≢true h
bricks_validation-AreUsable (some (Json.bool b)) h = false≢true h
bricks_validation-AreUsable (some (Json.int n)) h = false≢true h
bricks_validation-AreUsable (some (Json.str s)) h = false≢true h
bricks_validation-AreUsable (some (Json.obj fs)) h = false≢true h
bricks_validation-AreUsable none h = false≢true h
