-- ===== src/Admission/Select/Outcome.antt =====
-- What each answer of a pool selection says of the pools.
use kadalu.Prelude.{
  ℕ, ◌≡◌, ◌≢◌, ◌≤◌, ◌⊎◌, inl, inr, refl, ==_iff, ◌==◌, ltb, not, ◌&&◌, ◌||◌, Bool, true, false,
  Bool-cases, some, List, [], ◌∷◌, ◌++◌, All, Text, arith,
}
use kadalu.Prelude.Int.{pos}
use kadalu.Exec.{Done, Error, Result, ok, err}
use kadalu.Json.{get, equals_int, get_single_pv_per_pool}
use kadalu.Admission.Select.{
  measured, keep_dedicated, Candidate, Verdict, dedicated, too_small, chosen, failed, raised,
  verdict, Choice, selected, no_space, unavailable, left_by, dedicated_of, eligible_of,
  mount_single_pv_hosting_volume, among_dedicated, only_eligible, mount_one, in_range,
}

-- The pool did not end the search.
abbrev IsPassed : Verdict → Type 0
IsPassed chosen = ⊥
IsPassed (raised e) = ⊥
IsPassed _ = Unit

-- The pool is out of the question: a dedicated one, or one that was measured as too small.
abbrev IsRefused : Verdict → Type 0
IsRefused dedicated = Unit
IsRefused too_small = Unit
IsRefused _ = ⊥

abbrev failure_of : Text → Verdict → List (Text × Error)
failure_of name (failed e) = (name, e) ∷ []
failure_of name _ = []

-- The pools that failed, with their errors, in order.
abbrev failures_of : (Candidate → Verdict) → List Candidate → List (Text × Error)
failures_of judge [] = []
failures_of judge (c ∷ cs) = failure_of c.name (judge c) ++ failures_of judge cs

-- A pool ends the search with this verdict, and every pool before it was passed.
abbrev EndsAt : (Candidate → Verdict) → (Candidate → Type 0) → List Candidate → Type 0
EndsAt judge P [] = ⊥
EndsAt judge P (c ∷ cs) = P c ⊎ IsPassed (judge c) × EndsAt judge P cs

abbrev pub Answers : (Candidate → Verdict) → List (Text × Error) → List Candidate → Choice → Type 0
Answers judge before cs (selected name) =
    EndsAt judge (λ c. (judge c ≡ chosen) × (c.name ≡ name)) cs
Answers judge before cs no_space = (before ≡ []) × All (λ c. IsRefused (judge c)) cs
Answers judge before cs (unavailable fs) =
    (fs ≡ before ++ failures_of judge cs) × (fs ≢ []) × All (λ c. IsPassed (judge c)) cs
Answers judge before cs (left_by e) = EndsAt judge (λ c. judge c ≡ raised e) cs

module _ (hash : Text → Text) (now required_size : ℕ) (volume_id pvtype : Text) where
  -- The format of the pool, its mount, its size and the admission on it, where all of them return.
  abbrev IsMeasured : Candidate → Bool → Type 0
  IsMeasured c b =
      (get_single_pv_per_pool c.doc ≡ ok false)
      × (c.mounted ≡ ok tt)
      × ((n : ℕ) × (c.stat ≡ ok n)
          × (measured hash now c required_size (some (volume_id, pvtype)) n ≡ ok b))

  -- One of the four raised this.
  abbrev IsErrorOf : Candidate → Error → Type 0
  IsErrorOf c e =
      (get_single_pv_per_pool c.doc ≡ err e)
      ⊎ (c.mounted ≡ err e)
      ⊎ (c.stat ≡ err e)
      ⊎ ((n : ℕ) × (c.stat ≡ ok n)
          × (measured hash now c required_size (some (volume_id, pvtype)) n ≡ err e))

  abbrev pub Means : Candidate → Verdict → Type 0
  Means c dedicated = (get_single_pv_per_pool c.doc ≡ ok true)
  Means c too_small = IsMeasured c false
  Means c chosen = IsMeasured c true
  Means c (failed e) = IsErrorOf c e
  Means c (raised e) = IsErrorOf c e

  abbrev pub AreMeant : List Candidate → Type 0
  AreMeant = All (λ c. Means c (verdict hash now required_size (some (volume_id, pvtype)) c))

-- A dedicated pool with the current version of the ownership marker.
abbrev IsOwn : Candidate → Type 0
IsOwn c =
    (get_single_pv_per_pool c.doc ≡ ok true)
    × (equals_int (pos 1) (get "single_pv_claim_version" c.doc) ≡ true)

abbrev IsForeign : Candidate → Type 0
IsForeign c =
    (get_single_pv_per_pool c.doc ≡ ok false)
    ⊎ (equals_int (pos 1) (get "single_pv_claim_version" c.doc) ≡ false)

-- The pool is a candidate, and no other candidate is such a pool.
abbrev IsOnlyOwn : Candidate → List Candidate → Type 0
IsOnlyOwn c [] = ⊥
IsOnlyOwn c (d ∷ cs) = (d ≡ c) × IsOwn d × All IsForeign cs ⊎ IsForeign d × IsOnlyOwn c cs

abbrev Found : List Candidate → List Candidate → Type 0
Found cs [] = All IsForeign cs
Found cs (c ∷ []) = IsOnlyOwn c cs
Found cs (c ∷ d ∷ es) = Unit

abbrev FoundIn : List Candidate → Result (List Candidate) → Type 0
FoundIn cs (err e) = Unit
FoundIn cs (ok ds) = Found cs (eligible_of ds)

skipped-Found :
    (c : Candidate) (cs es : List Candidate) → IsForeign c → Found cs es → Found (c ∷ cs) es
skipped-Found c cs [] foreign f = (foreign, f)
skipped-Found c cs (d ∷ []) foreign f = inr (foreign, f)
skipped-Found c cs (d ∷ b ∷ es) foreign f = tt

taken-Found :
    (c : Candidate) (cs es : List Candidate) → IsOwn c → Found cs es → Found (c ∷ cs) (c ∷ es)
taken-Found c cs [] own f = inl (refl, own, f)
taken-Found c cs (d ∷ es) own f = tt

kept-FoundIn :
    (c : Candidate) (cs : List Candidate) (r : Result Bool) (rest : Result (List Candidate))
    → get_single_pv_per_pool c.doc ≡ r
    → FoundIn cs rest
    → FoundIn (c ∷ cs) (keep_dedicated r c rest)
kept-FoundIn c cs (err e) rest h f = tt
kept-FoundIn c cs (ok b) (err e) h f = tt
kept-FoundIn c cs (ok false) (ok ds) h f = skipped-Found c cs (eligible_of ds) (inl h) f
kept-FoundIn c cs (ok true) (ok ds) h f =
    elim (Bool-cases (equals_int (pos 1) (get "single_pv_claim_version" c.doc))) [
      | inl e ↦ rw e (taken-Found c cs (eligible_of ds) (h, e) f)
      | inr e ↦ rw e (skipped-Found c cs (eligible_of ds) (inr e) f)
    ]

dedicated_of-FoundIn : (cs : List Candidate) → FoundIn cs (dedicated_of cs)
dedicated_of-FoundIn [] = tt
dedicated_of-FoundIn (c ∷ cs) =
    kept-FoundIn c cs (get_single_pv_per_pool c.doc) (dedicated_of cs) refl
      (dedicated_of-FoundIn cs)

-- What a dedicated pool must be to be given out.
abbrev pub IsDedicatedChoice : ℕ → ℕ → List Candidate → Result (Text × ℕ) → Type 0
IsDedicatedChoice required_size limit_size cs (ok (name, capacity)) =
    (c : Candidate) × IsOnlyOwn c cs
    × (c.mounted ≡ ok tt)
    × (c.stat ≡ ok capacity)
    × (c.name ≡ name)
    × (required_size ≤ capacity)
    × ((limit_size ≡ 0) ⊎ (capacity ≤ limit_size))
IsDedicatedChoice required_size limit_size cs (err e) = Unit

in_range_cases :
    (required_size limit_size : ℕ) (cs : List Candidate) (c : Candidate) (r : Result ℕ)
    → IsOnlyOwn c cs
    → c.mounted ≡ ok tt
    → c.stat ≡ r
    → IsDedicatedChoice required_size limit_size cs (in_range required_size limit_size c.name r)
in_range_cases required_size limit_size cs c (err e) one m s = tt
in_range_cases required_size limit_size cs c (ok n) one m s =
    elim (Bool-cases (ltb n required_size || not (limit_size == 0) && ltb limit_size n)) [
      | inl e ↦ rw e tt
      | inr e ↦ rw e (c, one, m, s, refl, ground (arith, e), limited e)
    ]
  where
    limited :
        (ltb n required_size || not (limit_size == 0) && ltb limit_size n) ≡ false
        → (limit_size ≡ 0) ⊎ (n ≤ limit_size)
    limited e = elim (Bool-cases (limit_size == 0)) [
      | inl z ↦ inl ((==_iff limit_size 0).0 z)
      | inr z ↦ inr (ground (arith, e, z))
    ]

mount_one_cases :
    (required_size limit_size : ℕ) (cs : List Candidate) (c : Candidate) (m : Result Done)
    → IsOnlyOwn c cs
    → c.mounted ≡ m
    → IsDedicatedChoice required_size limit_size cs (mount_one required_size limit_size c m)
mount_one_cases required_size limit_size cs c (err e) one h = tt
mount_one_cases required_size limit_size cs c (ok d) one h =
    in_range_cases required_size limit_size cs c c.stat one h refl

only_eligible_cases :
    (required_size limit_size : ℕ) (cs ds es : List Candidate)
    → Found cs es
    → IsDedicatedChoice required_size limit_size cs (only_eligible required_size limit_size ds es)
only_eligible_cases required_size limit_size cs [] [] h = tt
only_eligible_cases required_size limit_size cs (d ∷ ds) [] h = tt
only_eligible_cases required_size limit_size cs ds (c ∷ []) h =
    mount_one_cases required_size limit_size cs c c.mounted h refl
only_eligible_cases required_size limit_size cs ds (c ∷ b ∷ es) h = tt

-- When a dedicated pool is given out, it is the only candidate that is dedicated and has the current
-- version of the ownership marker, it was mounted, and its capacity is at least the required size and
-- at most the limit, if there is one.
pub mount_single-IsDedicatedChoice :
    (candidates : List Candidate) (required_size limit_size : ℕ)
    → IsDedicatedChoice required_size limit_size candidates
        (mount_single_pv_hosting_volume candidates required_size limit_size)
unfolding mount_single_pv_hosting_volume
mount_single-IsDedicatedChoice candidates required_size limit_size =
    go (dedicated_of candidates) (dedicated_of-FoundIn candidates)
  where
    go :
        (r : Result (List Candidate))
        → FoundIn candidates r
        → IsDedicatedChoice required_size limit_size candidates
            (among_dedicated required_size limit_size r)
    go (err e) f = tt
    go (ok ds) f = only_eligible_cases required_size limit_size candidates ds (eligible_of ds) f
