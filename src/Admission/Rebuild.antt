-- ===== src/Admission/Rebuild.antt =====
-- The rebuild of stat.db from the durable metadata, as a change of the map from names to bytes.
use mathlib.Core.Path.{fun_ext}
use kadalu.Prelude.{
  ℕ, zero, suc, ◌<◌, ◌≡◌, refl, ap, sym, ◌∙◌, Bool, true, false, not, ◌&&◌, ◌||◌, ◌==◌, ==_iff,
  Option, none, some, List, [], ◌∷◌, Text, text_eq, text_eq_iff, if◌then◌else◌, arith, Bool-cases,
  inl, inr,
}
use kadalu.Exec.{ok, ◌>>=◌}
use kadalu.Accounting.{SizeAccounting, get_pv_size, fits_sqlite}
use kadalu.Accounting.Rows.{fits_sqlite_lem}
use kadalu.Accounting.Refinement.{put}
use kadalu.Admission.{
  Records, lookup, committed, list_or_empty, uncommitted, rename_first, repair, rebuild_one,
  rebuild_loop, rebuild_committed_capacity,
}
use kadalu.Admission.Sets.{
  IsValid, held, Sets, update-Sets, rename-Sets, Sets-pure, Sets-then, Sets-eq, member, clear,
  remove_all-Sets, get_pv_size-held,
}

module _ (hash : Text → Text) (now : ℕ) where
  rename_first-Sets :
      (ks : List Text) (v : Text) (n : ℕ)
      → fits_sqlite (suc n) ≡ true
      → (g : (Text → ℕ) → Text → ℕ) × Sets (rename_first hash now ks v (suc n)) tt g
        × ((m : Text → ℕ) (j : Text) → put v (suc n) (g m) j ≡ put v (suc n) (clear ks m) j)
  rename_first-Sets [] v n fits = (λ m. m, Sets-pure tt, λ m j. refl)
  rename_first-Sets (k ∷ ks) v n fits = (
    λ m. clear ks (put v (suc n) (put k 0 m)),
    Sets-then (rename-Sets hash now k v n fits) (remove_all-Sets ks),
    λ m j. ground arith,
  )

  -- Whatever is accounted for the volume, afterwards it is the committed size.
  repair_after :
      (v : Text) (n : ℕ) (acc : SizeAccounting)
      → fits_sqlite (suc n) ≡ true
      → IsValid acc
      → let r = repair hash now v (suc n) (held acc v) acc in
        (r.0 ≡ ok tt) × IsValid r.1 × (held r.1 ≡ put v (suc n) (held acc))
  repair_after v n acc fits h = elim (Bool-cases (held acc v == suc n)) [
    | inl e ↦ rw e (refl, h, fun_ext λ j. already j ((==_iff _ _).0 e))
    | inr e ↦ rw e ((update-Sets hash now v n fits).at acc h)
  ]
    where
      already : (j : Text) → held acc v ≡ suc n → held acc j ≡ put v (suc n) (held acc) j
      already j e = elim (Bool-cases (text_eq v j)) [
        | inl same ↦ rw same (ap (held acc) (sym ((text_eq_iff v j).0 same)) ∙ e)
        | inr other ↦ rw other
      ]

abbrev pub obsolete : Records → Text → List Text
obsolete records v = uncommitted records.reservations (list_or_empty (lookup v records.aliases))

abbrev pub loop_map : Records → List (Text × ℕ) → (Text → ℕ) → Text → ℕ
loop_map records [] m = m
loop_map records ((v, n) ∷ rest) m = loop_map records rest (put v n (clear (obsolete records v) m))

-- Positive sizes that SQLite's integers hold.
abbrev pub AreSizes : List (Text × ℕ) → Type 0
AreSizes [] = Unit
AreSizes ((v, n) ∷ rest) = (0 < n) × (n < 9223372036854775808) × AreSizes rest

module _ (hash : Text → Text) (now : ℕ) where
  reconcile-Sets :
      (v : Text) (n : ℕ)
      → fits_sqlite (suc n) ≡ true
      → Sets (get_pv_size v >>= repair hash now v (suc n)) tt (put v (suc n))
  reconcile-Sets v n fits = record {
    at = λ acc h. rw (get_pv_size-held v acc h.0) (repair_after hash now v n acc fits h);
  }

  rebuild_one-Sets :
      (records : Records) (v : Text) (n : ℕ)
      → fits_sqlite (suc n) ≡ true
      → Sets
          (rebuild_one hash now records v (suc n))
          tt
          (λ m. put v (suc n) (clear (obsolete records v) m))
  unfolding rebuild_one
  rebuild_one-Sets records v n fits =
      let (g, first, same) = rename_first-Sets hash now (obsolete records v) v n fits in
      Sets-eq _ (Sets-then first (reconcile-Sets v n fits)) same

  rebuild_loop-Sets :
      (records : Records) (rest : List (Text × ℕ))
      → AreSizes rest
      → Sets (rebuild_loop hash now records rest) tt (loop_map records rest)
  unfolding rebuild_loop
  rebuild_loop-Sets records [] h = Sets-pure tt
  rebuild_loop-Sets records ((v, zero) ∷ rest) h = absurd (omega arith)
  rebuild_loop-Sets records ((v, suc n) ∷ rest) h =
      Sets-then (rebuild_one-Sets records v n (fits_sqlite_lem (suc n) h.1))
        (rebuild_loop-Sets records rest h.2)

  pub rebuild-Sets :
      (records : Records)
      → AreSizes records.reservations
      → Sets (rebuild_committed_capacity hash now (ok records)) tt (λ m.
        loop_map records records.reservations
          (clear (uncommitted records.reservations records.tombstones) m))
  unfolding rebuild_committed_capacity
  rebuild-Sets records h =
      Sets-then (remove_all-Sets (uncommitted records.reservations records.tombstones))
        (rebuild_loop-Sets records records.reservations h)

member-uncommitted :
    (res : List (Text × ℕ)) (j : Text) (ks : List Text)
    → member j (uncommitted res ks) ≡ (if committed j res then false else member j ks)
member-uncommitted res j [] = ground arith
member-uncommitted res j (k ∷ ks) = elim (Bool-cases (text_eq k j)) [
  | inl same ↦
      let e : committed k res ≡ committed j res =
        ap (λ t. committed t res) ((text_eq_iff k j).0 same) in
      rw (same, e) (ground (arith, same, member-uncommitted res j ks))
  | inr other ↦ ground (arith, other, member-uncommitted res j ks)
]

-- No volume is reserved twice: the reservations are a dict.
abbrev pub AreDistinct : List (Text × ℕ) → Type 0
AreDistinct [] = Unit
AreDistinct ((v, n) ∷ rest) = (lookup v rest ≡ none) × AreDistinct rest

-- A name that is an obsolete alias of one of these volumes.
abbrev is_alias : Records → List (Text × ℕ) → Text → Bool
is_alias records [] j = false
is_alias records ((v, n) ∷ rest) j =
    member j (list_or_empty (lookup v records.aliases)) || is_alias records rest j

loop_map-other :
    (records : Records) (rest : List (Text × ℕ)) (m : Text → ℕ) (j : Text)
    → lookup j rest ≡ none
    → loop_map records rest m j
      ≡ (if not (committed j records.reservations) && is_alias records rest j then 0 else m j)
loop_map-other records [] m j h = ground arith
loop_map-other records ((v, n) ∷ rest) m j h = ground (
  arith,
  loop_map-other records rest (put v n (clear (obsolete records v) m)) j,
  member-uncommitted records.reservations j (list_or_empty (lookup v records.aliases)),
)

loop_map-reserved :
    (records : Records) (rest : List (Text × ℕ)) (m : Text → ℕ) (j : Text) (n : ℕ)
    → AreDistinct rest
    → committed j records.reservations ≡ true
    → lookup j rest ≡ some n
    → loop_map records rest m j ≡ n
loop_map-reserved records [] m j n d c h = cc
loop_map-reserved records ((v, k) ∷ rest) m j n d c h = elim (Bool-cases (text_eq v j)) [
  | inl same ↦
      let gone : lookup j rest ≡ none =
        ap (λ t. lookup t rest) (sym ((text_eq_iff v j).0 same)) ∙ d.0 in
      loop_map-other records rest _ j gone ∙ ground (arith, same, h, c)
  | inr other ↦ loop_map-reserved records rest _ j n d.1 c (ground (arith, other, h))
]

-- What stat.db must reserve: the committed size of each volume, nothing for a name whose payload is
-- gone or that is an obsolete alias, and for any other name what it reserved before.
abbrev committed_or : Option ℕ → Bool → ℕ → ℕ
committed_or (some n) stale before = n
committed_or none stale before = if stale then 0 else before

abbrev pub rebuilt : Records → (Text → ℕ) → Text → ℕ
rebuilt records m j =
    committed_or (lookup j records.reservations)
      (is_alias records records.reservations j || member j records.tombstones) (m j)

pub loop_map-rebuilt :
    (records : Records) (m : Text → ℕ) (j : Text)
    → AreDistinct records.reservations
    → loop_map records records.reservations
        (clear (uncommitted records.reservations records.tombstones) m)
        j
      ≡ rebuilt records m j
loop_map-rebuilt records m j d = go (lookup j records.reservations) refl
  where
    go :
        (o : Option ℕ)
        → lookup j records.reservations ≡ o
        → loop_map records records.reservations
            (clear (uncommitted records.reservations records.tombstones) m)
            j
          ≡ committed_or o
              (is_alias records records.reservations j || member j records.tombstones)
              (m j)
    go (some n) e = loop_map-reserved records records.reservations _ j n d (rw e) e
    go none e =
        loop_map-other records records.reservations _ j e
        ∙ rw e (
            rw (member-uncommitted records.reservations j records.tombstones) (rw e (ground arith)))

-- In a write transaction on valid rows, and from a scan of distinct volumes with positive sizes below
-- 2^63, the rebuild succeeds, keeps the rows valid and the transaction open, and makes the connection
-- hold what the durable metadata says: each committed volume its committed size, nothing for tombstones
-- and obsolete aliases, and every other name what it had.
pub rebuild_committed_capacity-rebuilt :
    (hash : Text → Text) (now : ℕ) (records : Records) (acc : SizeAccounting)
    → IsValid acc
    → AreSizes records.reservations
    → AreDistinct records.reservations
    → let r = rebuild_committed_capacity hash now (ok records) acc in
      (r.0 ≡ ok tt) × IsValid r.1 × ((j : Text) → held r.1 j ≡ rebuilt records (held acc) j)
rebuild_committed_capacity-rebuilt hash now records acc h p d =
    let (returned, valid, map) = (rebuild-Sets hash now records p).at acc h in
    (returned, valid, λ j. ap (λ (f : Text → ℕ). f j) map ∙ loop_map-rebuilt records (held acc) j d)
