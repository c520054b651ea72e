-- ===== src/StorageAdd/Parser/Replica.antt =====
-- The request `replica n` with its storage units behind it.
use kadalu.Prelude.{
  ℕ, suc, ◌*◌, ◌≡◌, refl, true, some, List, [], ◌∷◌, map, length, All, Text, arith,
}
use kadalu.Prelude.Int.{pos, ◌+ℤ◌}
use kadalu.Exec.{ok}
use kadalu.StorageAdd.{
  Counts, replica, set, DistributeGroup, chunks, split_list, get_subvol_size, count_based_group,
  distribute_group_count_based, number_of, disperse_and_redundancy_count,
}
use kadalu.StorageAdd.Parser.{validate, group_valid, get_all_storage_units}
use kadalu.StorageAdd.Parser.Groups.{chunks-Cut}

-- `counts` behind the tokens `replica n`.
abbrev pub replica_counts : ℕ → Counts
replica_counts n = set replica (pos n) (λ _. pos 0)

subvol_size_lem : (n : ℕ) → get_subvol_size (replica_counts (suc n)) ≡ pos (suc n)
unfolding get_subvol_size ◌+ℤ◌
subvol_size_lem n = ground arith

group_valid_lem :
    (n : ℕ) (us : List Text)
    → number_of us ≡ pos (suc n)
    → group_valid (count_based_group (replica_counts (suc n)) us) ≡ true
unfolding ◌+ℤ◌ disperse_and_redundancy_count
group_valid_lem n us h = ground arith

validate_lem :
    (n : ℕ) (parts : List (List Text))
    → All
        (λ g. number_of g.storage_units ≡ pos (suc n))
        (map (count_based_group (replica_counts (suc n))) parts)
    → validate (map (count_based_group (replica_counts (suc n))) parts) ≡ ok tt
unfolding validate
validate_lem n [] h = refl
validate_lem n (p ∷ parts) h = rw (group_valid_lem n p h.0, validate_lem n parts h.1) refl

-- A group of `suc n` storage units that are replicas of each other, without arbiter and dispersal.
abbrev pub IsReplicaGroup : ℕ → DistributeGroup → Type 0
IsReplicaGroup n g =
    (g.replica_count ≡ pos (suc n))
    × (g.arbiter_count ≡ pos 0)
    × (g.disperse_count ≡ pos 0)
    × (g.redundancy_count ≡ pos 0)
    × (g.replica_keyword ≡ some replica)
    × (number_of g.storage_units ≡ pos (suc n))

group_lem :
    (n : ℕ) (us : List Text)
    → number_of us ≡ pos (suc n)
    → IsReplicaGroup n (count_based_group (replica_counts (suc n)) us)
unfolding ◌+ℤ◌ disperse_and_redundancy_count
group_lem n us h = ground arith

groups_lem :
    (n : ℕ) (parts : List (List Text))
    → All
        (λ g. number_of g.storage_units ≡ pos (suc n))
        (map (count_based_group (replica_counts (suc n))) parts)
    → All (IsReplicaGroup n) (map (count_based_group (replica_counts (suc n))) parts)
groups_lem n [] h = tt
groups_lem n (p ∷ parts) h = (group_lem n p h.0, groups_lem n parts h.1)

-- A request for replicas of a positive count, on a multiple of that many storage units, is grouped
-- into a request that passes the validation, whose groups are replica groups of that count and size
-- with no arbiter and no dispersal, and which has all the given units in their order.
pub replica_request-validate :
    (n q : ℕ) (units : List Text)
    → length units ≡ suc n * q
    → (gs : List DistributeGroup) × (distribute_group_count_based (replica_counts (suc n)) units
        ≡ ok gs)
      × (validate gs ≡ ok tt)
      × All (IsReplicaGroup n) gs
      × (get_all_storage_units gs ≡ units)
unfolding distribute_group_count_based split_list
replica_request-validate n q units h =
    let cut = chunks-Cut (replica_counts (suc n)) n q (length units) units (omega arith) h in
    (
      _,
      rw (subvol_size_lem n) refl,
      validate_lem n (chunks (length units) (suc n) units) cut.sizes,
      groups_lem n (chunks (length units) (suc n) units) cut.sizes,
      cut.all_units,
    )
