-- ===== src/StorageAdd/Parser/Groups.antt =====
-- What count-based grouping makes of the storage units.
use kadalu.Prelude.{
  ℕ, zero, suc, ◌*◌, ◌≤◌, ◌≡◌, refl, ap, ◌∙◌, List, [], ◌∷◌, ◌++◌, map, take, drop, length,
  length-take, length-drop, take-drop, All, Text, arith,
}
use kadalu.Prelude.Int.{pos}
use kadalu.Exec.{ok}
use kadalu.StorageAdd.{
  Counts, DistributeGroup, chunks, split_list, get_subvol_size, count_based_group,
  distribute_group_count_based, number_of,
}
use kadalu.StorageAdd.Parser.{get_all_storage_units}

-- A list cut in groups of `n`, in order.
pub record Cut (n : ℕ) (counts : Counts) (us : List Text) (q : ℕ) (gs : List DistributeGroup)
    : Type 0 where
  pub number : length gs ≡ q
  pub all_units : get_all_storage_units gs ≡ us
  pub sizes : All (λ g. number_of g.storage_units ≡ pos n) gs

pub chunks-Cut :
    (counts : Counts) (m q fuel : ℕ) (us : List Text)
    → length us ≤ fuel
    → length us ≡ suc m * q
    → Cut (suc m) counts us q (map (count_based_group counts) (chunks fuel (suc m) us))
chunks-Cut counts m zero zero [] f h = record { number = refl; all_units = refl; sizes = tt }
chunks-Cut counts m zero (suc fuel) [] f h = record { number = refl; all_units = refl; sizes = tt }
chunks-Cut counts m (suc q) fuel [] f h = absurd (omega arith)
chunks-Cut counts m q zero (u ∷ us) f h = absurd (omega arith)
chunks-Cut counts m zero (suc fuel) (u ∷ us) f h = absurd (omega arith)
chunks-Cut counts m (suc q) (suc fuel) (u ∷ us) f h =
    let rest =
      chunks-Cut counts m q fuel (drop m us) (omega (arith, length-drop m us))
        (omega (arith, length-drop m us)) in
    record {
      number = ap suc rest.number;
      all_units = ap (λ t. take (suc m) (u ∷ us) ++ t) rest.all_units ∙ take-drop (suc m) (u ∷ us);
      sizes = (ap pos (length-take (suc m) (u ∷ us) (omega arith)), rest.sizes);
    }

-- When the units are `q` groups of the positive size that the counts give, count-based grouping
-- returns `q` groups, each of exactly that many units, which together are the given units in their
-- order.
pub count_based-splits :
    (counts : Counts) (units : List Text) (m q : ℕ)
    → get_subvol_size counts ≡ pos (suc m)
    → length units ≡ suc m * q
    → (gs : List DistributeGroup) × (distribute_group_count_based counts units ≡ ok gs)
      × (length gs ≡ q)
      × (get_all_storage_units gs ≡ units)
      × All (λ g. number_of g.storage_units ≡ get_subvol_size counts) gs
unfolding distribute_group_count_based split_list
count_based-splits counts units m q e h =
    let cut = chunks-Cut counts m q (length units) units (omega arith) h in
    (_, rw e refl, cut.number, cut.all_units, rw e cut.sizes)
