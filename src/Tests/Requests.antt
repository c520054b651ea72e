-- ===== src/Tests/Requests.antt =====
-- Command lines of `storage-add`.
use kadalu.Prelude.{◌≡◌, refl, none, some, List, [], ◌∷◌, All, length, Text, code_points}
use kadalu.Prelude.Int.{pos, ◌+ℤ◌}
use kadalu.Exec.{ok, Result}
use kadalu.StorageAdd.{
  Token, type_keyword, number, storage_unit, replica, arbiter, Counts, set, DistributeGroup,
  get_subvol_size, distribute_group_count_based, number_of, tokenizer, keyword_of, int_of,
}
use kadalu.StorageAdd.Parser.{validate, parser, get_all_storage_units}
use kadalu.StorageAdd.Parser.Termination.{parser-returns, parser-diverges}
use kadalu.StorageAdd.Parser.Replica.{replica_counts, IsReplicaGroup, replica_request-validate}
use kadalu.StorageAdd.Parser.Groups.{count_based-splits}

abbrev h1 : Text
h1 = code_points "h1:/s1"

abbrev h2 : Text
h2 = code_points "h2:/s2"

-- replica 2 h1:/s1 h2:/s2
abbrev by_count : List Token
by_count = type_keyword replica ∷ number (pos 2) ∷ storage_unit h1 ∷ storage_unit h2 ∷ []

-- replica h1:/s1 h2:/s2 arbiter 1
abbrev mixed : List Token
mixed =
    type_keyword replica
    ∷ storage_unit h1
    ∷ storage_unit h2
    ∷ type_keyword arbiter
    ∷ number (pos 1)
    ∷ []

tokenizer-by_count : tokenizer (code_points "replica" ∷ code_points "2" ∷ h1 ∷ h2 ∷ []) ≡ by_count
unfolding tokenizer keyword_of int_of
tokenizer-by_count = refl

abbrev two : Counts
two = set replica (pos 2) (λ _. pos 0)

parser-returns_example : (r : Result (List DistributeGroup)) × (parser 5 by_count ≡ some r)
parser-returns_example = parser-returns by_count refl

parser-diverges_example : parser 1000 mixed ≡ none
parser-diverges_example = parser-diverges mixed 1000 refl

count_based-splits_example :
    (gs : List DistributeGroup) × (distribute_group_count_based two (h1 ∷ h2 ∷ []) ≡ ok gs)
    × (length gs ≡ 1)
    × (get_all_storage_units gs ≡ h1 ∷ h2 ∷ [])
    × All (λ g. number_of g.storage_units ≡ get_subvol_size two) gs
unfolding get_subvol_size ◌+ℤ◌
count_based-splits_example = count_based-splits two (h1 ∷ h2 ∷ []) 1 1 refl refl

replica_request-validate_example :
    (gs : List DistributeGroup) × (distribute_group_count_based (replica_counts 2) (h1 ∷ h2 ∷ [])
      ≡ ok gs)
    × (validate gs ≡ ok tt)
    × All (IsReplicaGroup 1) gs
    × (get_all_storage_units gs ≡ h1 ∷ h2 ∷ [])
replica_request-validate_example = replica_request-validate 1 1 (h1 ∷ h2 ∷ []) refl
