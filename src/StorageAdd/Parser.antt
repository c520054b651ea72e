-- ===== src/StorageAdd/Parser.antt =====
-- `parser`, `validate` and `volume_type` of cli/kubectl_kadalu/storage_add_parser.py.
pub mod Termination
pub mod Groups
pub mod Replica
use kadalu.Prelude.{
  ℕ, zero, suc, ◌==◌, Bool, true, false, not, ◌&&◌, Option, none, some, List, [], ◌∷◌, ◌++◌, length,
  Text, if◌then◌else◌,
}
use kadalu.Prelude.Int.{ℤ, pos, ◌+ℤ◌, eq_ℤ}
use kadalu.Exec.{Done, Error, invalid_volume_create_request, index_error, Result, ok, err}
use kadalu.StorageAdd.{
  Keyword, Token, type_keyword, number, storage_unit, DistributeGroup, Counts, Units, set, gt_0,
  number_of, non_empty, distribute_group, distribute_group_count_based, reset_storage_units,
}

-- The local variables of `parser`, but for the current token.
pub record State : Type 0 where
  pub groups : List DistributeGroup
  pub counts : Counts
  pub units : Units
  pub all_units : List Text
  pub skip_token_next : Bool

abbrev pub initial : State
initial = record {
  groups = [];
  counts = λ _. pos 0;
  units = reset_storage_units;
  all_units = [];
  skip_token_next = false;
}

-- `if dist_group is not None: …`
abbrev pub close_group : Option DistributeGroup → State → State
close_group none st = st
close_group (some g) st = record st { groups = st.groups ++ g ∷ []; units = reset_storage_units }

-- The inner loop, on the tokens after the keyword: the state, and the tokens from the current one.
abbrev pub after_keyword : Keyword → List Token → State → State × List Token
after_keyword k [] st = (st, [])
after_keyword k (storage_unit u ∷ ts) st =
    after_keyword k ts (record st { units = set k (st.units k ++ u ∷ []) st.units })
after_keyword k (number n ∷ ts) st = (record st { counts = set k n st.counts }, number n ∷ ts)
after_keyword k (type_keyword j ∷ ts) st =
    (record st { skip_token_next = true }, type_keyword j ∷ ts)

-- One pass of the outer loop's `if`.
abbrev pub visit : Token → List Token → State → State × List Token
visit (type_keyword k) ts st =
    after_keyword k ts (close_group (distribute_group st.units (some k)) st)
visit (storage_unit u) ts st =
    (record st { all_units = st.all_units ++ u ∷ [] }, storage_unit u ∷ ts)
visit (number n) ts st = (st, number n ∷ ts)

-- `next_token`: an exhausted iterator gives None again.
abbrev tail : List Token → List Token
tail [] = []
tail (t ∷ ts) = ts

abbrev pub advance : State × List Token → State × List Token
advance (st, ts) = (st, if st.skip_token_next then ts else tail ts)

-- The outer loop on fuel, from the current token; `none` is out of fuel.
unfoldable pub parser_loop : ℕ → State × List Token → Option State
unfolding distribute_group
parser_loop zero s = none
parser_loop (suc fuel) (st, []) = some st
parser_loop (suc fuel) (st, t ∷ ts) = parser_loop fuel (advance (visit t ts st))

abbrev finish_groups : State → Result (List DistributeGroup)
finish_groups st =
    if non_empty st.all_units
    then distribute_group_count_based st.counts st.all_units
    else ok st.groups

abbrev pub request_of : Option State → Option (Result (List DistributeGroup))
request_of none = none
request_of (some st) = some (finish_groups (close_group (distribute_group st.units none) st))

unfoldable pub parser : ℕ → List Token → Option (Result (List DistributeGroup))
unfolding parser_loop distribute_group distribute_group_count_based
parser fuel tokens = request_of (parser_loop fuel (initial, tokens))

abbrev pub expected_units : DistributeGroup → ℤ
expected_units g =
    if gt_0 g.arbiter_count && eq_ℤ g.replica_count (pos 2)
    then g.replica_count +ℤ pos 1
    else g.replica_count

abbrev pub group_valid : DistributeGroup → Bool
group_valid g =
    not (gt_0 g.replica_count && not (eq_ℤ (number_of g.storage_units) (expected_units g)))
    && not (gt_0 g.disperse_count && not (eq_ℤ (number_of g.storage_units) g.disperse_count))

unfoldable pub validate : List DistributeGroup → Result Done
unfolding ◌+ℤ◌
validate [] = ok tt
validate (g ∷ gs) =
    let rest = validate gs in if group_valid g then rest else err invalid_volume_create_request

pub data VolumeType : Type 0 where
  arbiter replica2 replica3 disperse external replica1 : VolumeType

unfoldable volume_type : List DistributeGroup → Result VolumeType
volume_type [] = err index_error
volume_type (g ∷ gs) = ok (
    if gt_0 g.arbiter_count
    then VolumeType.arbiter
    else if eq_ℤ g.replica_count (pos 2)
    then VolumeType.replica2
    else if eq_ℤ g.replica_count (pos 3)
    then VolumeType.replica3
    else if eq_ℤ g.disperse_count (pos 3)
    then VolumeType.disperse
    else if gt_0 g.external_count
    then VolumeType.external
    else VolumeType.replica1)

abbrev pub get_all_storage_units : List DistributeGroup → List Text
get_all_storage_units [] = []
get_all_storage_units (g ∷ gs) = g.storage_units ++ get_all_storage_units gs
