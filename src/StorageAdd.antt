-- ===== src/StorageAdd.antt =====
-- cli/kubectl_kadalu/storage_add_parser.py: the parser of the alternate syntax of `storage-add`,
-- which groups storage units by keywords or by counts.
pub mod Parser
use kadalu.Prelude.{
  ℕ, zero, suc, ◌+◌, ◌-◌, ◌*◌, ◌==◌, leb, Bool, true, false, not, ◌&&◌, ◌||◌, Option, none, some,
  List, [], ◌∷◌, ◌++◌, length, take, drop, map, Text, is_word, if◌then◌else◌,
}
use kadalu.Prelude.Int.{ℤ, pos, neg, ◌+ℤ◌, ◌-ℤ◌, ltb_ℤ, eq_ℤ}
use kadalu.Exec.{Error, value_error, invalid_volume_create_request, index_error, Result, ok, err}

-- TYPE_KEYWORDS
pub data Keyword : Type 0 where
  replica mirror disperse disperse_data redundancy arbiter external : Keyword

pub data Token : Type 0 where
  type_keyword : Keyword → Token
  number : ℤ → Token
  storage_unit : Text → Token

abbrev keyword_code : Keyword → ℕ
keyword_code replica = 0
keyword_code mirror = 1
keyword_code disperse = 2
keyword_code disperse_data = 3
keyword_code redundancy = 4
keyword_code arbiter = 5
keyword_code external = 6

abbrev keyword_eq : Keyword → Keyword → Bool
keyword_eq a b = keyword_code a == keyword_code b

-- `arg in TYPE_KEYWORDS`
unfoldable pub keyword_of : Text → Option Keyword
keyword_of arg =
    if is_word "replica" arg
    then some replica
    else if is_word "mirror" arg
    then some mirror
    else if is_word "disperse" arg
    then some disperse
    else if is_word "disperse-data" arg
    then some disperse_data
    else if is_word "redundancy" arg
    then some redundancy
    else if is_word "arbiter" arg
    then some arbiter
    else if is_word "external" arg
    then some external
    else none

abbrev is_digit : ℕ → Bool
is_digit c = leb b'0' c && leb c b'9'

-- A run of digits that single underscores may separate, as Python's `int` reads it; `separable`
-- says that the last character was a digit.
abbrev pub digits : Bool → ℕ → Text → Option ℕ
digits separable n [] = if separable then some n else none
digits separable n (d ∷ s) = elim (is_digit d) [
  | true ↦ digits true (10 * n + (d - b'0')) s
  | false ↦ elim (separable && d == b'_') [ true ↦ digits false n s | false ↦ none ]
]

abbrev as_pos : Option ℕ → Option ℤ
as_pos none = none
as_pos (some n) = some (pos n)

abbrev as_neg : Option ℕ → Option ℤ
as_neg none = none
as_neg (some n) = some (neg (pos n))

-- `int(arg)`; digits outside ASCII and blanks around the number are not modelled.
unfoldable pub int_of : Text → Option ℤ
int_of [] = none
int_of (c ∷ s) =
    if c == b'+'
    then as_pos (digits false 0 s)
    else if c == b'-'
    then as_neg (digits false 0 s)
    else as_pos (digits false 0 (c ∷ s))

abbrev token_of : Text → Option Keyword → Option ℤ → Token
token_of arg (some k) n = type_keyword k
token_of arg none (some n) = number n
token_of arg none none = storage_unit arg

unfoldable pub tokenizer : List Text → List Token
unfolding keyword_of int_of
tokenizer [] = []
tokenizer (arg ∷ args) = token_of arg (keyword_of arg) (int_of arg) ∷ tokenizer args

-- VolumeCreateRequestDistributeGroup; `replica_keyword` is none for the empty string.
pub record DistributeGroup : Type 0 where
  pub storage_units : List Text
  pub replica_count : ℤ
  pub arbiter_count : ℤ
  pub disperse_count : ℤ
  redundancy_count : ℤ
  pub external_count : ℤ
  replica_keyword : Option Keyword

abbrev new_group : List Text → DistributeGroup
new_group units = record {
  storage_units = units;
  replica_count = pos 0;
  arbiter_count = pos 0;
  disperse_count = pos 0;
  redundancy_count = pos 0;
  external_count = pos 0;
  replica_keyword = none;
}

-- The dicts `counts` and `storage_units`, by keyword.
abbrev pub Counts : Type 0
Counts = Keyword → ℤ

abbrev pub Units : Type 0
Units = Keyword → List Text

abbrev pub set : {A : Type 0} → Keyword → A → (Keyword → A) → Keyword → A
set k v d j = if keyword_eq k j then v else d j

abbrev pub gt_0 : ℤ → Bool
gt_0 n = ltb_ℤ (pos 0) n

unfoldable pub disperse_and_redundancy_count : ℤ → ℤ → ℤ → ℤ × ℤ
unfolding ◌+ℤ◌ ◌-ℤ◌
disperse_and_redundancy_count disperse_n data_n redundancy_n =
    if gt_0 data_n && gt_0 redundancy_n
    then (data_n +ℤ redundancy_n, redundancy_n)
    else if gt_0 data_n && gt_0 disperse_n
    then (disperse_n, disperse_n -ℤ data_n)
    else (disperse_n, redundancy_n)

unfoldable pub get_subvol_size : Counts → ℤ
unfolding ◌+ℤ◌ disperse_and_redundancy_count
get_subvol_size counts =
    if gt_0 (counts replica) || gt_0 (counts mirror)
    then (counts replica +ℤ counts mirror) +ℤ counts arbiter
    else if gt_0 (counts disperse) || (gt_0 (counts disperse_data) || gt_0 (counts redundancy))
    then (disperse_and_redundancy_count (counts disperse) (counts disperse_data)
        (counts redundancy)).0
    else pos 1

-- The slices from index 0 in steps of a positive size; `fuel` is the length of the list.
abbrev pub chunks : ℕ → ℕ → List Text → List (List Text)
chunks zero size units = []
chunks (suc fuel) size [] = []
chunks (suc fuel) size (u ∷ us) = take size (u ∷ us) ∷ chunks fuel size (drop size (u ∷ us))

-- `split_list`, as a list: `range` refuses the step 0, and a negative step gives no index.
unfoldable pub split_list : List Text → ℤ → Result (List (List Text))
split_list units (pos zero) = err value_error
split_list units (pos (suc n)) = ok (chunks (length units) (suc n) units)
split_list units _ = ok []

abbrev replica_keyword_of : ℤ → ℤ → Option Keyword
replica_keyword_of replica_count mirror_count =
    if gt_0 replica_count then some replica else if gt_0 mirror_count then some mirror else none

abbrev pub count_based_group : Counts → List Text → DistributeGroup
count_based_group counts units =
    let (disperse_count, redundancy_count) =
      disperse_and_redundancy_count (counts disperse) (counts disperse_data) (counts redundancy) in
    record (new_group units) {
      replica_count = counts replica +ℤ counts mirror;
      arbiter_count = counts arbiter;
      disperse_count = disperse_count;
      redundancy_count = redundancy_count;
      replica_keyword = replica_keyword_of (counts replica) (counts mirror);
    }

abbrev groups_of : Counts → Result (List (List Text)) → Result (List DistributeGroup)
groups_of counts (err e) = err e
groups_of counts (ok parts) = ok (map (count_based_group counts) parts)

unfoldable pub distribute_group_count_based : Counts → List Text → Result (List DistributeGroup)
unfolding split_list get_subvol_size disperse_and_redundancy_count ◌+ℤ◌
distribute_group_count_based counts storage_units =
    groups_of counts (split_list storage_units (get_subvol_size counts))

abbrev is_replica_kind : Keyword → Bool
is_replica_kind k = keyword_eq replica k || (keyword_eq mirror k || keyword_eq arbiter k)

abbrev is_disperse_kind : Keyword → Bool
is_disperse_kind k =
    keyword_eq disperse k || (keyword_eq disperse_data k || keyword_eq redundancy k)

abbrev pub non_empty : List Text → Bool
non_empty [] = false
non_empty (u ∷ us) = true

unfoldable different_type_exists : Units → Keyword → Bool
different_type_exists units current_keyword =
    is_replica_kind current_keyword
      && (non_empty (units disperse)
          || (non_empty (units redundancy) || non_empty (units disperse_data)))
    || is_disperse_kind current_keyword
      && (non_empty (units replica) || (non_empty (units mirror) || non_empty (units arbiter)))

abbrev pub number_of : List Text → ℤ
number_of units = pos (length units)

abbrev replica_group : Units → DistributeGroup
replica_group units = record (new_group ((units replica ++ units mirror) ++ units arbiter)) {
  replica_count = number_of (units replica) +ℤ number_of (units mirror);
  arbiter_count = number_of (units arbiter);
  replica_keyword = replica_keyword_of (number_of (units replica)) (number_of (units mirror));
}

abbrev disperse_group : Units → DistributeGroup
disperse_group units =
    let (disperse_count, redundancy_count) =
      disperse_and_redundancy_count (number_of (units disperse)) (number_of (units disperse_data))
        (number_of (units redundancy)) in
    record (new_group ((units disperse ++ units disperse_data) ++ units redundancy)) {
      disperse_count = disperse_count;
      redundancy_count = redundancy_count;
    }

abbrev other_group : Units → Option DistributeGroup
other_group units =
    if non_empty (units replica) || non_empty (units mirror)
    then some (replica_group units)
    else if length (units arbiter) == 3
    then some (record (new_group (units arbiter)) { replica_count = pos 3; arbiter_count = pos 1 })
    else if non_empty (units disperse) || non_empty (units disperse_data)
    then some (disperse_group units)
    else none

unfoldable pub distribute_group : Units → Option Keyword → Option DistributeGroup
unfolding different_type_exists disperse_and_redundancy_count ◌+ℤ◌
distribute_group units (some current_keyword) =
    if not (non_empty (units current_keyword)) && not (different_type_exists units current_keyword)
    then none
    else other_group units
distribute_group units none =
    if non_empty (units external)
    then some (record (new_group (units external)) { external_count = number_of (units external) })
    else other_group units

abbrev pub reset_storage_units : Units
reset_storage_units k = []
