-- ===== src/Operator/Request.antt =====
-- `validate_volume_request` of kadalu_operator/main.py, which also stores the canonical tolerations in
-- the resource's spec.
pub mod Layout
pub mod Accepted
use kadalu.Prelude.{
  ℕ, zero, suc, ◌+◌, ◌*◌, ◌/◌, ◌%◌, Bool, true, false, not, ◌&&◌, ◌||◌, ◌==◌, leb, Option, none,
  some, List, [], ◌∷◌, any, all, take, drop, length, Text, String, text_eq, is_word, code_points,
  if◌then◌else◌,
}
use kadalu.Prelude.Int.{pos}
use kadalu.Exec.{Result, ok, err}
use kadalu.PosixPath.{isabs, is_nil}
use kadalu.Json.{Json, Items, Fields, nil, cons, end, get, put, arr, str, get_single_pv_per_pool}
use kadalu.Json.Equality.{json_eq}
use kadalu.Intent.{canonical_uuid, positive_int}
use kadalu.Operator.Labels.{is_control, is_stripped, valid_label_value}
use kadalu.Operator.Tolerations.{Toleration, normalize_tolerations, toleration_items}
use kadalu.Operator.Bricks.{options_validation, bricks_validation}
use kadalu.Operator.External.{check, validate_ext_details, port_given, is_some}
use kadalu.Operator.Names.{is_text, generated_resource_names_validation}

-- VALID_HOSTING_VOLUME_TYPES
pub data VolumeType : Type 0 where
  replica1 replica2 replica3 disperse external arbiter : VolumeType

abbrev type_of : Text → Option VolumeType
type_of s =
    if is_word "Replica1" s
    then some replica1
    else if is_word "Replica2" s
    then some replica2
    else if is_word "Replica3" s
    then some replica3
    else if is_word "Disperse" s
    then some disperse
    else if is_word "External" s
    then some external
    else if is_word "Arbiter" s
    then some arbiter
    else none

abbrev pub volume_type : Option Json → Option VolumeType
volume_type (some (Json.str s)) = type_of s
volume_type _ = none

abbrev pub or_value : Option Json → Json → Json
or_value none v = v
or_value (some w) v = w

abbrev pub known_policy : Option Json → Bool
known_policy none = true
known_policy (some (Json.str s)) = is_word "delete" s || (is_word "archive" s || is_word "retain" s)
known_policy (some _) = false

abbrev pub volume_id_valid : Option Json → Bool
volume_id_valid none = true
volume_id_valid (some Json.null) = true
volume_id_valid (some (Json.str s)) = canonical_uuid s
volume_id_valid (some _) = false

-- The bricks of one distribute group, of a disperse volume: data and redundancy.
abbrev pub disperse_size : Option ℕ → Option ℕ → Option ℕ
disperse_size (some data_bricks) (some redundancy) =
    if leb (data_bricks + redundancy) (2 * redundancy)
    then none
    else if not (data_bricks % 2 == 0)
    then none
    else some (data_bricks + redundancy)
disperse_size _ _ = none

abbrev pub disperse_config : Option Json → Option ℕ
disperse_config (some (Json.obj config)) =
    disperse_size (positive_int (get "data" config)) (positive_int (get "redundancy" config))
disperse_config _ = none

-- `subvol_bricks_count`, before the arbiter's own check.
abbrev pub subvol_bricks_count : VolumeType → Fields → Option ℕ
subvol_bricks_count replica2 spec = some 2
subvol_bricks_count replica3 spec = some 3
subvol_bricks_count disperse spec = disperse_config (get "disperse" spec)
subvol_bricks_count _ spec = some 1

abbrev pub items_list : Items → List Json
items_list nil = []
items_list (cons v vs) = v ∷ items_list vs

abbrev pub brick_list : Option Json → List Json
brick_list (some (Json.arr bricks)) = items_list bricks
brick_list _ = []

abbrev decommissioned : Json → Json
decommissioned (Json.obj brick) = or_value (get "decommissioned" brick) (str [])
decommissioned _ = str []

-- `decom == decommissioned`, the second that of the group's first brick.
abbrev pub same_mark : Json → Json → Bool
same_mark brick first = json_eq (decommissioned brick) (decommissioned first)

abbrev pub agrees : List Json → Bool
agrees [] = true
agrees (first ∷ bricks) = all (λ brick. same_mark brick first) bricks

-- The groups in their order, `count` of them.
abbrev pub groups_agree : ℕ → ℕ → List Json → Bool
groups_agree zero size bricks = true
groups_agree (suc count) size bricks =
    agrees (take size bricks) && groups_agree count size (drop size bricks)

abbrev pub groups_valid : ℕ → List Json → Bool
groups_valid size bricks =
    length bricks % size == 0 && (leb size 1 || groups_agree (length bricks / size) size bricks)

abbrev node_valid : Option Json → Bool
node_valid (some (Json.str node)) = is_stripped node && valid_label_value node
node_valid _ = false

abbrev path_valid : Option Json → Bool
path_valid (some (Json.str path)) = is_stripped path && not (any is_control path) && isabs path
path_valid _ = false

-- `if tiebreaker:`
abbrev tiebreaker_valid : Option Json → Bool
tiebreaker_valid none = true
tiebreaker_valid (some Json.null) = true
tiebreaker_valid (some (Json.bool false)) = true
tiebreaker_valid (some (Json.int (pos zero))) = true
tiebreaker_valid (some (Json.str [])) = true
tiebreaker_valid (some (Json.arr nil)) = true
tiebreaker_valid (some (Json.obj end)) = true
tiebreaker_valid (some (Json.obj tiebreaker)) =
    node_valid (get "node" tiebreaker)
    && path_valid (get "path" tiebreaker)
    && is_some (port_given (get "port" tiebreaker))
tiebreaker_valid (some _) = false

abbrev pub type_rules : VolumeType → Fields → List Json → Bool
type_rules replica2 spec bricks = tiebreaker_valid (get "tiebreaker" spec)
type_rules arbiter spec bricks = not (leb (length bricks) 2) && length bricks % 3 == 0
type_rules _ spec bricks = true

abbrev pub layout_valid : VolumeType → Fields → Option ℕ → List Json → Bool
layout_valid voltype spec none bricks = false
layout_valid voltype spec (some size) bricks =
    groups_valid size bricks && type_rules voltype spec bricks

unfoldable pub storage_valid : VolumeType → Fields → Bool
unfolding json_eq
storage_valid voltype spec =
    options_validation (or_value (get "options" spec) (arr nil))
    && bricks_validation (get "storage" spec)
    && layout_valid voltype spec (subvol_bricks_count voltype spec)
        (brick_list (get "storage" spec))

module _ (is_ip : Text → Bool) where
  -- What is checked last depends on the type of the volume.
  abbrev pub typed : VolumeType → Fields → Result Bool
  typed external spec = validate_ext_details is_ip spec
  typed voltype spec = ok (storage_valid voltype spec)

  abbrev pub with_tolerations : Fields → Option Json → List Toleration → Fields
  with_tolerations spec none ts = spec
  with_tolerations spec (some _) ts = put "tolerations" (arr (toleration_items ts)) spec

  abbrev pub tolerated : VolumeType → Fields → Result (List Toleration) → Result Bool × Fields
  tolerated voltype spec (err e) = (ok false, spec)
  tolerated voltype spec (ok ts) =
      let stored = with_tolerations spec (get "tolerations" spec) ts in
      (typed voltype stored, stored)

  abbrev pub named : VolumeType → Fields → Result Bool → Result Bool × Fields
  named voltype spec (err e) = (err e, spec)
  named voltype spec (ok false) = (ok false, spec)
  named voltype spec (ok true) =
      if volume_id_valid (get "volume_id" spec)
      then tolerated voltype spec (normalize_tolerations (get "tolerations" spec))
      else (ok false, spec)

  abbrev pub of_type : Option Json → Fields → Option VolumeType → Result Bool × Fields
  of_type metadata spec none = (ok false, spec)
  of_type metadata spec (some voltype) =
      named voltype spec (generated_resource_names_validation metadata spec)

  abbrev pub dedicated : Option Json → Fields → Result Bool → Result Bool × Fields
  dedicated metadata spec (err e) = (err e, spec)
  dedicated metadata spec (ok single_pv) =
      if single_pv && is_text (get "pvReclaimPolicy" spec) (code_points "archive")
      then (ok false, spec)
      else of_type metadata spec (volume_type (get "type" spec))

  -- On the resource's metadata and its spec, which is an object and not empty; the spec comes back.
  unfoldable pub validate_spec : Option Json → Fields → Result Bool × Fields
  unfolding normalize_tolerations validate_ext_details generated_resource_names_validation
      bricks_validation
  validate_spec metadata spec =
      if known_policy (get "pvReclaimPolicy" spec)
      then dedicated metadata spec (get_single_pv_per_pool spec)
      else (ok false, spec)

  abbrev put_spec : Fields → Result Bool × Fields → Result Bool × Json
  put_spec fs (r, spec) = (r, Json.obj (put "spec" (Json.obj spec) fs))

  abbrev with_spec : Fields → Option Json → Result Bool × Json
  with_spec fs (some (Json.obj (Fields.field k v more))) =
      put_spec fs (validate_spec (get "metadata" fs) (Fields.field k v more))
  with_spec fs _ = (ok false, Json.obj fs)

  unfoldable pub validate_volume_request : Json → Result Bool × Json
  unfolding validate_spec
  validate_volume_request (Json.obj fs) = with_spec fs (get "spec" fs)
  validate_volume_request v = (ok false, v)
