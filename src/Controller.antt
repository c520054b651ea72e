-- ===== src/Controller.antt =====
-- The decisions of csi/controllerserver.py that come before and around the calls of the storage code:
-- the shape of requests, the requested capacity, idempotent retries, and the repair of accounting.
pub mod Capacity
pub mod Repair
pub mod Retry
use kadalu.Prelude.{
  ℕ, zero, suc, Bool, true, false, not, ◌&&◌, ◌||◌, ◌==◌, ltb, Option, none, some, List, [], ◌∷◌,
  any, Text, text_eq, is_word, if◌then◌else◌, code_points,
}
use kadalu.Prelude.Int.{ℤ, pos, neg, leb_ℤ, ltb_ℤ, eq_ℤ}
use kadalu.Exec.{Result, ok, err, Exec, Done, pure, ◌>>=◌, ◌>>◌}
use kadalu.Json.{Json, Fields, get, get_single_pv_per_pool, lower_is}
use kadalu.Json.Equality.{json_eq}
use kadalu.Accounting.{Tables}
use kadalu.Accounting.Client.{update_free_size, get_accounted_pv_size}

-- CapacityRange of the CSI protocol: two 64-bit integers, 0 where not given.
pub record CapacityRange : Type 0 where
  pub required_bytes : ℤ
  pub limit_bytes : ℤ

abbrev pub is_zero : ℤ → Bool
is_zero n = eq_ℤ n (pos 0)

abbrev valid_range : CapacityRange → Bool
valid_range c =
    leb_ℤ (pos 0) c.required_bytes
    && leb_ℤ (pos 0) c.limit_bytes
    && (is_zero c.limit_bytes || leb_ℤ c.required_bytes c.limit_bytes)
    && (ltb_ℤ (pos 0) c.required_bytes || ltb_ℤ (pos 0) c.limit_bytes)

-- The argument is the request's capacity range, if `HasField`.
unfoldable pub valid_expansion_request_shape : Option CapacityRange → Bool
valid_expansion_request_shape none = false
valid_expansion_request_shape (some c) = valid_range c

-- A capability of a request: whether its access type is a block device, and its access mode.
pub record Capability : Type 0 where
  is_block : Bool
  mode : ℕ

-- CreateVolumeRequest; its parameters are strings.
pub record CreateRequest : Type 0 where
  pub capabilities : List Capability
  pub parameters : Fields
  pub capacity_range : Option CapacityRange

abbrev is_block_request : CreateRequest → Bool
is_block_request request = any (λ c. c.is_block) request.capabilities

abbrev first_mode : List Capability → Option ℕ
first_mode [] = none
first_mode (c ∷ cs) = some c.mode

abbrev pvc_access_mode : CreateRequest → Option ℕ
pvc_access_mode request = first_mode request.capabilities

abbrev is_mode : ℕ → Option ℕ → Bool
is_mode m none = false
is_mode m (some n) = m == n

-- `request.parameters.get("pv_type", "").lower() == "block"`
abbrev block_type : Option Json → Bool
block_type (some (Json.str s)) = lower_is "block" s
block_type _ = false

abbrev range_or_none : Option CapacityRange → Bool
range_or_none none = true
range_or_none (some c) = valid_range c

-- Behind the tests on block volumes; `dedicated` is `get_single_pv_per_pool`, which may raise.
abbrev block_shape : Bool → Result Bool → Option CapacityRange → Result Bool
block_shape writer_ok dedicated capacity = if not writer_ok then ok false else elim dedicated [
  | err e ↦ err e
  | ok true ↦ ok false
  | ok false ↦ ok (range_or_none capacity)
]

-- `single_node_writer` is the protocol's constant SINGLE_NODE_WRITER.
unfoldable valid_creation_request_shape : ℕ → CreateRequest → Result Bool
valid_creation_request_shape single_node_writer request = elim request.capabilities [
  | [] ↦ ok false
  | _ ∷ _ ↦
      if block_type (get "pv_type" request.parameters) || is_block_request request
      then block_shape (is_mode single_node_writer (pvc_access_mode request))
          (get_single_pv_per_pool request.parameters) request.capacity_range
      else ok (range_or_none request.capacity_range)
]

-- `none` is the INVALID_ARGUMENT answer.
unfoldable pub requested_capacity : Option CapacityRange → ℤ → Option ℤ
requested_capacity none default_size = some default_size
requested_capacity (some c) default_size =
    if ltb_ℤ c.required_bytes (pos 0) || ltb_ℤ c.limit_bytes (pos 0)
    then none
    else if not (is_zero c.limit_bytes) && ltb_ℤ c.limit_bytes c.required_bytes
    then none
    else if is_zero c.required_bytes && is_zero c.limit_bytes
    then none
    else let selected = if is_zero c.required_bytes then c.limit_bytes else c.required_bytes in
      if ltb_ℤ (pos 0) selected then some selected else none

-- `reconcile_committed_capacity`; the two arguments of type Result Done are how the mount checks
-- and the openings of its two calls end, `grants` the commits that SQLite grants to the second.
unfoldable pub reconcile_committed_capacity :
    (Text → Text) → Text → ℕ → Result Done → Result Done → ℕ → Text → ℕ → Exec Tables Done
reconcile_committed_capacity hash hostvol now first second grants pvname size = do
  accounted ← get_accounted_pv_size hostvol first pvname
  (if not (accounted == size)
      then update_free_size hash hostvol now second grants pvname (neg (pos size))
      else pure tt)
