-- ===== src/Claim.antt =====
-- The ownership marker of a dedicated (single-PV) pool in csi/volumeutils.py: an extended attribute
-- on the root of the mounted pool, which every CSI client reads and writes under the pool's lock.
pub mod Laws
pub mod Later
pub mod Lifecycle
pub mod Delete
use kadalu.Prelude.{
  code_points, ℕ, ◌≡◌, Bool, true, false, not, ◌&&◌, ◌||◌, Option, none, some, List, [], ◌∷◌, any,
  Text, text_eq, is_word, if◌then◌else◌,
}
use kadalu.Prelude.Int.{ℤ, pos}
use kadalu.Identifier.{is_valid_csi_identifier}
use kadalu.Json.{
  Json, Fields, end, field, get, put, equals_int, is_positive, equals_str, get_single_pv_per_pool,
}
use kadalu.Exec.{
  Error, value_error, os_error, pool_not_empty, pool_claimed, pool_retired, Result, ok, err, Exec,
  Done, pure, raise, lift, gets, modify, raise_if, ◌>>=◌, ◌>>◌,
}

-- What `os.getxattr` and `json.loads` give: ENODATA, another OSError, no JSON, or a document.
pub data Marker : Type 0 where
  absent : Marker
  unreadable : Marker
  undecodable : Marker
  document : Json → Marker

-- An entry of a directory, with its entries where it is a directory and no link.
pub record Child : Type 0 where
  pub name : Text
  is_dir : Bool

pub record Entry : Type 0 where
  pub name : Text
  is_dir : Bool
  pub children : List Child

-- The root of one mounted pool.
pub record Root : Type 0 where
  pub marker : Marker
  pub entries : List Entry

pub data State : Type 0 where
  active deleting retired : State

pub record Claim : Type 0 where
  pub doc : Fields
  pub volume_id : Text
  pub state : State

abbrev pub state_name : State → Text
state_name active = code_points "active"
state_name deleting = code_points "deleting"
state_name retired = code_points "retired"

abbrev pub state_of : Option Json → Option State
state_of (some (Json.str s)) =
    if is_word "active" s
    then some active
    else if is_word "deleting" s
    then some deleting
    else if is_word "retired" s
    then some retired
    else none
state_of _ = none

abbrev pub volume_id_of : Option Json → Option Text
volume_id_of (some (Json.str s)) = if is_valid_csi_identifier s then some s else none
volume_id_of _ = none

abbrev is_ok_true : Result Bool → Bool
is_ok_true (ok b) = b
is_ok_true (err e) = false

-- `valid_claim`, over what the document holds under each key.
abbrev pub claim_with : Fields → Bool → Option Text → Option State → Result (Option Claim)
claim_with doc valid (some v) (some s) =
    if valid then ok (some (record { doc = doc; volume_id = v; state = s })) else err value_error
claim_with doc valid _ _ = err value_error

-- The conditions that name neither the volume nor the state; SINGLE_PV_CLAIM_VERSION is 1.
abbrev pub valid_shape : Fields → Bool
valid_shape doc =
    equals_int (pos 1) (get "version" doc)
    && is_positive (get "size" doc)
    && equals_str "subvol" (get "pvtype" doc)
    && is_ok_true (get_single_pv_per_pool doc)

abbrev pub claim_of : Fields → Result (Option Claim)
claim_of doc =
    claim_with doc (valid_shape doc) (volume_id_of (get "volume_id" doc))
      (state_of (get "state" doc))

unfoldable pub read_claim : Marker → Result (Option Claim)
read_claim absent = ok none
read_claim unreadable = err os_error
read_claim undecodable = err value_error
read_claim (document (Json.obj doc)) = claim_of doc
read_claim (document _) = err value_error

unfoldable pub read_single_pv_claim : Exec Root (Option Claim)
unfolding read_claim
read_single_pv_claim root = (read_claim root.marker, root)

-- An empty `info` or `archive`, or an `info` that holds just the directory `.locks`.
abbrev only_locks : List Child → Bool
only_locks (c ∷ []) = is_word ".locks" c.name && c.is_dir
only_locks _ = false

abbrev no_children : List Child → Bool
no_children [] = true
no_children (c ∷ cs) = false

abbrev is_bookkeeping : Entry → Bool
is_bookkeeping e =
    (is_word "info" e.name || is_word "archive" e.name)
    && e.is_dir
    && (no_children e.children || is_word "info" e.name && only_locks e.children)

unfoldable pub pool_has_unclaimed_data : Root → Bool
pool_has_unclaimed_data root = any (λ e. not (is_bookkeeping e)) root.entries

-- What other clients do to the marker while this one runs (those that do not take the lock), and
-- how its own write ends.
pub record Race : Type 0 where
  pub before_create : Marker → Marker
  pub before_reread : Marker → Marker
  pub write : Result Done

abbrev other_clients : (Marker → Marker) → Exec Root Done
other_clients f = modify (λ root. record root { marker = f root.marker })

abbrev pub new_claim : Text → ℤ → Claim
new_claim volume_id size = record {
  doc = field "version" (Json.int (pos 1)) (
      field "volume_id" (Json.str volume_id) (
        field "size" (Json.int size) (
          field "pvtype" (Json.str (code_points "subvol")) (
            field "single_pv_per_pool" (Json.bool true)
              (field "state" (Json.str (code_points "active")) end)))));
  volume_id = volume_id;
  state = active;
}

abbrev pub is_active : State → Bool
is_active active = true
is_active _ = false

abbrev is_retired : State → Bool
is_retired retired = true
is_retired _ = false

-- An existing claim: only the active claim of this very volume is returned.
abbrev pub own_claim : Text → Claim → Exec Root Claim
own_claim volume_id existing =
    if not (is_active existing.state)
    then raise (pool_retired volume_id)
    else if not (text_eq existing.volume_id volume_id)
    then raise (pool_claimed existing.volume_id)
    else pure existing

abbrev pub write_marker : Claim → Exec Root Done
write_marker claim = modify (λ root. record root { marker = document (Json.obj claim.doc) })

abbrev pub reread : Text → Option Claim → Exec Root Claim
reread volume_id none = raise os_error
reread volume_id (some existing) = own_claim volume_id existing

-- `os.setxattr(…, flags=os.XATTR_CREATE)`: EEXIST if another client was first.
abbrev pub create_marker : Race → Text → Claim → Marker → Exec Root Claim
create_marker race volume_id claim absent = lift race.write >> (write_marker claim >> pure claim)
create_marker race volume_id claim _ = do
  other_clients race.before_reread
  existing ← read_single_pv_claim
  reread volume_id existing

abbrev pub claim_from : Race → Text → ℤ → Bool → Option Claim → Exec Root Claim
claim_from race volume_id size allow_existing_data (some existing) = own_claim volume_id existing
claim_from race volume_id size allow_existing_data none = do
  unclaimed ← gets pool_has_unclaimed_data
  raise_if (not allow_existing_data && unclaimed) pool_not_empty
  other_clients race.before_create
  marker ← gets (λ root. root.marker)
  create_marker race volume_id (new_claim volume_id size) marker

unfoldable pub claim_single_pv_volume : Race → Text → ℤ → Bool → Exec Root Claim
claim_single_pv_volume race volume_id size allow_existing_data = do
  existing ← read_single_pv_claim
  claim_from race volume_id size allow_existing_data existing

abbrev pub claim_matches : Text → Option Claim → Bool
claim_matches volume_id none = false
claim_matches volume_id (some claim) = is_active claim.state && text_eq claim.volume_id volume_id

unfoldable pub single_pv_claim_matches : Text → Exec Root Bool
single_pv_claim_matches volume_id = do
  claim ← read_single_pv_claim
  pure (claim_matches volume_id claim)

abbrev legacy_is : Option Text → Text → Bool
legacy_is none volume_id = false
legacy_is (some legacy) volume_id = text_eq legacy volume_id

-- `except (SinglePVPoolClaimedError, SinglePVPoolRetiredError): return False`
abbrev adopted : Text → Result Claim × Root → Result Bool × Root
adopted volume_id (ok claim, root) = (ok (claim_matches volume_id (some claim)), root)
adopted volume_id (err (pool_claimed v), root) = (ok false, root)
adopted volume_id (err (pool_retired v), root) = (ok false, root)
adopted volume_id (err e, root) = (err e, root)

-- `capacity` is the size that `os.statvfs` reports for the pool, or its error.
abbrev pub ensure_from : Race → Text → Option Text → Result ℕ → Option Claim → Exec Root Bool
ensure_from race volume_id legacy_volume_id capacity (some claim) =
    pure (claim_matches volume_id (some claim))
ensure_from race volume_id legacy_volume_id capacity none =
    if not (legacy_is legacy_volume_id volume_id)
    then pure false
    else lift capacity >>= λ size root.
        adopted volume_id (claim_single_pv_volume race volume_id (pos size) true root)

unfoldable pub ensure_single_pv_claim : Race → Text → Option Text → Result ℕ → Exec Root Bool
ensure_single_pv_claim race volume_id legacy_volume_id capacity = do
  claim ← read_single_pv_claim
  ensure_from race volume_id legacy_volume_id capacity claim

abbrev pub set_state : State → Claim → Claim
set_state s claim = record claim {
  doc = put "state" (Json.str (state_name s)) claim.doc;
  state = s;
}

-- `os.setxattr(…, flags=os.XATTR_REPLACE)`; `write` is how it ends.
abbrev pub replace_marker : Result Done → Claim → Exec Root Done
replace_marker write claim = lift write >> write_marker claim

abbrev pub begin_from : Result Done → Text → Option Claim → Exec Root Claim
begin_from write volume_id none = raise value_error
begin_from write volume_id (some claim) =
    if not (text_eq claim.volume_id volume_id)
    then raise (pool_claimed claim.volume_id)
    else if is_active claim.state
    then replace_marker write (set_state deleting claim) >> pure (set_state deleting claim)
    else pure claim

unfoldable pub begin_single_pv_delete : Result Done → Text → Exec Root Claim
begin_single_pv_delete write volume_id = do
  claim ← read_single_pv_claim
  begin_from write volume_id claim

abbrev pub retire_from : Result Done → Text → Option Claim → Exec Root Done
retire_from write volume_id none = pure tt
retire_from write volume_id (some claim) =
    if not (text_eq claim.volume_id volume_id)
    then raise (pool_claimed claim.volume_id)
    else if is_active claim.state
    then raise value_error
    else replace_marker write (set_state retired claim)

unfoldable pub retire_single_pv_claim : Result Done → Text → Exec Root Done
retire_single_pv_claim write volume_id = do
  claim ← read_single_pv_claim
  retire_from write volume_id claim

abbrev no_entries : List Entry → Bool
no_entries [] = true
no_entries (e ∷ es) = false

-- The removal loop: `remaining` is what stands in the pool behind it (what other processes put
-- there meanwhile, or could not be removed), and `removed` how the loop ends.
unfoldable pub purge_single_pv_pool : Result Done → List Entry → Exec Root Done
purge_single_pv_pool removed remaining = do
  modify (λ root. record root { entries = remaining })
  lift removed
  left ← gets (λ root. root.entries)
  raise_if (not (no_entries left)) os_error

abbrev pub owned_by : Race → Text → Option Text → Result ℕ → Option Claim → Exec Root Done
owned_by race volname legacy_volume_id capacity none = do
  owned ← ensure_single_pv_claim race volname legacy_volume_id capacity
  raise_if (not owned) value_error
owned_by race volname legacy_volume_id capacity (some claim) =
    raise_if (not (text_eq claim.volume_id volname)) (pool_claimed claim.volume_id)

-- How the calls of a delete that reach outside end.
pub record Deletion : Type 0 where
  pub race : Race
  pub capacity : Result ℕ
  pub begin_write : Result Done
  pub removed : Result Done
  pub remaining : List Entry
  pub retire_write : Result Done

unfoldable pub delete_single_pv_volume_locked : Deletion → Text → Option Text → Exec Root Done
delete_single_pv_volume_locked d volname legacy_volume_id = do
  claim ← read_single_pv_claim
  owned_by d.race volname legacy_volume_id d.capacity claim
  begin_single_pv_delete d.begin_write volname
  purge_single_pv_pool d.removed d.remaining
  retire_single_pv_claim d.retire_write volname
