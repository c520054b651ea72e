-- ===== src/Admission/Select.antt =====
-- The choice of a pool for a new volume in csi/volumeutils.py: `mount_and_select_hosting_volume` among
-- shared pools, `mount_single_pv_hosting_volume` for a dedicated one.
pub mod Outcome
use kadalu.Prelude.{
  ℕ, zero, suc, Bool, true, false, not, ◌&&◌, ◌||◌, ◌==◌, ltb, Option, none, some, List, [], ◌∷◌,
  ◌++◌, Text, if◌then◌else◌,
}
use kadalu.Prelude.Int.{pos}
use kadalu.Exec.{
  Error, value_error, runtime_error, sqlite_error, os_error, command_error, reconciliation_error,
  legacy_unclaimed, capacity_range, is_value_error, Result, ok, err, Exec, pure, ◌>>=◌, ◌>>◌, Done,
  continue,
}
use kadalu.Json.{Fields, get, equals_int, get_single_pv_per_pool}
use kadalu.Accounting.{Tables, SizeAccounting, Stats, enter, end_transaction}
use kadalu.Intent.{Files}
use kadalu.Admission.{
  Records, Pool, Scene, on_acc, reconcile_hosting_volume_capacity, hosting_volume_capacity_stats,
  lacks_room, admit_volume_creation,
}

-- A candidate, and how the calls on it that reach outside end: the mount, `os.statvfs` (with the size
-- of the pool), the opening of stat.db; `busy` says that its write lock is held,
-- `grants` how many commits SQLite grants.
pub record Candidate : Type 0 where
  pub name : Text
  pub doc : Fields
  pub mounted : Result Done
  pub stat : Result ℕ
  pub opened : Bool
  pub busy : Bool
  pub grants : ℕ
  pub scene : Scene
  pub tables : Tables
  pub intents : Files

-- `immediate_transaction` around steps that also write files, which no rollback takes back.
abbrev pub end_pool : {A : Type 0} → Result A × Pool → Result A × Pool
end_pool (r, pool) =
    let (r', acc) = end_transaction (r, pool.acc) in (r', record pool { acc = acc })

abbrev pub begun : Pool → Pool
begun pool = record pool { acc = record pool.acc { transaction_active = true } }

-- `_selection_capacity_transaction`: a lock that is not got is a failure of this pool.
abbrev selection_capacity_transaction : {A : Type 0} → Bool → Exec Pool A → Exec Pool A
selection_capacity_transaction busy body pool =
    if pool.acc.transaction_active
    then (err runtime_error, pool)
    else if busy
    then (err reconciliation_error, pool)
    else end_pool (body (begun pool))

module _ (hash : Text → Text) (now : ℕ) where
  -- Whether the pool takes the volume, without an identity: only the free space is measured.
  abbrev has_room : Scene → ℕ → ℕ → Exec Pool Bool
  has_room scene total_size required_size =
      on_acc (reconcile_hosting_volume_capacity hash now scene.scanned total_size)
      >> (on_acc hosting_volume_capacity_stats >>= λ pv_stats.
          pure (not (lacks_room required_size pv_stats.free_size_bytes)))

  abbrev within : Candidate → ℕ → ℕ → Option (Text × Text) → Exec Pool Bool
  within c total_size required_size none = has_room c.scene total_size required_size
  within c total_size required_size (some (volume_id, pvtype)) =
      selection_capacity_transaction c.busy (
        admit_volume_creation hash now (record c.scene { total_size = total_size }) volume_id pvtype
          required_size)

  -- `_selection_size_accounting` and its block.
  abbrev pub measured : Candidate → ℕ → Option (Text × Text) → ℕ → Result Bool
  measured c required_size request total_size =
      if c.opened
      then (within c total_size required_size request
          (record { acc = enter c.name c.grants c.tables; intents = c.intents })).0
      else err reconciliation_error

-- How the body of the loop ends for one pool: skipped as dedicated, kept among the failures, measured
-- as too small, chosen, or left by an exception.
pub data Verdict : Type 0 where
  dedicated too_small chosen : Verdict
  failed raised : Error → Verdict

-- `except (CommandException, OSError, ValueError)`
abbrev pub mount_failure : Error → Verdict
mount_failure os_error = failed os_error
mount_failure command_error = failed command_error
mount_failure e = if is_value_error e then failed e else raised e

abbrev pub stat_failure : Error → Verdict
stat_failure os_error = failed os_error
stat_failure e = raised e

abbrev pub capacity_verdict : Result Bool → Verdict
capacity_verdict (ok true) = chosen
capacity_verdict (ok false) = too_small
capacity_verdict (err reconciliation_error) = failed reconciliation_error
capacity_verdict (err e) = raised e

abbrev pub after_stat : (ℕ → Result Bool) → Result ℕ → Verdict
after_stat measure (err e) = stat_failure e
after_stat measure (ok total_size) = capacity_verdict (measure total_size)

abbrev pub after_mount : Result Done → Verdict → Verdict
after_mount (err e) v = mount_failure e
after_mount (ok d) v = v

abbrev pub after_kind : Result Bool → Verdict → Verdict
after_kind (err e) v = raised e
after_kind (ok true) v = dedicated
after_kind (ok false) v = v

module _ (hash : Text → Text) (now : ℕ) where
  unfoldable pub verdict : ℕ → Option (Text × Text) → Candidate → Verdict
  verdict required_size request c =
      after_kind (get_single_pv_per_pool c.doc)
        (after_mount c.mounted (after_stat (measured hash now c required_size request) c.stat))

-- What the call gives: a pool, None, HostingVolumeSelectionError, or another exception.
pub data Choice : Type 0 where
  selected : Text → Choice
  no_space : Choice
  unavailable : List (Text × Error) → Choice
  left_by : Error → Choice

abbrev without_pool : List (Text × Error) → Choice
without_pool [] = no_space
without_pool (f ∷ fs) = unavailable (f ∷ fs)

-- The rest of the loop behind one pool; `rest` continues with the failures so far.
abbrev pub step : Text → (List (Text × Error) → Choice) → List (Text × Error) → Verdict → Choice
step name rest failures dedicated = rest failures
step name rest failures too_small = rest failures
step name rest failures chosen = selected name
step name rest failures (failed e) = rest (failures ++ (name, e) ∷ [])
step name rest failures (raised e) = left_by e

abbrev pub select_from : (Candidate → Verdict) → List (Text × Error) → List Candidate → Choice
select_from judge failures [] = without_pool failures
select_from judge failures (c ∷ cs) = step c.name (λ fs. select_from judge fs cs) failures (judge c)

module _ (hash : Text → Text) (now : ℕ) where
  unfoldable pub mount_and_select_hosting_volume :
      List Candidate → ℕ → Option Text → Option Text → Choice
  unfolding verdict
  mount_and_select_hosting_volume candidates required_size none none =
      select_from (verdict hash now required_size none) [] candidates
  mount_and_select_hosting_volume candidates required_size (some volume_id) (some pvtype) =
      select_from (verdict hash now required_size (some (volume_id, pvtype))) [] candidates
  mount_and_select_hosting_volume candidates required_size _ _ = left_by value_error

-- `[volume for volume in … if get_single_pv_per_pool(volume)]`
abbrev pub keep_dedicated :
    Result Bool → Candidate → Result (List Candidate) → Result (List Candidate)
keep_dedicated (err e) c rest = err e
keep_dedicated (ok b) c (err e) = err e
keep_dedicated (ok b) c (ok cs) = ok (if b then c ∷ cs else cs)

abbrev pub dedicated_of : List Candidate → Result (List Candidate)
dedicated_of [] = ok []
dedicated_of (c ∷ cs) = keep_dedicated (get_single_pv_per_pool c.doc) c (dedicated_of cs)

-- SINGLE_PV_CLAIM_VERSION is 1.
abbrev is_eligible : Candidate → Bool
is_eligible c = equals_int (pos 1) (get "single_pv_claim_version" c.doc)

abbrev pub eligible_of : List Candidate → List Candidate
eligible_of [] = []
eligible_of (c ∷ cs) = let rest = eligible_of cs in if is_eligible c then c ∷ rest else rest

abbrev pub in_range : ℕ → ℕ → Text → Result ℕ → Result (Text × ℕ)
in_range required_size limit_size name (err e) = err e
in_range required_size limit_size name (ok capacity) =
    if ltb capacity required_size || not (limit_size == 0) && ltb limit_size capacity
    then err capacity_range
    else ok (name, capacity)

abbrev pub mount_one : ℕ → ℕ → Candidate → Result Done → Result (Text × ℕ)
mount_one required_size limit_size c (err e) = err e
mount_one required_size limit_size c (ok d) = in_range required_size limit_size c.name c.stat

abbrev pub only_eligible : ℕ → ℕ → List Candidate → List Candidate → Result (Text × ℕ)
only_eligible required_size limit_size [] [] = err value_error
only_eligible required_size limit_size (d ∷ ds) [] = err legacy_unclaimed
only_eligible required_size limit_size ds (c ∷ []) = mount_one required_size limit_size c c.mounted
only_eligible required_size limit_size ds (c ∷ b ∷ cs) = err value_error

abbrev pub among_dedicated : ℕ → ℕ → Result (List Candidate) → Result (Text × ℕ)
among_dedicated required_size limit_size (err e) = err e
among_dedicated required_size limit_size (ok ds) =
    only_eligible required_size limit_size ds (eligible_of ds)

unfoldable pub mount_single_pv_hosting_volume : List Candidate → ℕ → ℕ → Result (Text × ℕ)
mount_single_pv_hosting_volume candidates required_size limit_size =
    among_dedicated required_size limit_size (dedicated_of candidates)
