-- ===== src/Admission.antt =====
-- Admission of new volumes in csi/volumeutils.py: the capacity index is rebuilt from the durable
-- metadata, the free space is checked, and the reservation is written.
pub mod Sets
pub mod Rebuild
pub mod Admit
pub mod Atomic
pub mod Release
pub mod Select
pub mod Expand
pub mod Archives
pub mod Identity
pub mod Scan
use kadalu.Prelude.{
  ℕ, zero, suc, ◌+◌, ◌*◌, ◌-◌, Bool, true, false, not, ◌&&◌, ◌||◌, ◌==◌, leb, ltb, Option, none,
  some, List, [], ◌∷◌, ◌++◌, any, Text, text_eq, if◌then◌else◌,
}
use kadalu.Prelude.Int.{ℤ, pos, scale, leb_ℤ, ltb_ℤ}
use kadalu.Exec.{
  Error, value_error, sqlite_error, os_error, command_error, reconciliation_error, is_value_error,
  Result, ok, err, Exec, Done, pure, raise, lift, gets, modify, raise_if, ◌>>=◌, ◌>>◌, continue,
}
use kadalu.Json.{Json, Fields, int}
use kadalu.Identifier.Paths.{get_volume_path}
use kadalu.Accounting.{
  Cell, Tables, SizeAccounting, Stats, update_summary, update_pv_record, rename_pv_record,
  remove_pv_record, get_pv_size, get_stats, immediate_transaction, enter,
}
use kadalu.Intent.{
  Files, read_volume_creation_intent, creation_intent_matches, prepare_volume_creation,
}

-- `_capacity_metadata_records`: the sizes that the metadata reserves, the obsolete names of volumes
-- in stat.db, and the names whose payload is gone. Sets are listed in the order of `sorted`.
pub record Records : Type 0 where
  pub reservations : List (Text × ℕ)
  pub aliases : List (Text × List Text)
  pub tombstones : List Text

abbrev pub lookup : {A : Type 0} → Text → List (Text × A) → Option A
lookup k [] = none
lookup k ((j, v) ∷ xs) = if text_eq j k then some v else lookup k xs

abbrev is_some : {A : Type 0} → Option A → Bool
is_some none = false
is_some (some a) = true

-- `k in committed_ids`
abbrev pub committed : Text → List (Text × ℕ) → Bool
committed k reservations = is_some (lookup k reservations)

abbrev pub list_or_empty : Option (List Text) → List Text
list_or_empty none = []
list_or_empty (some xs) = xs

-- The names of a list that are no committed volume.
abbrev pub uncommitted : List (Text × ℕ) → List Text → List Text
uncommitted reservations [] = []
uncommitted reservations (k ∷ ks) =
    let rest = uncommitted reservations ks in if committed k reservations then rest else k ∷ rest

unfoldable pub remove_all : List Text → Exec SizeAccounting Done
remove_all [] = pure tt
remove_all (k ∷ ks) = remove_pv_record k >> remove_all ks

module _ (hash : Text → Text) (now : ℕ) where
  abbrev pub rename_first : List Text → Text → ℕ → Exec SizeAccounting Done
  rename_first [] volume_id size = pure tt
  rename_first (k ∷ ks) volume_id size =
      rename_pv_record hash now k volume_id (Cell.int (pos size)) >> remove_all ks

  abbrev pub repair : Text → ℕ → ℕ → Exec SizeAccounting Done
  repair volume_id size accounted =
      if not (accounted == size)
      then update_pv_record hash now volume_id (Cell.int (pos size))
      else pure tt

  -- The body of the loop over the reservations.
  unfoldable pub rebuild_one : Records → Text → ℕ → Exec SizeAccounting Done
  rebuild_one records volume_id size = do
    rename_first
        (uncommitted records.reservations (list_or_empty (lookup volume_id records.aliases)))
        volume_id size
    accounted ← get_pv_size volume_id
    repair volume_id size accounted

  unfoldable pub rebuild_loop : Records → List (Text × ℕ) → Exec SizeAccounting Done
  rebuild_loop records [] = pure tt
  rebuild_loop records ((volume_id, size) ∷ rest) =
      rebuild_one records volume_id size >> rebuild_loop records rest

  -- `records` is what `_capacity_metadata_records` returns or raises.
  unfoldable pub rebuild_committed_capacity : Result Records → Exec SizeAccounting Done
  rebuild_committed_capacity scanned = do
    records ← lift scanned
    remove_all (uncommitted records.reservations records.tombstones)
    rebuild_loop records records.reservations

  -- `except (OSError, sqlite3.Error, ValueError) as err: raise HostingVolumeReconciliationError`
  abbrev pub reconciled : Result Done × SizeAccounting → Result Done × SizeAccounting
  reconciled (ok d, acc) = (ok d, acc)
  reconciled (err os_error, acc) = (err reconciliation_error, acc)
  reconciled (err sqlite_error, acc) = (err reconciliation_error, acc)
  reconciled (err e, acc) = (err (if is_value_error e then reconciliation_error else e), acc)

  unfoldable pub reconcile_hosting_volume_capacity : Result Records → ℕ → Exec SizeAccounting Done
  reconcile_hosting_volume_capacity scanned total_size acc =
      reconciled
        ((update_summary now (Cell.int (pos total_size)) >> rebuild_committed_capacity scanned) acc)

-- `except (sqlite3.Error, ValueError)`
abbrev stats_or_unavailable : Result Stats × SizeAccounting → Result Stats × SizeAccounting
stats_or_unavailable (ok s, acc) = (ok s, acc)
stats_or_unavailable (err sqlite_error, acc) = (err reconciliation_error, acc)
stats_or_unavailable (err e, acc) =
    (err (if is_value_error e then reconciliation_error else e), acc)

unfoldable pub hosting_volume_capacity_stats : Exec SizeAccounting Stats
hosting_volume_capacity_stats acc = stats_or_unavailable (get_stats acc)

-- `required >= free - free * RESERVED_SIZE_PERCENTAGE / 100`, over the integers: the percentage is
-- 10, and the doubles of the source decide the same for every free size below 2 ^ 48 bytes.
unfoldable pub lacks_room : ℕ → ℤ → Bool
lacks_room required free = leb_ℤ (scale 90 free) (pos (100 * required))

-- One pool during an admission: the open connection, and the create intents on its disk.
pub record Pool : Type 0 where
  pub acc : SizeAccounting
  pub intents : Files

-- A step on one of the two.
abbrev pub on_acc : {A : Type 0} → Exec SizeAccounting A → Exec Pool A
on_acc m pool = let (r, acc) = m pool.acc in (r, record pool { acc = acc })

abbrev pub on_intents : {A : Type 0} → Exec Files A → Exec Pool A
on_intents m pool = let (r, files) = m pool.intents in (r, record pool { intents = files })

-- What an admission takes from outside: the scan of the metadata, the size of the mounted pool, a
-- fresh UUID, and an intent that another process may write meanwhile.
pub record Scene : Type 0 where
  pub scanned : Result Records
  pub total_size : ℕ
  pub uuid : Text
  pub race : Option Json

module _ (hash : Text → Text) (now : ℕ) where
  abbrev pub admit_new : Scene → Text → Text → Text → ℕ → Exec Pool Bool
  admit_new scene volume_id pvtype volpath required_size = do
    accounted ← on_acc (get_pv_size volume_id)
    raise_if (not (accounted == 0)) value_error
    pv_stats ← on_acc hosting_volume_capacity_stats
    if lacks_room required_size pv_stats.free_size_bytes then pure false else do
      on_intents (
          prepare_volume_creation hash scene.uuid scene.race volume_id pvtype volpath required_size)
      on_acc (update_pv_record hash now volume_id (Cell.int (pos required_size)))
      pure true

  abbrev admit_from : Scene → Text → Text → Text → ℕ → Option Fields → Exec Pool Bool
  admit_from scene volume_id pvtype volpath required_size (some existing) =
      if not (creation_intent_matches existing volume_id pvtype volpath (int (pos required_size)))
      then raise value_error
      else pure true
  admit_from scene volume_id pvtype volpath required_size none =
      admit_new scene volume_id pvtype volpath required_size

  unfoldable pub admit_volume_creation : Scene → Text → Text → ℕ → Exec Pool Bool
  admit_volume_creation scene volume_id pvtype required_size = do
    on_acc (reconcile_hosting_volume_capacity hash now scene.scanned scene.total_size)
    volpath ← lift (get_volume_path pvtype (hash volume_id) volume_id)
    existing ←
        (λ pool. (read_volume_creation_intent hash pool.intents volume_id pvtype volpath, pool))
    admit_from scene volume_id pvtype volpath required_size existing
