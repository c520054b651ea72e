-- ===== src/Reclaim.antt =====
-- Reclaiming a metadata-backed volume in csi/volumeutils.py: `_delete_managed_volume`, which deletes or
-- archives, as the sequence of its durable changes. `budget` counts the changes that succeed before
-- the process dies or an OSError ends it, so a statement for every budget is one for every crash.
pub mod Archive
pub mod Frame
pub mod Crash
pub mod Pending
pub mod Ready
pub mod Retry
pub mod Rename
use kadalu.Prelude.{
  ℕ, zero, suc, Bool, true, false, not, ◌&&◌, ◌||◌, ◌==◌, Option, none, some, List, [], ◌∷◌, ◌++◌,
  Text, text_eq, is_word, starts_with, code_points, if◌then◌else◌,
}
use kadalu.Prelude.Int.{pos}
use kadalu.Exec.{
  Result, ok, err, value_error, os_error, type_error, Exec, Done, raise, lift, gets, modify, pure,
  raise_if, continue, ◌>>=◌, ◌>>◌,
}
use kadalu.Identifier.{is_safe_path_component}
use kadalu.Identifier.Paths.{◌/+◌}
use kadalu.Identifier.Legacy.{canonical_volume_paths}
use kadalu.Json.{Json, Fields, get, put, str, int, obj}
use kadalu.Json.Equality.{json_eq}
use kadalu.Accounting.{Cell, Tables}
use kadalu.Accounting.Client.{update_free_size, archive_pv_reservation}
use kadalu.Intent.{
  Files, read_file, unlink, write_file, positive_int, read_volume_creation_intent,
  validate_committed_creation, finish_volume_creation,
}
use kadalu.Intent.Expansion.{read_volume_expansion_intent, finish_volume_expansion, path_in}

-- One mounted pool: the payloads by path, the metadata files and both kinds of intents by the path
-- that they are about, and stat.db.
pub record Disk : Type 0 where
  pub payloads : List Text
  pub infos : Files
  pub creations : Files
  pub expansions : Files
  pub tables : Tables
  pub budget : ℕ

-- A volume as `search_volume` finds it; `info_path` is where its metadata stands, and `contained` says
-- that the payload's parent is inside the pool, links resolved. `vanishing` says that another process
-- removes an entry of the payload's directory while `shutil.rmtree` walks it.
pub record Volume : Type 0 where
  pub volname : Text
  pub voltype : Text
  pub volpath : Text
  pub hostvol : Text
  pub info_path : Text
  pub contained : Bool
  pub vanishing : Bool

abbrev pub has_payload : Text → List Text → Bool
has_payload path [] = false
has_payload path (p ∷ ps) = text_eq p path || has_payload path ps

abbrev pub drop_payload : Text → List Text → List Text
drop_payload path [] = []
drop_payload path (p ∷ ps) =
    let rest = drop_payload path ps in if text_eq p path then rest else p ∷ rest

-- One durable change may be the last one.
abbrev pub spend : ℕ → Disk → Result Done × Disk
spend zero d = (err os_error, d)
spend (suc n) d = (ok tt, record d { budget = n })

abbrev pub tick : Exec Disk Done
tick d = spend d.budget d

abbrev pub on_creations : {A : Type 0} → Exec Files A → Exec Disk A
on_creations m d = let (r, fs) = m d.creations in (r, record d { creations = fs })

abbrev pub on_expansions : {A : Type 0} → Exec Files A → Exec Disk A
on_expansions m d = let (r, fs) = m d.expansions in (r, record d { expansions = fs })

abbrev pub on_tables : {A : Type 0} → Exec Tables A → Exec Disk A
on_tables m d = let (r, t) = m d.tables in (r, record d { tables = t })

-- `_atomic_write_json`
abbrev pub write_info : Text → Fields → Exec Disk Done
write_info path metadata =
    tick >> modify (λ d. record d { infos = write_file path (Json.obj metadata) d.infos })

-- `_durable_unlink`
abbrev pub unlink_info : Text → Exec Disk Done
unlink_info path = tick >> modify (λ d. record d { infos = unlink path d.infos })

-- `shutil.rmtree` or `os.unlink`; a missing payload is no error, and neither is the FileNotFoundError
-- that rmtree raises for an entry that vanished under it, which leaves the payload. A removal that
-- fails half-way leaves the payload too.
abbrev pub removes : Volume → Bool
removes vol = not (is_word "subvol" vol.voltype && vol.vanishing)

abbrev pub remove_payload : Volume → Exec Disk Done
remove_payload vol =
    tick
    >> modify (λ d. record d {
      payloads = if removes vol then drop_payload vol.volpath d.payloads else d.payloads;
    })

-- `_prune_empty_parents` removes directories only, and may raise.
abbrev pub prune_empty_parents : Exec Disk Done
prune_empty_parents = tick

abbrev pub found_document : Option Json → Result Json
found_document none = err os_error
found_document (some v) = ok v

abbrev pub read_document : Text → Exec Disk Json
read_document path d = (found_document (read_file path d.infos), d)

-- `metadata.get` on anything but a dict is an AttributeError.
abbrev pub as_object : Json → Result Fields
as_object (Json.obj metadata) = ok metadata
as_object _ = err type_error

abbrev pub valid_metadata_size : Option Json → Result ℕ
valid_metadata_size v = elim (positive_int v) [ none ↦ err value_error | some n ↦ ok n ]

abbrev pub same_value : Option Json → Option Json → Bool
same_value (some a) (some b) = json_eq a b
same_value _ _ = false

abbrev pub deleting_metadata : Text → Fields → Fields
deleting_metadata volname metadata =
    put "volume_id" (str volname) (put "state" (str (code_points "deleting")) metadata)

abbrev pub is_string : Option Json → Text → Bool
is_string (some (Json.str s)) t = text_eq s t
is_string _ t = false

-- The tombstone that makes every rebuild of stat.db drop the reservation.
abbrev pub ensure_tombstone : Volume → Fields → Option Json → Exec Disk Done
ensure_tombstone vol metadata none =
    write_info vol.info_path (deleting_metadata vol.volname metadata)
ensure_tombstone vol metadata (some Json.null) =
    write_info vol.info_path (deleting_metadata vol.volname metadata)
ensure_tombstone vol metadata (some state) =
    raise_if
      (not (
        is_string (some state) (code_points "deleting")
        && is_string (get "volume_id" metadata) vol.volname))
      value_error

module _ (hash : Text → Text) where
  abbrev pub drop_expansion : Volume → Fields → Fields → Json → Exec Disk Fields
  drop_expansion vol metadata intent to_size =
      write_info vol.info_path (put "size" to_size metadata)
      >> (tick
          >> (on_expansions
                (finish_volume_expansion hash vol.volname vol.voltype vol.volpath intent)
              >> pure (put "size" to_size metadata)))

  -- A pending expansion: the metadata gets the target before the intent is dropped.
  abbrev pub settle_target : Volume → Fields → Fields → Option Json → Exec Disk Fields
  settle_target vol metadata intent none = raise value_error
  settle_target vol metadata intent (some to_size) =
      raise_if
        (not (same_value (get "size" metadata) (get "from_size" intent))
          && not (same_value (get "size" metadata) (some to_size)))
        value_error
      >> drop_expansion vol metadata intent to_size

  abbrev pub settle_expansion : Volume → Fields → Option Fields → Exec Disk Fields
  settle_expansion vol metadata none = pure metadata
  settle_expansion vol metadata (some intent) =
      settle_target vol metadata intent (get "to_size" intent)

  abbrev pub settle_creation : Volume → Fields → Option Fields → Exec Disk Done
  settle_creation vol metadata none = pure tt
  settle_creation vol metadata (some intent) =
      lift (validate_committed_creation (Json.obj metadata) (Json.obj intent))
      >> (tick
          >> on_creations (finish_volume_creation hash vol.volname vol.voltype vol.volpath intent))

  abbrev pub delete_paths_canonical : Volume → Bool
  delete_paths_canonical vol =
      path_in vol.volpath (canonical_volume_paths hash vol.volname vol.voltype)
      && vol.contained
      && text_eq vol.info_path vol.volpath

  abbrev pub pending_expansion : Volume → Exec Disk (Option Fields)
  pending_expansion vol =
      on_expansions (read_volume_expansion_intent hash vol.volname vol.voltype vol.volpath)

  abbrev pub pending_creation : Volume → Exec Disk (Option Fields)
  pending_creation vol d =
      (read_volume_creation_intent hash d.creations vol.volname vol.voltype vol.volpath, d)

  -- What both policies begin with: pending intents are settled, and the size is checked.
  abbrev pub settled : Volume → (Fields → ℕ → Exec Disk Done) → Exec Disk Done
  settled vol continue_with = do
    document ← read_document vol.info_path
    expansion ← pending_expansion vol
    metadata ← lift (as_object document)
    current ← settle_expansion vol metadata expansion
    size ← lift (valid_metadata_size (get "size" current))
    creation ← pending_creation vol
    settle_creation vol current creation
    continue_with current size

module _ (hash : Text → Text) (now : ℕ) where
  abbrev pub release : Volume → ℕ → Exec Disk Done
  release vol size =
      tick >> on_tables (update_free_size hash vol.hostvol now (ok tt) 1 vol.volname (pos size))

  -- Payload, then accounting, then the tombstone.
  abbrev pub finish_delete : Volume → ℕ → Exec Disk Done
  finish_delete vol size =
      remove_payload vol
      >> (prune_empty_parents
          >> (release vol size >> (unlink_info vol.info_path >> prune_empty_parents)))

  abbrev pub delete_payload : Volume → Fields → ℕ → Exec Disk Done
  delete_payload vol metadata size =
      raise_if (not (delete_paths_canonical hash vol)) value_error
      >> (ensure_tombstone vol metadata (get "state" metadata) >> finish_delete vol size)

  -- `_delete_managed_volume` under the policy "delete".
  unfoldable pub delete_managed_volume : Volume → Exec Disk Done
  delete_managed_volume vol = settled hash vol (delete_payload vol)
