-- ===== src/Tests/Reclaims.antt =====
-- A volume whose delete or archive stops, and the expansion of one.
use kadalu.Prelude.{
  ℕ, ◌≡◌, refl, none, some, true, false, [], ◌∷◌, Text, code_points, arith, inr, ◌⊎◌,
}
use kadalu.Prelude.Int.{pos}
use kadalu.Exec.{ok}
use kadalu.Json.{Fields, end, field, obj, int}
use kadalu.Accounting.{Cell, Tables, get_pv_size, remove_pv_record}
use kadalu.Identifier.{volume_name_component, is_valid_csi_identifier, is_safe_path_component}
use kadalu.Identifier.Bytes.{utf8_char}
use kadalu.Identifier.Paths.{get_volume_path}
use kadalu.Identifier.Legacy.{canonical_volume_paths}
use kadalu.Intent.Expansion.{read_volume_expansion_intent}
use kadalu.Intent.{read_volume_creation_intent, volume_creation_intent, finish_volume_creation}
use kadalu.Admission.{
  Pool, Scene, rebuild_committed_capacity, remove_all, rebuild_loop, rebuild_one,
}
use kadalu.Admission.Release.{begun}
use kadalu.Admission.Expand.{Expanded, reserve_from, reserve_from-Expanded}
use kadalu.Reclaim.{Disk, Volume, delete_managed_volume, delete_paths_canonical}
use kadalu.Reclaim.Archive.{archive_managed_volume}
use kadalu.Reclaim.Pending.{delete_pending_creation}
use kadalu.Reclaim.Pending.Cancelled.{IsCancelled, delete_pending_creation-IsCancelled}
use kadalu.Reclaim.Crash.{delete_managed_volume-IsPaidFor}
use kadalu.Reclaim.Ready.{IsReady, IsReclaimed}
use kadalu.Reclaim.Retry.{delete_managed_volume-IsReady, delete_managed_volume-IsReclaimed}
use kadalu.Reclaim.Rename.{
  IsArchivedFor, archive_managed_volume-IsArchivedFor, archive_managed_volume-exact,
}

abbrev same_hash : Text → Text
same_hash s = s

abbrev name : Text
name = code_points "pvc-1"

abbrev path : Text
path = code_points "subvol/pv/c-/pvc-1"

abbrev volume : Volume
volume = record {
  volname = name;
  voltype = code_points "subvol";
  volpath = path;
  hostvol = code_points "pool";
  info_path = path;
  contained = true;
  vanishing = false;
}

abbrev metadata : Fields
metadata = field "size" (int (pos 20)) end

abbrev tables : Tables
tables = record {
  summary =
      record { volname = name; size = Cell.int (pos 100); created_at = 1; updated_at = 1 } ∷ [];
  pv_stats =
      record {
        pvname = name;
        hash = name;
        size = Cell.int (pos 20);
        created_at = 1;
        updated_at = 1;
      }
      ∷ [];
}

abbrev disk : ℕ → Disk
disk budget = record {
  payloads = path ∷ [];
  infos = (path, obj metadata) ∷ [];
  creations = [];
  expansions = [];
  tables = tables;
  budget = budget;
}

abbrev disk-IsReady : (b : ℕ) → IsReady volume 19 tables (disk b)
disk-IsReady b = record {
  others = λ v different. refl;
  metadata = metadata;
  recorded = refl;
  sized = refl;
  stated = inr refl;
  no_creation = refl;
  no_expansion = refl;
}

canonical : delete_paths_canonical same_hash volume ≡ true
unfolding canonical_volume_paths volume_name_component is_valid_csi_identifier utf8_char
    is_safe_path_component
canonical = refl

-- One change is made, the tombstone; the removal of the payload fails.
delete_managed_volume-IsPaidFor_example :
    (delete_managed_volume same_hash 2 volume (disk 1)).1.tables ≡ tables
unfolding delete_managed_volume canonical_volume_paths read_volume_expansion_intent
    read_volume_creation_intent volume_name_component is_valid_csi_identifier utf8_char
    is_safe_path_component
delete_managed_volume-IsPaidFor_example =
    delete_managed_volume-IsPaidFor same_hash 2 volume refl (disk 1) refl

delete_managed_volume-IsReady_example :
    IsReady volume 19 tables (delete_managed_volume same_hash 2 volume (disk 3)).1
    ⊎ IsReclaimed volume tables (delete_managed_volume same_hash 2 volume (disk 3)).1
delete_managed_volume-IsReady_example =
    delete_managed_volume-IsReady same_hash 2 volume 19 refl canonical (disk 3) (disk-IsReady 3)

delete_managed_volume-IsReclaimed_example :
    ((delete_managed_volume same_hash 2 volume (disk 6)).0 ≡ ok tt)
    × IsReclaimed volume tables (delete_managed_volume same_hash 2 volume (disk 6)).1
delete_managed_volume-IsReclaimed_example =
    delete_managed_volume-IsReclaimed same_hash 2 volume 19 refl canonical (disk 6) (omega arith)
      (disk-IsReady 6)

archive_managed_volume-IsArchivedFor_example :
    IsArchivedFor same_hash 2 name
      (λ n. Unit)
      (disk 6)
      (archive_managed_volume same_hash 2 (name ∷ []) volume (disk 6)).1
archive_managed_volume-IsArchivedFor_example =
    archive_managed_volume-IsArchivedFor same_hash 2 volume (name ∷ []) (disk 6)

archive_managed_volume-exact_example :
    IsArchivedFor same_hash 2 name
      (λ m. m ≡ 20)
      (disk 6)
      (archive_managed_volume same_hash 2 (name ∷ []) volume (disk 6)).1
archive_managed_volume-exact_example =
    archive_managed_volume-exact same_hash 2 volume (name ∷ []) 19 (disk 6) (record {
      metadata = metadata;
      recorded = refl;
      sized = refl;
      no_creation = refl;
      no_expansion = refl;
    })

abbrev scene : Scene
scene = record {
  scanned = ok (record { reservations = (name, 20) ∷ []; aliases = []; tombstones = [] });
  total_size = 100;
  uuid = name;
  race = none;
}

abbrev pool : Pool
pool = record { acc = begun name 1 tables; intents = [] }

reserve_from-Expanded_example : Expanded none name 20 30 pool (
    reserve_from same_hash 2 scene
      ((path, obj metadata) ∷ [])
      name
      (code_points "subvol")
      path
      20
      30
      none
      pool)
reserve_from-Expanded_example =
    reserve_from-Expanded same_hash 2 scene ((path, obj metadata) ∷ []) name (code_points "subvol")
      path 20 30 none pool (omega arith) (((refl, omega arith), refl, tt), refl) (refl, omega arith)

-- A create of the volume that is still pending: its metadata is missing.
abbrev intent : Fields
intent = volume_creation_intent name (code_points "subvol") path (int (pos 20)) none

abbrev pending : Disk
pending = record (disk 3) { infos = []; creations = (path, obj intent) ∷ [] }

delete_pending_creation-IsCancelled_example :
    IsCancelled volume pending
      (delete_pending_creation same_hash 2
        (ok (record { reservations = (name, 20) ∷ []; aliases = []; tombstones = [] }))
        volume
        (some intent)
        pending).1
delete_pending_creation-IsCancelled_example =
    delete_pending_creation-IsCancelled same_hash 2 volume refl
      (ok (record { reservations = (name, 20) ∷ []; aliases = []; tombstones = [] })) (some intent)
      pending

-- Three changes are enough.
cancelled :
    (delete_pending_creation same_hash 2
      (ok (record { reservations = (name, 20) ∷ []; aliases = []; tombstones = [] }))
      volume
      (some intent)
      pending).0
    ≡ ok tt
unfolding delete_pending_creation read_volume_creation_intent is_valid_csi_identifier utf8_char
    get_volume_path volume_name_component is_safe_path_component rebuild_committed_capacity
    remove_all rebuild_loop rebuild_one get_pv_size remove_pv_record finish_volume_creation
cancelled = refl
