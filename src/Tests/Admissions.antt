-- ===== src/Tests/Admissions.antt =====
-- A pool whose metadata commits one volume, and the admission of another.
use kadalu.Prelude.{◌≡◌, refl, none, [], ◌∷◌, Text, code_points, false, arith}
use kadalu.Prelude.Int.{pos}
use kadalu.Exec.{ok}
use kadalu.Accounting.{int, Tables}
use kadalu.Intent.{prepare_volume_creation}
use kadalu.Intent.Laws.{Stored, prepare-Stored}
use kadalu.Admission.{Records, Pool, Scene, rebuild_committed_capacity, admit_new}
use kadalu.Accounting.Rows.{AreValid}
use kadalu.Accounting.Refinement.{put, view}
use kadalu.Admission.Release.{
  release_archived_pv_reservation, release_archived-rebuilt, begun, releasing, IsAtomic,
  release_archived-IsAtomic,
}
use kadalu.Admission.Rebuild.{rebuilt, rebuild_committed_capacity-rebuilt}
use kadalu.Admission.Sets.{IsValid, held}
use kadalu.Admission.Admit.{Admitted, admit_new-Admitted}

abbrev volume : Text
volume = code_points "pvc-1"

abbrev next : Text
next = code_points "pvc-2"

abbrev stale : Text
stale = code_points "pvc-1-old"

abbrev path : Text
path = code_points "subvol/pv/c-/pvc-2"

abbrev same_hash : Text → Text
same_hash s = s

abbrev tables : Tables
tables = record {
  summary = record { volname = volume; size = int (pos 100); created_at = 1; updated_at = 1 } ∷ [];
  pv_stats =
      record { pvname = stale; hash = stale; size = int (pos 10); created_at = 1; updated_at = 1 }
      ∷ [];
}

-- The volume is committed at 20 bytes; stat.db still has an older name of it.
abbrev records : Records
records = record {
  reservations = (volume, 20) ∷ [];
  aliases = (volume, stale ∷ []) ∷ [];
  tombstones = [];
}

abbrev scene : Scene
scene = record { scanned = ok records; total_size = 100; uuid = volume; race = none }

abbrev pool : Pool
pool = record { acc = begun volume 1 tables; intents = [] }

rebuild_committed_capacity-rebuilt_example :
    let r = rebuild_committed_capacity same_hash 2 (ok records) (begun volume 1 tables) in
    (r.0 ≡ ok tt)
    × IsValid r.1
    × ((j : Text) → held r.1 j ≡ rebuilt records (held (begun volume 1 tables)) j)
rebuild_committed_capacity-rebuilt_example =
    rebuild_committed_capacity-rebuilt same_hash 2 records (begun volume 1 tables)
      (((refl, omega arith), refl, tt), refl) (omega arith, (omega arith), tt) (refl, tt)

-- The COMMIT is refused.
release_archived-IsAtomic_example :
    IsAtomic tables
      (releasing same_hash 2 (ok records) next (begun (code_points "pool") 0 tables)).1.work
      (release_archived_pv_reservation same_hash 2
        (code_points "pool")
        (ok tt)
        false
        0
        (ok records)
        next
        tables)
release_archived-IsAtomic_example =
    release_archived-IsAtomic same_hash 2 (code_points "pool") next (ok tt) false 0 (ok records)
      tables

admit_new-Admitted_example :
    Admitted next
      (code_points "subvol")
      path
      30
      pool
      (admit_new same_hash 2 scene next (code_points "subvol") path 30 pool)
admit_new-Admitted_example =
    admit_new-Admitted same_hash 2 scene next (code_points "subvol") path 30 pool
      (((refl, omega arith), refl, tt), refl) (refl, omega arith)

prepare-Stored_example :
    Stored next
      (code_points "subvol")
      path
      30
      (prepare_volume_creation same_hash volume none next (code_points "subvol") path 30 [])
prepare-Stored_example = prepare-Stored same_hash volume none next (code_points "subvol") path 30 []

release_archived-rebuilt_example :
    let (r, t') =
      release_archived_pv_reservation same_hash 2
        (code_points "pool")
        (ok tt)
        false
        1
        (ok records)
        next
        tables in
    (r ≡ ok tt)
    × AreValid t'.pv_stats
    × ((j : Text) → view t' j ≡ put next 0 (rebuilt records (view tables)) j)
release_archived-rebuilt_example =
    release_archived-rebuilt same_hash 2 (code_points "pool") next 0 records tables
      ((refl, omega arith), refl, tt) (omega arith, (omega arith), tt) (refl, tt)
