-- ===== src/Accounting/Client.antt =====
-- The users of SizeAccounting in csi/volumeutils.py that make one call on a connection of their
-- own: `update_free_size`, `get_accounted_pv_size`, `archive_pv_reservation`.
use kadalu.Prelude.{ℕ, Text, if◌then◌else◌}
use kadalu.Prelude.Int.{ℤ, pos, neg, ltb_ℤ}
use kadalu.Exec.{Result, Exec, Done, lift, ◌>>◌}
use kadalu.Accounting.{
  Cell, int, Tables, with_accounting, update_pv_record, rename_pv_record, remove_pv_record,
  get_pv_size,
}

-- `mounted` is how what precedes the changes ends: `retry_errors(os.statvfs, …)` on the pool's mount
-- point, and the opening of stat.db, which another process may have locked against reading too.
-- `grants` counts the commits that SQLite grants to the connection.
module _ (hash : Text → Text) (hostvol : Text) where
  unfoldable pub update_free_size : ℕ → Result Done → ℕ → Text → ℤ → Exec Tables Done
  unfolding with_accounting update_pv_record remove_pv_record
  update_free_size now mounted grants pvname sizechange =
      lift mounted
      >> with_accounting hostvol grants (
          if ltb_ℤ (pos 0) sizechange
          then remove_pv_record pvname
          else update_pv_record hash now pvname (int (neg sizechange)))

  unfoldable pub archive_pv_reservation :
      ℕ → Result Done → ℕ → Text → Text → Cell → Exec Tables Done
  unfolding with_accounting rename_pv_record
  archive_pv_reservation now mounted grants old_name archived_name size =
      lift mounted
      >> with_accounting hostvol grants (rename_pv_record hash now old_name archived_name size)

-- This connection only reads, so it commits nothing.
unfoldable pub get_accounted_pv_size : Text → Result Done → Text → Exec Tables ℕ
unfolding with_accounting get_pv_size
get_accounted_pv_size hostvol mounted pvname =
    lift mounted >> with_accounting hostvol 0 (get_pv_size pvname)
