-- ===== src/Reclaim/Pending.antt =====
-- `_delete_pending_creation` of csi/volumeutils.py: the cancellation of a create that has no metadata
-- yet. The intent and the reservation go under one write transaction.
pub mod Cancelled
use kadalu.Prelude.{ℕ, Bool, true, false, not, ◌||◌, Option, none, some, Text, text_eq}
use kadalu.Exec.{
  Result, ok, err, value_error, Exec, Done, raise, lift, gets, modify, raise_if, ◌>>=◌, ◌>>◌,
}
use kadalu.Identifier.Paths.{get_volume_path}
use kadalu.Json.{Json, Fields}
use kadalu.Json.Equality.{dict_eq}
use kadalu.Accounting.{Tables, SizeAccounting, enter, remove_pv_record}
use kadalu.Intent.{read_file, finish_volume_creation}
use kadalu.Admission.{Records, rebuild_committed_capacity}
use kadalu.Reclaim.{Disk, Volume, tick, on_creations, pending_creation, remove_payload}

abbrev pub is_file : Option Json → Bool
is_file none = false
is_file (some v) = true

-- The intent that the volume was found by.
abbrev pub same_intent : Option Fields → Option Fields → Bool
same_intent (some intent) (some recorded) = dict_eq intent recorded
same_intent _ _ = false

-- The connection in its transaction; `commit_tables` is its COMMIT, and may fail.
abbrev pub begun : Text → Tables → SizeAccounting
begun hostvol t = record (enter hostvol 0 t) { transaction_active = true }

abbrev pub commit_tables : Tables → Exec Disk Done
commit_tables t = tick >> modify (λ d. record d { tables = t })

module _ (hash : Text → Text) (now : ℕ) where
  -- `scanned` is what the scan of the metadata returns or raises.
  abbrev pub forget : Result Records → Text → Exec SizeAccounting Done
  forget scanned volname = rebuild_committed_capacity hash now scanned >> remove_pv_record volname

  -- An exception before the commit rolls the tables back; the unlink stays.
  abbrev pub cancel_in : Volume → Fields → Result Done × SizeAccounting → Exec Disk Done
  cancel_in vol intent (err e, acc) = raise e
  cancel_in vol intent (ok u, acc) =
      tick
      >> (on_creations (finish_volume_creation hash vol.volname vol.voltype vol.volpath intent)
          >> commit_tables acc.work)

  abbrev pub cancel : Result Records → Volume → Fields → Exec Disk Done
  cancel scanned vol intent d =
      cancel_in vol intent (forget scanned vol.volname (begun vol.hostvol d.tables)) d

  abbrev pub cancel_found : Result Records → Volume → Option Fields → Exec Disk Done
  cancel_found scanned vol none = raise value_error
  cancel_found scanned vol (some intent) =
      lift (get_volume_path vol.voltype (hash vol.volname) vol.volname) >>= λ canonical_path.
      raise_if (not (text_eq vol.volpath canonical_path) || not vol.contained) value_error
      >> (gets (λ d. is_file (read_file canonical_path d.infos)) >>= λ committed.
          raise_if committed value_error >> (remove_payload vol >> cancel scanned vol intent))

  -- `recorded` is the intent in the volume's `extra`.
  unfoldable pub delete_pending_creation : Result Records → Volume → Option Fields → Exec Disk Done
  unfolding dict_eq
  delete_pending_creation scanned vol recorded = pending_creation hash vol >>= λ intent.
      raise_if (not (same_intent intent recorded)) value_error >> cancel_found scanned vol intent
