-- ===== src/Admission/Release.antt =====
-- `release_archived_pv_reservation` of csi/volumeutils.py: a rebuild and the removal of an archive's
-- reservation, in one transaction.
use kadalu.Prelude.{
  ℕ, zero, suc, ◌≡◌, refl, ap, ◌∙◌, Bool, true, false, Text, text_eq, if◌then◌else◌,
}
use kadalu.Exec.{Result, ok, err, Exec, Done, lift, ◌>>◌}
use kadalu.Accounting.{
  Tables, SizeAccounting, enter, with_accounting, immediate_transaction, end_transaction,
  remove_pv_record,
}
use kadalu.Accounting.Rows.{AreValid}
use kadalu.Accounting.Refinement.{put, view}
use kadalu.Admission.{Records, rebuild_committed_capacity}
use kadalu.Admission.Sets.{IsValid, held, Sets-then, remove-Sets}
use kadalu.Admission.Atomic.{Defers, Defers-then, remove-Defers, rebuild-Defers}
use kadalu.Admission.Rebuild.{AreSizes, AreDistinct, rebuilt, rebuild-Sets, loop_map-rebuilt}

-- The connection in its transaction, and the changes that the transaction is for.
abbrev pub begun : Text → ℕ → Tables → SizeAccounting
begun hostvol grants t = record (enter hostvol grants t) { transaction_active = true }

abbrev pub releasing : (Text → Text) → ℕ → Result Records → Text → Exec SizeAccounting Done
releasing hash now scanned archived_name =
    rebuild_committed_capacity hash now scanned >> remove_pv_record archived_name

-- `mounted` is how the mount check and the opening of stat.db end, `busy` how BEGIN IMMEDIATE does.
unfoldable pub release_archived_pv_reservation :
    (Text → Text) → ℕ → Text → Result Done → Bool → ℕ → Result Records → Text → Exec Tables Done
release_archived_pv_reservation hash now hostvol mounted busy grants scanned archived_name =
    lift mounted
    >> with_accounting hostvol grants
        (immediate_transaction busy (releasing hash now scanned archived_name))

releasing-Defers :
    (hash : Text → Text) (now : ℕ) (scanned : Result Records) (archived_name : Text)
    → Defers (releasing hash now scanned archived_name)
releasing-Defers hash now scanned archived_name =
    Defers-then (rebuild-Defers hash now scanned) (λ _. remove-Defers archived_name)

published :
    (m : Text → ℕ) (g : ℕ) (r : Result Done × SizeAccounting)
    → r.1.grants ≡ suc g
    → ((r.0 ≡ ok tt) × IsValid r.1 × (held r.1 ≡ m))
    → ((end_transaction r).0 ≡ ok tt)
      × AreValid (end_transaction r).1.disk.pv_stats
      × (view (end_transaction r).1.disk ≡ m)
published m g (ok d, acc) granted (e, valid, same) = rw granted (refl, valid.0, same)
published m g (err x, acc) granted (e, valid, same) = cc

-- On a mounted pool whose stat.db opens, whose write lock is free and whose COMMIT is granted, with valid rows and a scan
-- of distinct volumes of positive sizes below 2^63, the release succeeds. Then the archived name
-- reserves nothing; of the other names, each volume with metadata reserves its committed size, an
-- active one that was recreated meanwhile included, tombstones and obsolete aliases nothing, and a
-- name that the metadata does not mention what it did.
pub release_archived-rebuilt :
    (hash : Text → Text) (now : ℕ) (hostvol archived_name : Text) (grants : ℕ) (records : Records)
    (t : Tables)
    → AreValid t.pv_stats
    → AreSizes records.reservations
    → AreDistinct records.reservations
    → let (r, t') =
        release_archived_pv_reservation hash now hostvol
          (ok tt)
          false
          (suc grants)
          (ok records)
          archived_name
          t in
      (r ≡ ok tt)
      × AreValid t'.pv_stats
      × ((j : Text) → view t' j ≡ put archived_name 0 (rebuilt records (view t)) j)
unfolding release_archived_pv_reservation with_accounting immediate_transaction
release_archived-rebuilt hash now hostvol archived_name grants records t h p d =
    let changes = Sets-then (rebuild-Sets hash now records p) (remove-Sets archived_name) in
    let kept =
      (releasing-Defers hash now (ok records) archived_name).at (begun hostvol (suc grants) t)
        refl in
    let (returned, valid, map) =
      published _ grants _ kept.2 (changes.at (begun hostvol (suc grants) t) (h, refl)) in
    (
      returned,
      valid,
      λ j.
          ap (λ (f : Text → ℕ). f j) map
          ∙ ap (λ x. if text_eq archived_name j then 0 else x)
              (loop_map-rebuilt records (view t) j d),
    )

-- A release that raised left the file as it was; one that returned left what its transaction saw last.
abbrev pub IsAtomic : Tables → Tables → Result Done × Tables → Type 0
IsAtomic before wrote (ok d, after) = (after ≡ wrote)
IsAtomic before wrote (err e, after) = (after ≡ before)

ended-IsAtomic :
    (t : Tables) (g : ℕ) (r : Result Done × SizeAccounting)
    → r.1.disk ≡ t
    → r.1.grants ≡ g
    → IsAtomic t r.1.work ((end_transaction r).0, (end_transaction r).1.disk)
ended-IsAtomic t zero (ok d, acc) e granted = rw granted e
ended-IsAtomic t (suc g) (ok d, acc) e granted = rw granted refl
ended-IsAtomic t g (err x, acc) e granted = e

-- The release of an archive is all or nothing, however it ends: if the mount check, the opening, BEGIN IMMEDIATE,
-- the scan, one of the many updates of the rebuild, a size or the COMMIT raises, the file stat.db is
-- the one from before; if it returns, the file has every change of the transaction.
pub release_archived-IsAtomic :
    (hash : Text → Text) (now : ℕ) (hostvol archived_name : Text) (mounted : Result Done)
    (busy : Bool) (grants : ℕ) (scanned : Result Records) (t : Tables)
    → IsAtomic t (releasing hash now scanned archived_name (begun hostvol grants t)).1.work (
        release_archived_pv_reservation hash now hostvol mounted busy grants scanned archived_name
          t)
unfolding release_archived_pv_reservation with_accounting immediate_transaction
release_archived-IsAtomic hash now hostvol archived_name (err e) busy grants scanned t = refl
release_archived-IsAtomic hash now hostvol archived_name (ok d) true grants scanned t = refl
release_archived-IsAtomic hash now hostvol archived_name (ok d) false grants scanned t =
    let kept = (releasing-Defers hash now scanned archived_name).at (begun hostvol grants t) refl in
    ended-IsAtomic t grants (releasing hash now scanned archived_name (begun hostvol grants t))
      kept.0 kept.2
