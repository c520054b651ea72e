-- ===== src/Reclaim/Retry.antt =====
-- A delete that is called again after it stopped: every durable change finds what the one before it
-- left, and a call that meets no failure finishes the work.
use kadalu.Prelude.{
  ℕ, zero, suc, ◌-◌, ◌≤◌, ◌≡◌, refl, ◌∙◌, true, false, Option, none, Text, text_eq_refl, arith, ◌⊎◌,
  inl, inr,
}
use kadalu.Prelude.Int.{pos}
use kadalu.Exec.{Exec, Done, ok, ◌>>◌}
use kadalu.Json.{Json, Fields, get, obj}
use kadalu.Accounting.{Tables, without}
use kadalu.Accounting.Client.{update_free_size}
use kadalu.Intent.{write_file}
use kadalu.Reclaim.{
  Disk, Volume, deleting_metadata, finish_delete, delete_payload, ensure_tombstone,
  delete_managed_volume, delete_paths_canonical,
}
use kadalu.Reclaim.Crash.{removes-quiet}
use kadalu.Reclaim.Ready.{
  settled-sized, IsReady, IsReclaimed, reclaimed, reclaimed-IsReclaimed, still_ready,
  released_ready, marked_ready,
}

module _ (hash : Text → Text) (now : ℕ) (vol : Volume) (n : ℕ) where
  release_lem :
      (t : Tables)
      → update_free_size hash vol.hostvol now (ok tt) 1 vol.volname (pos (suc n)) t
        ≡ (ok tt, record t { pv_stats = without vol.volname t.pv_stats })
  unfolding update_free_size
  release_lem t = ground arith

module _ (hash : Text → Text) (now : ℕ) (vol : Volume) (n : ℕ) (quiet : vol.vanishing ≡ false) where
  finish_stops :
      (b : ℕ) (d : Disk) {t : Tables}
      → IsReady vol n t d
      → IsReady vol n t (finish_delete hash now vol (suc n) (record d { budget = b })).1
        ⊎ IsReclaimed vol t (finish_delete hash now vol (suc n) (record d { budget = b })).1
  finish_stops zero d ready = inl (still_ready vol n d d.payloads 0 ready)
  finish_stops (suc zero) d ready = inl (still_ready vol n d _ 0 ready)
  finish_stops (suc (suc zero)) d ready = inl (still_ready vol n d _ 0 ready)
  finish_stops (suc (suc (suc zero))) d ready =
      rw (removes-quiet vol quiet, release_lem hash now vol n d.tables)
        (inl (released_ready vol n d ready))
  finish_stops (suc (suc (suc (suc zero)))) d {t} ready =
      rw (removes-quiet vol quiet, release_lem hash now vol n d.tables)
        (inr (reclaimed-IsReclaimed vol n 0 d t ready.others))
  finish_stops (suc (suc (suc (suc (suc b))))) d {t} ready =
      rw (removes-quiet vol quiet, release_lem hash now vol n d.tables)
        (inr (reclaimed-IsReclaimed vol n b d t ready.others))

  finish_ends :
      (b : ℕ) (d : Disk)
      → finish_delete hash now vol (suc n) (record d { budget = suc (suc (suc (suc (suc b)))) })
        ≡ (ok tt, reclaimed vol n b d)
  finish_ends b d = rw (removes-quiet vol quiet, release_lem hash now vol n d.tables) refl

  -- What a delete comes to, from its verified metadata on.
  abbrev reclaim : Fields → Option Json → Exec Disk Done
  reclaim metadata state = ensure_tombstone vol metadata state >> finish_delete hash now vol (suc n)

  marked_stops :
      (b : ℕ) (d : Disk) {t : Tables} (ready : IsReady vol n t d)
      → IsReady vol n t
          (reclaim ready.metadata (get "state" ready.metadata) (record d { budget = b })).1
        ⊎ IsReclaimed vol t
            (reclaim ready.metadata (get "state" ready.metadata) (record d { budget = b })).1
  marked_stops b d {t} ready = elim ready.stated [
    | inl tomb ↦ rw tomb.state (rw tomb.volume_id (rw text_eq_refl (finish_stops b d ready)))
    | inr fresh ↦ rw fresh (go b)
  ]
    where
      go :
          (b : ℕ)
          → IsReady vol n t (reclaim ready.metadata none (record d { budget = b })).1
            ⊎ IsReclaimed vol t (reclaim ready.metadata none (record d { budget = b })).1
      go zero = inl (still_ready vol n d d.payloads 0 ready)
      go (suc b) = finish_stops b _ (marked_ready vol n b d ready)

  marked_ends :
      (b : ℕ) (d : Disk) {t : Tables} (ready : IsReady vol n t d)
      → ((reclaim ready.metadata
            (get "state" ready.metadata)
            (record d { budget = suc (suc (suc (suc (suc (suc b))))) })).0
          ≡ ok tt)
        × IsReclaimed vol t
            (reclaim ready.metadata
              (get "state" ready.metadata)
              (record d { budget = suc (suc (suc (suc (suc (suc b))))) })).1
  marked_ends b d {t} ready = elim ready.stated [
    | inl tomb ↦ rw tomb.state (
        rw tomb.volume_id (
          rw text_eq_refl (
            rw (finish_ends (suc b) d)
              (refl, reclaimed-IsReclaimed vol n (suc b) d t ready.others))))
    | inr fresh ↦ rw fresh (
        rw
          (finish_ends b (record d {
            infos =
                write_file vol.info_path (obj (deleting_metadata vol.volname ready.metadata))
                  d.infos;
          }))
          (
            refl,
            reclaimed-IsReclaimed vol n b
                (record d {
                  infos =
                      write_file vol.info_path (obj (deleting_metadata vol.volname ready.metadata))
                        d.infos;
                })
                t ready.others,
          ))
  ]

  marked_ends_at :
      (b c : ℕ)
      → b ≡ suc (suc (suc (suc (suc (suc c)))))
      → (d : Disk) {t : Tables} (ready : IsReady vol n t d)
      → ((reclaim ready.metadata (get "state" ready.metadata) (record d { budget = b })).0 ≡ ok tt)
        × IsReclaimed vol t
            (reclaim ready.metadata (get "state" ready.metadata) (record d { budget = b })).1
  marked_ends_at b c e d ready = rw e (marked_ends c d ready)

  module _ (canonical : delete_paths_canonical hash vol ≡ true) where
    delete_lem :
        (d : Disk) {t : Tables} (ready : IsReady vol n t d)
        → delete_managed_volume hash now vol d
          ≡ reclaim ready.metadata (get "state" ready.metadata) d
    unfolding delete_managed_volume
    delete_lem d ready =
        settled-sized hash vol n (delete_payload hash now vol) d (record {
          metadata = ready.metadata;
          recorded = ready.recorded;
          sized = ready.sized;
          no_creation = ready.no_creation;
          no_expansion = ready.no_expansion;
        })
        ∙ rw canonical refl

    -- A delete that stops at any of its durable changes of a volume with metadata of a positive
    -- size, canonical paths and no pending intent leaves the volume either reclaimed, or such that the
    -- delete can be called again; no other volume's reservation changes. The condition is that no other
    -- process removes an entry of the payload's directory while it is being removed.
    pub delete_managed_volume-IsReady :
        (d : Disk) {t : Tables}
        → IsReady vol n t d
        → IsReady vol n t (delete_managed_volume hash now vol d).1
          ⊎ IsReclaimed vol t (delete_managed_volume hash now vol d).1
    delete_managed_volume-IsReady d ready = rw (delete_lem d ready) (marked_stops d.budget d ready)

    -- Under the same conditions, a call that can make six durable changes returns, with the payload, its
    -- reservation and its metadata gone and all other reservations as they were.
    pub delete_managed_volume-IsReclaimed :
        (d : Disk) {t : Tables}
        → 6 ≤ d.budget
        → IsReady vol n t d
        → ((delete_managed_volume hash now vol d).0 ≡ ok tt)
          × IsReclaimed vol t (delete_managed_volume hash now vol d).1
    delete_managed_volume-IsReclaimed d enough ready =
        rw (delete_lem d ready) (marked_ends_at d.budget (d.budget - 6) (omega arith) d ready)
