-- ===== src/Reclaim/Pending/Cancelled.antt =====
-- Where a cancellation may stop.
use kadalu.Prelude.{
  ℕ, zero, suc, ◌≡◌, refl, ◌∙◌, Bool, true, false, not, ◌||◌, Option, none, some, Text, text_eq,
  text_eq_refl, ◌⊎◌, inl, inr,
}
use kadalu.Exec.{Result, ok, err, value_error, Done, gets, raise_if, modify, continue, ◌>>◌}
use kadalu.Identifier.Paths.{get_volume_path}
use kadalu.Json.{Fields}
use kadalu.Accounting.{SizeAccounting, commit, commit_by, without, remove_pv_record}
use kadalu.Accounting.Rows.{reserved}
use kadalu.Accounting.Laws.{reserved-without}
use kadalu.Intent.{
  Files, read_file, finish_volume_creation, read_volume_creation_intent, unlink,
  same_intent as current_intent,
}
use kadalu.Admission.{Records, rebuild_committed_capacity}
use kadalu.Reclaim.{Disk, Volume, has_payload, drop_payload, remove_payload}
use kadalu.Reclaim.Frame.{
  Keeps, IsFramed, Quiet-lift, Keeps-then, raise_if-Quiet, pending_creation-Quiet,
}
use kadalu.Reclaim.Crash.{removes-quiet, has_payload-drop_payload}
use kadalu.Reclaim.Ready.{read_file-unlink}
use kadalu.Reclaim.Pending.{
  is_file, same_intent, begun, commit_tables, forget, cancel_in, cancel, cancel_found,
  delete_pending_creation,
}

-- stat.db is as it was, or payload, intent and reservation are all gone.
pub IsCancelled : Volume → Disk → Disk → Type 0
IsCancelled vol d e =
    (e.tables ≡ d.tables)
    ⊎ ((has_payload vol.volpath e.payloads ≡ false)
        × (read_file vol.volpath e.creations ≡ none)
        × (reserved e.tables.pv_stats vol.volname ≡ 0))

IsCancelled-IsFramed : (vol : Volume) → IsFramed (IsCancelled vol)
unfolding IsCancelled
IsCancelled-IsFramed vol = record {
  before = λ d e f q h. elim h [ inl same ↦ inl (same ∙ q.0) | inr gone ↦ inr gone ];
  same = λ d e q. inl q.0;
}

-- A connection from which the volume was removed holds nothing for it.
abbrev Forgotten : Text → Result Done × SizeAccounting → Type 0
Forgotten v (err e, acc) = Unit
Forgotten v (ok u, acc) = (reserved acc.work.pv_stats v ≡ 0)

forget-Forgotten :
    (hash : Text → Text) (now : ℕ) (scanned : Result Records) (v : Text) (acc : SizeAccounting)
    → Forgotten v (forget hash now scanned v acc)
unfolding remove_pv_record commit
forget-Forgotten hash now scanned v acc = go (rebuild_committed_capacity hash now scanned acc)
  where
    committed_by :
        (b : Bool) (g : ℕ) (acc : SizeAccounting)
        → reserved acc.work.pv_stats v ≡ 0
        → Forgotten v (commit_by b g acc)
    committed_by true g acc h = h
    committed_by false zero acc h = tt
    committed_by false (suc g) acc h = h

    go : (r : Result Done × SizeAccounting) → Forgotten v (continue (λ _. remove_pv_record v) r)
    go (err e, a) = tt
    go (ok u, a) =
        committed_by a.transaction_active a.grants
          (record a { work = record a.work { pv_stats = without v a.work.pv_stats } })
          (reserved-without v v a.work.pv_stats ∙ rw text_eq_refl refl)

-- An intent that was finished is gone.
abbrev Finished : Text → Result Done × Files → Type 0
Finished p (err e, fs) = Unit
Finished p (ok u, fs) = (read_file p fs ≡ none)

finish-Finished :
    (hash : Text → Text) (v t p : Text) (intent : Fields) (fs : Files)
    → Finished p (finish_volume_creation hash v t p intent fs)
unfolding finish_volume_creation
finish-Finished hash v t p intent fs = go (read_volume_creation_intent hash fs v t p)
  where
    dropped : (b : Bool) → Finished p ((raise_if b value_error >> modify (unlink p)) fs)
    dropped true = tt
    dropped false = read_file-unlink p fs

    go :
        (r : Result (Option Fields))
        → Finished p (
            continue
              (λ current.
                raise_if (not (current_intent hash current intent)) value_error
                >> modify (unlink p))
              (r, fs))
    go (err e) = tt
    go (ok current) = dropped (not (current_intent hash current intent))

module _ (hash : Text → Text) (now : ℕ) (vol : Volume) (quiet : vol.vanishing ≡ false) where
  -- Behind the removal of the payload.
  committed :
      (d : Disk) (acc : SizeAccounting) (b : ℕ) (r : Result Done × Files)
      → has_payload vol.volpath d.payloads ≡ false
      → reserved acc.work.pv_stats vol.volname ≡ 0
      → Finished vol.volpath r
      → IsCancelled vol d
          (continue (λ _. commit_tables acc.work) (r.0, record d { creations = r.1; budget = b })).1
  unfolding IsCancelled
  committed d acc b (err e, fs) gone forgotten finished = inl refl
  committed d acc zero (ok u, fs) gone forgotten finished = inl refl
  committed d acc (suc b) (ok u, fs) gone forgotten finished = inr (gone, finished, forgotten)

  cancel_in-IsCancelled :
      (intent : Fields) (r : Result Done × SizeAccounting) (b : ℕ) (d : Disk)
      → has_payload vol.volpath d.payloads ≡ false
      → Forgotten vol.volname r
      → IsCancelled vol d (cancel_in hash now vol intent r (record d { budget = b })).1
  unfolding IsCancelled
  cancel_in-IsCancelled intent (err e, acc) b d gone forgotten = inl refl
  cancel_in-IsCancelled intent (ok u, acc) zero d gone forgotten = inl refl
  cancel_in-IsCancelled intent (ok u, acc) (suc b) d gone forgotten =
      committed d acc b
        (finish_volume_creation hash vol.volname vol.voltype vol.volpath intent d.creations) gone
        forgotten (finish-Finished hash vol.volname vol.voltype vol.volpath intent d.creations)

  removed-IsCancelled :
      (scanned : Result Records) (intent : Fields)
      → Keeps (IsCancelled vol) (remove_payload vol >> cancel hash now scanned vol intent)
  unfolding IsCancelled
  removed-IsCancelled scanned intent = record { at = λ d. go d.budget d }
    where
      go :
          (b : ℕ) (d : Disk)
          → IsCancelled vol d
              ((remove_payload vol >> cancel hash now scanned vol intent)
                (record d { budget = b })).1
      go zero d = inl refl
      go (suc b) d = rw (removes-quiet vol quiet) (
          cancel_in-IsCancelled intent
            (forget hash now scanned vol.volname (begun vol.hostvol d.tables)) b
            (record d { payloads = drop_payload vol.volpath d.payloads })
            (has_payload-drop_payload vol.volpath d.payloads)
            (forget-Forgotten hash now scanned vol.volname (begun vol.hostvol d.tables)))

  cancel_found-IsCancelled :
      (scanned : Result Records) (o : Option Fields)
      → Keeps (IsCancelled vol) (cancel_found hash now scanned vol o)
  unfolding IsCancelled
  cancel_found-IsCancelled scanned none = record { at = λ d. inl refl }
  cancel_found-IsCancelled scanned (some intent) =
      Keeps-then (IsCancelled-IsFramed vol)
        (Quiet-lift (get_volume_path vol.voltype (hash vol.volname) vol.volname))
        (λ path.
          Keeps-then (IsCancelled-IsFramed vol)
            (raise_if-Quiet (not (text_eq vol.volpath path) || not vol.contained) value_error)
            (λ _.
              Keeps-then {m = gets (λ d. is_file (read_file path d.infos))}
                (IsCancelled-IsFramed vol) (record { at = λ d. (refl, refl) })
                (λ committed.
                  Keeps-then (IsCancelled-IsFramed vol) (raise_if-Quiet committed value_error)
                    (λ _. removed-IsCancelled scanned intent))))

  -- Wherever the cancellation of a pending create stops, at any of its durable changes, and whatever it
  -- found: stat.db is as it was, or the payload, the intent and the reservation are all gone. The
  -- condition is that no other process removes an entry of the payload's directory meanwhile.
  pub delete_pending_creation-IsCancelled :
      (scanned : Result Records) (recorded : Option Fields) (d : Disk)
      → IsCancelled vol d (delete_pending_creation hash now scanned vol recorded d).1
  unfolding delete_pending_creation
  delete_pending_creation-IsCancelled scanned recorded d =
      (Keeps-then (IsCancelled-IsFramed vol) (pending_creation-Quiet hash vol) (λ intent.
          Keeps-then (IsCancelled-IsFramed vol)
            (raise_if-Quiet (not (same_intent intent recorded)) value_error)
            (λ _. cancel_found-IsCancelled scanned intent))).at
        d
