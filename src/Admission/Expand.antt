-- ===== src/Admission/Expand.antt =====
-- `reserve_volume_expansion` of csi/volumeutils.py: the admission of an absolute expansion target.
use kadalu.Prelude.{
  ℕ, zero, suc, ◌+◌, ◌*◌, ◌-◌, ◌<◌, ◌≡◌, ◌⊎◌, refl, ◌∙◌, Bool, not, ◌||◌, ◌==◌, ==_iff, leb, Option,
  none, some, Text, text_eq_refl, arith, Bool-cases, inl, inr, if◌then◌else◌,
}
use kadalu.Prelude.Int.{pos, sub_ℕ}
use kadalu.Exec.{
  Result, ok, err, value_error, runtime_error, sqlite_error, Exec, continue, pure, raise, lift,
  raise_if, ◌>>=◌, ◌>>◌,
}
use kadalu.Json.{Fields}
use kadalu.Json.Equality.{dict_eq}
use kadalu.Accounting.{
  Cell, commit, valid_size, replace_pv, fits_sqlite, update_pv_record, update_summary, get_pv_size,
  get_stats,
}
use kadalu.Accounting.Rows.{reserved}
use kadalu.Accounting.Laws.{used-replace_pv, reserved-replace_pv}
use kadalu.Accounting.Capacity.{IsSummary, total, get_stats_lem}
use kadalu.Intent.{Files}
use kadalu.Intent.Expansion.{
  expansion_intent, read_volume_expansion_intent, prepare_volume_expansion,
}
use kadalu.Admission.{Pool, Scene, on_acc, on_intents, lacks_room, rebuild_committed_capacity}
use kadalu.Admission.Admit.{lacks_room-false, pool_used}
use kadalu.Admission.Select.{begun, end_pool}
use kadalu.Admission.Sets.{IsValid, held, get_pv_size-held}

module _ (hash : Text → Text) (now : ℕ) where
  -- Absolute, so that a repeated call finds its own target.
  abbrev record_target : Text → ℕ → Fields → Exec Pool (Option Fields)
  record_target volume_id to_size intent =
      on_acc (update_pv_record hash now volume_id (Cell.int (pos to_size))) >> pure (some intent)

  abbrev prepare_target : Scene → Files → Text → Text → Text → ℕ → ℕ → Exec Pool (Option Fields)
  prepare_target scene infos volume_id pvtype volpath from_size to_size =
      on_intents
        (prepare_volume_expansion hash infos scene.race volume_id pvtype volpath from_size to_size)
      >>= record_target volume_id to_size

  abbrev reserve_new : Scene → Files → Text → Text → Text → ℕ → ℕ → ℕ → Exec Pool (Option Fields)
  reserve_new scene infos volume_id pvtype volpath from_size to_size committed_size =
      if committed_size == to_size
      then prepare_target scene infos volume_id pvtype volpath from_size to_size
      else if not (committed_size == from_size)
      then raise value_error
      else on_acc get_stats >>= λ stats.
          if lacks_room (to_size - from_size) stats.free_size_bytes
          then pure none
          else prepare_target scene infos volume_id pvtype volpath from_size to_size

  abbrev pub reserve_from :
      Scene → Files → Text → Text → Text → ℕ → ℕ → Option Fields → Exec Pool (Option Fields)
  reserve_from scene infos volume_id pvtype volpath from_size to_size (some existing) =
      if not (dict_eq existing (expansion_intent volume_id pvtype volpath from_size to_size))
      then raise value_error
      else record_target volume_id to_size existing
  reserve_from scene infos volume_id pvtype volpath from_size to_size none =
      on_acc (get_pv_size volume_id)
      >>= reserve_new scene infos volume_id pvtype volpath from_size to_size

  -- The block under the write transaction, once the accounting has been rebuilt.
  abbrev pub reserve_rebuilt :
      Scene → Files → Text → Text → Text → ℕ → ℕ → Exec Pool (Option Fields)
  reserve_rebuilt scene infos volume_id pvtype volpath from_size to_size =
      on_intents (read_volume_expansion_intent hash volume_id pvtype volpath)
      >>= reserve_from scene infos volume_id pvtype volpath from_size to_size

  abbrev expand_transaction : {A : Type 0} → Bool → Exec Pool A → Exec Pool A
  expand_transaction busy body pool =
      if pool.acc.transaction_active
      then (err runtime_error, pool)
      else if busy
      then (err sqlite_error, pool)
      else end_pool (body (begun pool))

  -- `mounted` is the pool's size, or how `os.statvfs` failed; `infos` are the volumes' metadata.
  unfoldable pub reserve_volume_expansion :
      Result ℕ → Bool → Scene → Files → Text → Text → Text → ℕ → ℕ → Exec Pool (Option Fields)
  reserve_volume_expansion mounted busy scene infos volume_id pvtype volpath from_size to_size = do
    raise_if (from_size == 0 || to_size == 0) value_error
    raise_if (leb to_size from_size) value_error
    total_size ← lift mounted
    expand_transaction busy (
        on_acc (update_summary now (Cell.int (pos total_size)))
        >> (on_acc (rebuild_committed_capacity hash now scene.scanned)
            >> reserve_rebuilt scene infos volume_id pvtype volpath from_size to_size))

-- Why a target may be reserved: there is an intent already, or the accounting holds the target, or it
-- holds the source and nine tenths of the free bytes are more than the growth.
abbrev pub IsDue : Option Fields → ℕ → ℕ → ℕ → ℕ → ℕ → Type 0
IsDue (some existing) holds from_size to_size bytes_used bytes_total = Unit
IsDue none holds from_size to_size bytes_used bytes_total =
    (holds ≡ to_size)
    ⊎ (holds ≡ from_size) × (100 * (to_size - from_size) + 90 * bytes_used < 90 * bytes_total)

abbrev pub IsDueOn : Option Fields → Text → ℕ → ℕ → Pool → Type 0
IsDueOn o v from_size to_size before =
    IsDue o (held before.acc v) from_size to_size (pool_used before) (total before.acc.work.summary)

-- How the reservation of a target ends on a pool.
abbrev pub Expanded : Option Fields → Text → ℕ → ℕ → Pool → Result (Option Fields) × Pool → Type 0
Expanded o v from_size to_size before (ok (some f), after) =
    (pool_used after + held before.acc v ≡ pool_used before + to_size)
    × (held after.acc v ≡ to_size)
    × IsDueOn o v from_size to_size before
Expanded o v from_size to_size before (ok none, after) = (after ≡ before)
Expanded o v from_size to_size before (err e, after) = (after.acc ≡ before.acc)

module _ (hash : Text → Text) (now : ℕ) where
  target-Expanded :
      (o : Option Fields) (v : Text) (m n : ℕ) (pool : Pool) (r : Result Fields) (fs : Files)
      → IsValid pool.acc
      → IsDueOn o v m (suc n) pool
      → Expanded o v m
          (suc n)
          pool
          (continue (record_target hash now v (suc n)) (r, record pool { intents = fs }))
  unfolding update_pv_record valid_size commit
  target-Expanded o v m n pool (err e) fs h due = refl
  target-Expanded o v m n pool (ok f) fs h due = elim (Bool-cases (fits_sqlite (suc n))) [
    | inl e ↦ rw (e, h.1) (used-replace_pv hash now v (suc n) pool.acc.work h.0, kept, due)
    | inr e ↦ rw e refl
  ]
    where
      kept : reserved (replace_pv hash v (suc n) now pool.acc.work).pv_stats v ≡ suc n
      kept = reserved-replace_pv hash now v v (suc n) pool.acc.work ∙ (rw text_eq_refl refl)

  prepared-Expanded :
      (scene : Scene) (infos : Files) (o : Option Fields) (v t p : Text) (m n : ℕ) (pool : Pool)
      → IsValid pool.acc
      → IsDueOn o v m (suc n) pool
      → Expanded o v m (suc n) pool (prepare_target hash now scene infos v t p m (suc n) pool)
  prepared-Expanded scene infos o v t p m n pool h due =
      let r = prepare_volume_expansion hash infos scene.race v t p m (suc n) pool.intents in
      target-Expanded o v m n pool r.0 r.1 h due

  reserve_new-Expanded :
      (scene : Scene) (infos : Files) (v t p : Text) (m n : ℕ) (pool : Pool)
      → IsValid pool.acc
      → IsSummary pool.acc.work.summary
      → Expanded none v m
          (suc n)
          pool
          (reserve_new hash now scene infos v t p m (suc n) (held pool.acc v) pool)
  reserve_new-Expanded scene infos v t p m n pool h s =
      elim (Bool-cases (held pool.acc v == suc n)) [
        | inl e ↦
            rw e (prepared-Expanded scene infos none v t p m n pool h (inl ((==_iff _ _).0 e)))
        | inr ne ↦ elim (Bool-cases (held pool.acc v == m)) [
          | inr e ↦ rw (ne, e) refl
          | inl e ↦
              rw (ne, e, get_stats_lem pool.acc h.0 s)
                (elim (Bool-cases
                  (lacks_room (suc n - m) (sub_ℕ (total pool.acc.work.summary) (pool_used pool)))) [
                    | inl full ↦ rw full refl
                    | inr free ↦ rw free (
                        prepared-Expanded scene infos none v t p m n pool h
                          (inr ((==_iff _ _).0 e, lacks_room-false _ _ _ free)))
                  ])
        ]
      ]

  -- On a pool with valid tables in its write transaction, behind the rebuild of its accounting: a reservation that returns an
  -- intent has made the accounting hold exactly the target, and changed the used bytes by exactly the
  -- difference; where there was no intent yet, the accounting held the target already, or it held the
  -- source and nine tenths of the free bytes were more than the growth. None changes nothing, and an
  -- exception changes no reservation.
  pub reserve_from-Expanded :
      (scene : Scene) (infos : Files) (v t p : Text) (m n : ℕ) (o : Option Fields) (pool : Pool)
      → 0 < n
      → IsValid pool.acc
      → IsSummary pool.acc.work.summary
      → Expanded o v m n pool (reserve_from hash now scene infos v t p m n o pool)
  reserve_from-Expanded scene infos v t p m zero o pool z h s = absurd (omega arith)
  reserve_from-Expanded scene infos v t p m (suc n) none pool z h s =
      rw (get_pv_size-held v pool.acc h.0) (reserve_new-Expanded scene infos v t p m n pool h s)
  reserve_from-Expanded scene infos v t p m (suc n) (some f) pool z h s =
      elim (Bool-cases (dict_eq f (expansion_intent v t p m (suc n)))) [
        | inl e ↦ rw e (target-Expanded (some f) v m n pool (ok f) pool.intents h tt)
        | inr e ↦ rw e refl
      ]
