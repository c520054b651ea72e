-- ===== src/Admission/Admit.antt =====
-- How the admission of a new volume changes a pool.
use kadalu.Prelude.{
  ℕ, zero, suc, ◌+◌, ◌*◌, ◌<◌, ◌≡◌, refl, ◌∙◌, Bool, true, false, ◌==◌, ==_iff, Text, text_eq_refl,
  arith, Bool-cases, inl, inr,
}
use kadalu.Prelude.Int.{pos, sub_ℕ, scale}
use kadalu.Exec.{Result, ok, err, continue, pure, ◌>>◌}
use kadalu.Json.{Fields}
use kadalu.Accounting.{Cell, update_pv_record, commit, valid_size, replace_pv, fits_sqlite}
use kadalu.Accounting.Rows.{reserved, used}
use kadalu.Accounting.Laws.{used-replace_pv, reserved-replace_pv}
use kadalu.Accounting.Capacity.{IsSummary, total, get_stats_lem}
use kadalu.Intent.{Files, prepare_volume_creation}
use kadalu.Intent.Laws.{IsStored, Stored, prepare-Stored, prepare-zero}
use kadalu.Admission.{
  Pool, Scene, on_acc, on_intents, lacks_room, hosting_volume_capacity_stats, admit_new,
}
use kadalu.Admission.Sets.{IsValid, held, get_pv_size-held}

-- A tenth of the free bytes is kept back.
pub lacks_room-false : (n t u : ℕ) → lacks_room n (sub_ℕ t u) ≡ false → 100 * n + 90 * u < 90 * t
unfolding lacks_room scale
lacks_room-false n t u h = ground arith

abbrev pub pool_used : Pool → ℕ
pool_used pool = used pool.acc.work.pv_stats

-- How an admission of `n` bytes ends on a pool.
abbrev pub Admitted : Text → Text → Text → ℕ → Pool → Result Bool × Pool → Type 0
Admitted v t p n before (ok true, after) =
    (pool_used after ≡ pool_used before + n)
    × (100 * n + 90 * pool_used before < 90 * total before.acc.work.summary)
    × (held before.acc v ≡ 0)
    × (held after.acc v ≡ n)
    × ((f : Fields) × IsStored v t p n f after.intents)
Admitted v t p n before (ok false, after) = (after ≡ before)
Admitted v t p n before (err e, after) = (after.acc ≡ before.acc)

module _ (hash : Text → Text) (now : ℕ) where
  recorded :
      (v t p : Text) (n : ℕ) (pool : Pool) (r : Result Fields) (fs : Files)
      → IsValid pool.acc
      → held pool.acc v ≡ 0
      → 100 * suc n + 90 * pool_used pool < 90 * total pool.acc.work.summary
      → Stored v t p (suc n) (r, fs)
      → Admitted v t p (suc n) pool (
          continue
            (λ (_ : Fields).
              on_acc (update_pv_record hash now v (Cell.int (pos (suc n)))) >> pure true)
            (r, record pool { intents = fs }))
  unfolding update_pv_record valid_size commit
  recorded v t p n pool (err e) fs h z room s = refl
  recorded v t p n pool (ok f) fs h z room s = elim (Bool-cases (fits_sqlite (suc n))) [
    | inl e ↦ rw (e, h.1) (grown, room, z, kept, (f, s))
    | inr e ↦ rw e refl
  ]
    where
      grown : used (replace_pv hash v (suc n) now pool.acc.work).pv_stats ≡ pool_used pool + suc n
      grown = omega (arith, used-replace_pv hash now v (suc n) pool.acc.work h.0, z)

      kept : reserved (replace_pv hash v (suc n) now pool.acc.work).pv_stats v ≡ suc n
      kept = reserved-replace_pv hash now v v (suc n) pool.acc.work ∙ (rw text_eq_refl refl)

  prepared :
      (scene : Scene) (v t p : Text) (n : ℕ) (pool : Pool)
      → IsValid pool.acc
      → held pool.acc v ≡ 0
      → 100 * n + 90 * pool_used pool < 90 * total pool.acc.work.summary
      → Admitted v t p n pool (
          (on_intents (prepare_volume_creation hash scene.uuid scene.race v t p n)
              >> (on_acc (update_pv_record hash now v (Cell.int (pos n))) >> pure true))
            pool)
  prepared scene v t p zero pool h z room =
      rw (prepare-zero hash scene.uuid scene.race v t p pool.intents) refl
  prepared scene v t p (suc n) pool h z room =
      go (prepare_volume_creation hash scene.uuid scene.race v t p (suc n) pool.intents)
        (prepare-Stored hash scene.uuid scene.race v t p (suc n) pool.intents)
    where
      go :
          (r : Result Fields × Files)
          → Stored v t p (suc n) r
          → Admitted v t p (suc n) pool (
              continue
                (λ (_ : Fields).
                  on_acc (update_pv_record hash now v (Cell.int (pos (suc n)))) >> pure true)
                (r.0, record pool { intents = r.1 }))
      go (r, fs) s = recorded v t p n pool r fs h z room s

  -- Admission of a volume with no intent yet, on a pool
  -- with valid tables in its write transaction: if it returns true, the
  -- volume had no reservation, now it has exactly the requested bytes, the pool's used bytes grew by
  -- them, nine tenths of the free bytes were more than the request, and an intent
  -- of its volume, type, path and size is on disk.
  -- If it returns false nothing has changed, and if it raises no reservation has.
  pub admit_new-Admitted :
      (scene : Scene) (v t p : Text) (n : ℕ) (pool : Pool)
      → IsValid pool.acc
      → IsSummary pool.acc.work.summary
      → Admitted v t p n pool (admit_new hash now scene v t p n pool)
  unfolding hosting_volume_capacity_stats
  admit_new-Admitted scene v t p n pool h s =
      rw (get_pv_size-held v pool.acc h.0) (elim (Bool-cases (held pool.acc v == 0)) [
        | inr e ↦ rw e refl
        | inl e ↦
            rw (e, get_stats_lem pool.acc h.0 s)
              (elim (Bool-cases
                (lacks_room n (sub_ℕ (total pool.acc.work.summary) (pool_used pool)))) [
                  | inl full ↦ rw full refl
                  | inr free ↦ rw free (
                      prepared scene v t p n pool h ((==_iff _ _).0 e)
                        (lacks_room-false n (total pool.acc.work.summary) (pool_used pool) free))
                ])
      ])
