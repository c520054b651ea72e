-- ===== src/Reclaim/Crash.antt =====
-- A delete that stops anywhere: the payload and its reservation.
use kadalu.Prelude.{
  ℕ, zero, suc, ◌≡◌, refl, ◌∙◌, true, false, not, List, [], ◌∷◌, Text, arith, if◌then◌else◌,
}
use kadalu.Exec.{Exec, Done, Result, ok, err, value_error, continue, ◌>>=◌, ◌>>◌}
use kadalu.Json.{Fields, get}
use kadalu.Reclaim.{
  removes, Disk, Volume, has_payload, drop_payload, spend, finish_delete, release,
  prune_empty_parents, unlink_info, delete_payload, delete_managed_volume, delete_paths_canonical,
}
use kadalu.Reclaim.Frame.{
  Keeps, IsFramed, Quiet, Keeps-then, settled-Keeps, tick-Quiet, raise_if-Quiet, unlink_info-Quiet,
  ensure_tombstone-Quiet,
}

pub has_payload-drop_payload :
    (p : Text) (ps : List Text) → has_payload p (drop_payload p ps) ≡ false
has_payload-drop_payload p [] = refl
has_payload-drop_payload p (q ∷ ps) = ground (arith, has_payload-drop_payload p ps)

-- Nothing vanishes under the removal.
pub removes-quiet : (vol : Volume) → vol.vanishing ≡ false → removes vol ≡ true
removes-quiet vol h = ground arith

abbrev SamePayloads : Disk → Disk → Type 0
SamePayloads d e = e.payloads ≡ d.payloads

-- While the payload stands, stat.db is as it was.
abbrev pub IsPaidFor : Text → Disk → Disk → Type 0
IsPaidFor volpath d e = has_payload volpath e.payloads ≡ true → e.tables ≡ d.tables

SamePayloads-IsFramed : IsFramed SamePayloads
SamePayloads-IsFramed = record { before = λ d e f q h. h ∙ q.1; same = λ d e q. q.1 }

IsPaidFor-IsFramed : (p : Text) → IsFramed (IsPaidFor p)
IsPaidFor-IsFramed p = record {
  before = λ d e f q h standing. h standing ∙ q.0;
  same = λ d e q standing. q.0;
}

SamePayloads-then :
    {A B : Type 0} {m : Exec Disk A} {f : A → Exec Disk B}
    → Keeps SamePayloads m
    → ((a : A) → Keeps SamePayloads (f a))
    → Keeps SamePayloads (m >>= f)
SamePayloads-then {A} {B} {m} {f} h k = record { at = λ d. go d (m d) (h.at d) }
  where
    go : (d : Disk) (r : Result A × Disk) → SamePayloads d r.1 → SamePayloads d (continue f r).1
    go d (ok a, e) q = (k a).at e ∙ q
    go d (err x, e) q = q

Quiet-SamePayloads : {A : Type 0} {m : Exec Disk A} → Quiet m → Keeps SamePayloads m
Quiet-SamePayloads q = record { at = λ d. (q.at d).1 }

module _ (hash : Text → Text) (now : ℕ) (vol : Volume) (quiet : vol.vanishing ≡ false) where
  abbrev accounting_and_tombstone : ℕ → Exec Disk Done
  accounting_and_tombstone size =
      prune_empty_parents
      >> (release hash now vol size >> (unlink_info vol.info_path >> prune_empty_parents))

  gone :
      (d e : Disk)
      → e.payloads ≡ drop_payload vol.volpath d.payloads
      → has_payload vol.volpath e.payloads ≡ true
      → e.tables ≡ d.tables
  gone d e same standing = cc (has_payload-drop_payload vol.volpath d.payloads)

  accounting_and_tombstone-SamePayloads :
      (size : ℕ) → Keeps SamePayloads (accounting_and_tombstone size)
  accounting_and_tombstone-SamePayloads size =
      SamePayloads-then (Quiet-SamePayloads tick-Quiet) (λ _.
        SamePayloads-then
          (Keeps-then SamePayloads-IsFramed tick-Quiet (λ _. record { at = λ d. refl }))
          (λ _.
            SamePayloads-then (Quiet-SamePayloads (unlink_info-Quiet vol.info_path))
              (λ _. Quiet-SamePayloads tick-Quiet)))

  finish_delete-IsPaidFor :
      (size : ℕ) → Keeps (IsPaidFor vol.volpath) (finish_delete hash now vol size)
  finish_delete-IsPaidFor size = record { at = λ d. go d.budget d }
    where
      go :
          (b : ℕ) (d : Disk)
          → IsPaidFor vol.volpath d
              (continue
                (λ _. accounting_and_tombstone size)
                (continue
                  (λ _ e. (
                    ok tt,
                    record e {
                      payloads =
                          if removes vol then drop_payload vol.volpath e.payloads else e.payloads;
                    },
                  ))
                  (spend b d))).1
      go zero d = λ standing. refl
      go (suc b) d = rw (removes-quiet vol quiet) (λ standing.
          gone d
            (accounting_and_tombstone size
              (record d { payloads = drop_payload vol.volpath d.payloads; budget = b })).1
            ((accounting_and_tombstone-SamePayloads size).at
              (record d { payloads = drop_payload vol.volpath d.payloads; budget = b }))
            standing)

  delete_payload-IsPaidFor :
      (metadata : Fields) (size : ℕ)
      → Keeps (IsPaidFor vol.volpath) (delete_payload hash now vol metadata size)
  delete_payload-IsPaidFor metadata size =
      Keeps-then (IsPaidFor-IsFramed vol.volpath)
        (raise_if-Quiet (not (delete_paths_canonical hash vol)) value_error)
        (λ _.
          Keeps-then (IsPaidFor-IsFramed vol.volpath)
            (ensure_tombstone-Quiet vol metadata (get "state" metadata))
            (λ _. finish_delete-IsPaidFor size))

  -- Wherever a delete stops, at any of its durable changes, and whatever intents and metadata it
  -- found: as long as the payload still stands, no capacity was given back. The condition is that no
  -- other process removes an entry of the payload's directory while it is being removed.
  pub delete_managed_volume-IsPaidFor :
      (d : Disk)
      → has_payload vol.volpath (delete_managed_volume hash now vol d).1.payloads ≡ true
      → (delete_managed_volume hash now vol d).1.tables ≡ d.tables
  unfolding delete_managed_volume
  delete_managed_volume-IsPaidFor d standing =
      (settled-Keeps hash vol (delete_payload hash now vol) (IsPaidFor-IsFramed vol.volpath)
          delete_payload-IsPaidFor).at
        d standing
