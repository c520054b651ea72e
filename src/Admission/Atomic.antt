-- ===== src/Admission/Atomic.antt =====
-- The steps of a rebuild of stat.db in an open transaction: none of them writes to the file.
use kadalu.Prelude.{ℕ, ◌≡◌, refl, ◌∙◌, true, false, Bool-cases, inl, inr, Text, List, [], ◌∷◌, ◌==◌}
use kadalu.Prelude.Int.{pos}
use kadalu.Exec.{Result, ok, err, Exec, lift, modify, continue, ◌>>=◌, ◌>>◌}
use kadalu.Accounting.{
  Cell, Tables, SizeAccounting, commit, valid_size, update_pv_record, rename_pv_record,
  remove_pv_record, get_pv_size, without, replace_pv, insert_pv, without_both, bound,
}
use kadalu.Admission.{
  Records, lookup, list_or_empty, uncommitted, remove_all, rename_first, repair, rebuild_one,
  rebuild_loop, rebuild_committed_capacity,
}

abbrev pub Kept : {A : Type 0} → SizeAccounting → Result A × SizeAccounting → Type 0
Kept acc (r, acc') =
    (acc'.disk ≡ acc.disk) × (acc'.transaction_active ≡ true) × (acc'.grants ≡ acc.grants)

-- Inside a transaction `m` writes nothing to the file, and does not end the transaction.
pub record Defers {A : Type 0} (m : Exec SizeAccounting A) : Type 0 where
  pub at : (acc : SizeAccounting) → acc.transaction_active ≡ true → Kept acc (m acc)

pub Defers-then :
    {A B : Type 0} {m : Exec SizeAccounting A} {f : A → Exec SizeAccounting B}
    → Defers m
    → ((a : A) → Defers (f a))
    → Defers (m >>= f)
Defers-then {A} {B} {m} {f} dm df = record { at = λ acc h. go acc (m acc) (dm.at acc h) }
  where
    go :
        (acc : SizeAccounting) (r : Result A × SizeAccounting)
        → Kept acc r
        → Kept acc (continue f r)
    go acc (ok a, s) (e, t, g) = let (e', t', g') = (df a).at s t in (e' ∙ e, t', g' ∙ g)
    go acc (err x, s) k = k

Defers-pure : {A : Type 0} (r : Result A) → Defers (lift r)
Defers-pure r = record { at = λ acc h. (refl, h, refl) }

modify-Defers :
    (g : SizeAccounting → Tables)
    → Defers (modify (λ (acc : SizeAccounting). record acc { work = g acc }))
modify-Defers g = record { at = λ acc h. (refl, h, refl) }

-- A write of the tables followed by `_commit`.
write-Defers :
    (g : SizeAccounting → Tables)
    → Defers (modify (λ (acc : SizeAccounting). record acc { work = g acc }) >> commit)
unfolding commit
write-Defers g = record { at = λ acc h. rw h (refl, refl, refl) }

pub remove-Defers : (k : Text) → Defers (remove_pv_record k)
unfolding remove_pv_record
remove-Defers k = write-Defers (λ acc. record acc.work { pv_stats = without k acc.work.pv_stats })

module _ (hash : Text → Text) (now : ℕ) where
  update-Defers : (k : Text) (c : Cell) → Defers (update_pv_record hash now k c)
  unfolding update_pv_record
  update-Defers k c = Defers-then (Defers-pure (valid_size false c)) (λ n.
      Defers-then (Defers-pure (bound n))
        (λ _. write-Defers (λ acc. replace_pv hash k n now acc.work)))

  rename-Defers : (old new : Text) (c : Cell) → Defers (rename_pv_record hash now old new c)
  unfolding rename_pv_record
  rename-Defers old new c = Defers-then (Defers-pure (valid_size false c)) (λ n.
      Defers-then
        (modify-Defers
          (λ acc. record acc.work { pv_stats = without_both old new acc.work.pv_stats }))
        (λ _.
          Defers-then (Defers-pure (bound n))
            (λ _. write-Defers (λ acc. insert_pv hash new n now acc.work))))

  size-Defers : (k : Text) → Defers (get_pv_size k)
  unfolding get_pv_size
  size-Defers k = record { at = λ acc h. (refl, h, refl) }

  remove_all-Defers : (ks : List Text) → Defers (remove_all ks)
  unfolding remove_all
  remove_all-Defers [] = Defers-pure (ok tt)
  remove_all-Defers (k ∷ ks) = Defers-then (remove-Defers k) (λ _. remove_all-Defers ks)

  rename_first-Defers : (ks : List Text) (v : Text) (n : ℕ) → Defers (rename_first hash now ks v n)
  rename_first-Defers [] v n = Defers-pure (ok tt)
  rename_first-Defers (k ∷ ks) v n =
      Defers-then (rename-Defers k v (Cell.int (pos n))) (λ _. remove_all-Defers ks)

  repair-Defers : (v : Text) (n accounted : ℕ) → Defers (repair hash now v n accounted)
  repair-Defers v n accounted = elim (Bool-cases (accounted == n)) [
    | inl e ↦ rw e (Defers-pure (ok tt))
    | inr e ↦ rw e (update-Defers v (Cell.int (pos n)))
  ]

  rebuild_one-Defers :
      (records : Records) (v : Text) (n : ℕ) → Defers (rebuild_one hash now records v n)
  unfolding rebuild_one
  rebuild_one-Defers records v n =
      Defers-then
        (rename_first-Defers
          (uncommitted records.reservations (list_or_empty (lookup v records.aliases))) v n)
        (λ _. Defers-then (size-Defers v) (repair-Defers v n))

  rebuild_loop-Defers :
      (records : Records) (rest : List (Text × ℕ)) → Defers (rebuild_loop hash now records rest)
  unfolding rebuild_loop
  rebuild_loop-Defers records [] = Defers-pure (ok tt)
  rebuild_loop-Defers records ((v, n) ∷ rest) =
      Defers-then (rebuild_one-Defers records v n) (λ _. rebuild_loop-Defers records rest)

  pub rebuild-Defers :
      (scanned : Result Records) → Defers (rebuild_committed_capacity hash now scanned)
  unfolding rebuild_committed_capacity
  rebuild-Defers scanned = Defers-then (Defers-pure scanned) (λ records.
      Defers-then (remove_all-Defers (uncommitted records.reservations records.tombstones))
        (λ _. rebuild_loop-Defers records records.reservations))
