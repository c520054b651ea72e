-- ===== src/Admission/Sets.antt =====
-- The operations on stat.db as changes of the map from names to reserved bytes.
use mathlib.Core.Path.{fun_ext}
use kadalu.Prelude.{
  ℕ, suc, ◌≡◌, refl, ap, ◌∙◌, Bool, true, false, ◌||◌, Option, none, some, List, [], ◌∷◌, Text,
  text_eq, if◌then◌else◌, arith,
}
use kadalu.Prelude.Int.{pos}
use kadalu.Exec.{Result, ok, err, Exec, pure, ◌>>◌, continue}
use kadalu.Accounting.{
  PvRow, Cell, SizeAccounting, commit, update_pv_record, rename_pv_record, remove_pv_record,
  get_pv_size, size_of, find_pv, fits_sqlite,
}
use kadalu.Accounting.Rows.{
  AreValid, reserved, without-AreValid, valid_size-bytes, bytes_of, find-IsSize,
}
use kadalu.Accounting.Laws.{
  replace_pv-AreValid, reserved-replace_pv, move_pv-AreValid, reserved-move_pv, reserved-without,
}
use kadalu.Accounting.Refinement.{put}
use kadalu.Admission.{remove_all}

-- A connection in its write transaction, which sees valid rows.
abbrev pub IsValid : SizeAccounting → Type 0
IsValid acc = AreValid acc.work.pv_stats × (acc.transaction_active ≡ true)

abbrev pub held : SizeAccounting → Text → ℕ
held acc = reserved acc.work.pv_stats

-- `m` returns `a`, keeps the rows valid, and changes the map by `g`.
pub record Sets {A : Type 0} (m : Exec SizeAccounting A) (a : A) (g : (Text → ℕ) → Text → ℕ)
    : Type 0 where
  pub at :
      (acc : SizeAccounting)
      → IsValid acc
      → ((m acc).0 ≡ ok a) × IsValid (m acc).1 × (held (m acc).1 ≡ g (held acc))

pub remove-Sets : (k : Text) → Sets (remove_pv_record k) tt (put k 0)
unfolding remove_pv_record commit
remove-Sets k = record {
  at = λ acc h. rw h.1 (
    refl,
    (without-AreValid k acc.work.pv_stats h.0, refl),
    fun_ext λ j. reserved-without k j acc.work.pv_stats,
  );
}

module _ (hash : Text → Text) (now : ℕ) where
  pub update-Sets :
      (k : Text) (n : ℕ)
      → fits_sqlite (suc n) ≡ true
      → Sets (update_pv_record hash now k (Cell.int (pos (suc n)))) tt (put k (suc n))
  unfolding update_pv_record commit
  update-Sets k n fits = record {
    at = λ acc h.
        rw (fits, h.1)
          (
            refl,
            (replace_pv-AreValid hash now k (suc n) acc.work (omega arith) h.0, refl),
            fun_ext λ j. reserved-replace_pv hash now k j (suc n) acc.work,
          );
  }

  pub rename-Sets :
      (old new : Text) (n : ℕ)
      → fits_sqlite (suc n) ≡ true
      → Sets
          (rename_pv_record hash now old new (Cell.int (pos (suc n))))
          tt
          (λ m. put new (suc n) (put old 0 m))
  unfolding rename_pv_record commit
  rename-Sets old new n fits = record {
    at = λ acc h.
        rw (fits, h.1)
          (
            refl,
            (move_pv-AreValid hash now old new (suc n) acc.work (omega arith) h.0, refl),
            fun_ext λ j. reserved-move_pv hash now old new j (suc n) acc.work,
          );
  }

pub Sets-pure : {A : Type 0} (a : A) → Sets (pure a) a (λ m. m)
Sets-pure a = record { at = λ acc h. (refl, h, refl) }

pub Sets-then :
    {A B : Type 0} {m : Exec SizeAccounting A} {k : Exec SizeAccounting B} {a : A} {b : B}
    {g h : (Text → ℕ) → Text → ℕ}
    → Sets m a g
    → Sets k b h
    → Sets (m >> k) b (λ v. h (g v))
Sets-then {A} {B} {m} {k} {a} {b} {g} {h} sm sk = record {
  at = λ acc v. go acc (m acc) (sm.at acc v);
}
  where
    go :
        (acc : SizeAccounting) (r : Result A × SizeAccounting)
        → ((r.0 ≡ ok a) × IsValid r.1 × (held r.1 ≡ g (held acc)))
        → ((continue (λ _. k) r).0 ≡ ok b)
          × IsValid (continue (λ _. k) r).1
          × (held (continue (λ _. k) r).1 ≡ h (g (held acc)))
    go acc (ok x, s) (e, v, w) = let (e', v', w') = sk.at s v in (e', v', w' ∙ ap h w)
    go acc (err x, s) (e, v, w) = cc

pub Sets-eq :
    {A : Type 0} {m : Exec SizeAccounting A} {a : A} {g : (Text → ℕ) → Text → ℕ}
    (h : (Text → ℕ) → Text → ℕ)
    → Sets m a g
    → ((v : Text → ℕ) (j : Text) → g v j ≡ h v j)
    → Sets m a h
Sets-eq h s e = record {
  at = λ acc v. let (a, b, c) = s.at acc v in (a, b, c ∙ fun_ext (e (held acc)));
}

abbrev pub member : Text → List Text → Bool
member j [] = false
member j (k ∷ ks) = text_eq k j || member j ks

-- The names of a list hold nothing any more.
abbrev pub clear : List Text → (Text → ℕ) → Text → ℕ
clear ks m j = if member j ks then 0 else m j

pub remove_all-Sets : (ks : List Text) → Sets (remove_all ks) tt (clear ks)
unfolding remove_all
remove_all-Sets [] = Sets-pure tt
remove_all-Sets (k ∷ ks) =
    Sets-eq (clear (k ∷ ks)) (Sets-then (remove-Sets k) (remove_all-Sets ks)) (λ v j. ground arith)

-- `get_pv_size` returns what the map holds.
pub get_pv_size-held :
    (k : Text) (acc : SizeAccounting)
    → AreValid acc.work.pv_stats
    → get_pv_size k acc ≡ (ok (held acc k), acc)
unfolding get_pv_size
get_pv_size-held k acc h = go (find_pv k acc.work.pv_stats) refl
  where
    go :
        (o : Option PvRow)
        → find_pv k acc.work.pv_stats ≡ o
        → ◌≡◌ {A = Result ℕ × SizeAccounting} (size_of o, acc) (ok (bytes_of o), acc)
    go none e = refl
    go (some row) e =
        ap (λ (r : Result ℕ). (r, acc))
          (valid_size-bytes row.size (find-IsSize k acc.work.pv_stats row h e))
