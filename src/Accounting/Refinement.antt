-- ===== src/Accounting/Refinement.antt =====
-- Sequences of requests to a pool's stat.db, and the map from names to reserved bytes.
use mathlib.Core.Path.{fun_ext}
use kadalu.Prelude.{
  ap, ◌<◌, ◌∙◌, ℕ, suc, Text, ◌≡◌, refl, List, [], ◌∷◌, if◌then◌else◌, text_eq, arith, zero,
  Bool-cases, inl, inr, Bool, true, false, ltb, ◌⊎◌,
}
use kadalu.Prelude.Int.{ℤ, pos, negsuc}
use kadalu.Exec.{Result, ok, err, Done}
use kadalu.Accounting.{Cell, int, other, Tables, without, replace_pv, move_pv, fits_sqlite}
use kadalu.Accounting.Client.{update_free_size, archive_pv_reservation}
use kadalu.Accounting.Rows.{AreValid, reserved, without-AreValid}
use kadalu.Accounting.Laws.{
  reserved-replace_pv, replace_pv-AreValid, reserved-move_pv, move_pv-AreValid, reserved-without,
}

-- One call of `update_free_size` or `archive_pv_reservation`, with how the mount check and the opening end and the
-- commits that SQLite grants to it.
pub data Request : Type 0 where
  update_free : Result Done → ℕ → Text → ℤ → Request
  archive : Result Done → ℕ → Text → Text → Cell → Request

module _ (hash : Text → Text) (hostvol : Text) where
  abbrev serve : ℕ → Request → Tables → Tables
  serve now (update_free mounted grants pvname change) t =
      (update_free_size hash hostvol now mounted grants pvname change t).1
  serve now (archive mounted grants old_name new_name size) t =
      (archive_pv_reservation hash hostvol now mounted grants old_name new_name size t).1

  abbrev pub serve_all : List (ℕ × Request) → Tables → Tables
  serve_all [] t = t
  serve_all ((now, r) ∷ rs) t = serve_all rs (serve now r t)

-- The abstract view: the bytes reserved for each name.
abbrev pub put : Text → ℕ → (Text → ℕ) → Text → ℕ
put k n m j = if text_eq k j then n else m j

-- The sizes that a file of SQLite holds.
unfoldable pub is_below : ℕ → Bool
is_below n = ltb n 9223372036854775808

pub is_below_lem : (n : ℕ) → n < 9223372036854775808 → is_below n ≡ true
unfolding is_below
is_below_lem n h = ground arith

fits_sqlite-is_below :
    (n : ℕ)
    → (fits_sqlite n ≡ true) × (is_below n ≡ true) ⊎ (fits_sqlite n ≡ false) × (is_below n ≡ false)
unfolding fits_sqlite is_below
fits_sqlite-is_below n = elim (Bool-cases (ltb n 9223372036854775808)) [
  | inl e ↦ inl (e, e)
  | inr e ↦ inr (e, e)
]

abbrev spec : Request → (Text → ℕ) → Text → ℕ
spec (update_free (ok _) (suc _) pvname (pos (suc n))) m = put pvname 0 m
spec (update_free (ok _) (suc _) pvname (negsuc n)) m =
    if is_below (suc n) then put pvname (suc n) m else m
spec (update_free _ grants pvname change) m = m
spec (archive (ok _) (suc _) old_name new_name (int (pos (suc n)))) m =
    if is_below (suc n) then put new_name (suc n) (put old_name 0 m) else m
spec (archive _ grants old_name new_name size) m = m

abbrev pub spec_all : List (ℕ × Request) → (Text → ℕ) → Text → ℕ
spec_all [] m = m
spec_all ((now, r) ∷ rs) m = spec_all rs (spec r m)

abbrev pub view : Tables → Text → ℕ
view t = reserved t.pv_stats

module _ (hash : Text → Text) (hostvol : Text) (now : ℕ) where
  serve-reclaim :
      (d : Done) (g : ℕ) (pvname : Text) (n : ℕ) (t : Tables)
      → serve hash hostvol now (update_free (ok d) (suc g) pvname (pos (suc n))) t
        ≡ record t { pv_stats = without pvname t.pv_stats }
  unfolding update_free_size
  serve-reclaim d g pvname n t = ground arith

  serve-locked :
      (d : Done) (pvname : Text) (change : ℤ) (t : Tables)
      → serve hash hostvol now (update_free (ok d) zero pvname change) t ≡ t
  unfolding update_free_size
  serve-locked d pvname (pos zero) t = ground arith
  serve-locked d pvname (pos (suc n)) t = ground arith
  serve-locked d pvname (negsuc n) t = elim (Bool-cases (fits_sqlite (suc n))) [
    | inl e ↦ ground (arith, e)
    | inr e ↦ ground (arith, e)
  ]

  serve-reserve :
      (d : Done) (g : ℕ) (pvname : Text) (n : ℕ) (t : Tables)
      → serve hash hostvol now (update_free (ok d) (suc g) pvname (negsuc n)) t
        ≡ (if is_below (suc n) then replace_pv hash pvname (suc n) now t else t)
  unfolding update_free_size
  serve-reserve d g pvname n t = elim (fits_sqlite-is_below (suc n)) [
    | inl (e, b) ↦ ground (arith, e, b)
    | inr (e, b) ↦ ground (arith, e, b)
  ]

  serve-archive :
      (d : Done) (g : ℕ) (old_name new_name : Text) (n : ℕ) (t : Tables)
      → serve hash hostvol now (archive (ok d) (suc g) old_name new_name (int (pos (suc n)))) t
        ≡ (if is_below (suc n) then move_pv hash old_name new_name (suc n) now t else t)
  unfolding archive_pv_reservation
  serve-archive d g old_name new_name n t = elim (fits_sqlite-is_below (suc n)) [
    | inl (e, b) ↦ rw (e, b, serve) refl
    | inr (e, b) ↦ rw (e, b, serve) refl
  ]

  serve-unarchived :
      (d : Done) (old_name new_name : Text) (n : ℕ) (t : Tables)
      → serve hash hostvol now (archive (ok d) zero old_name new_name (int (pos (suc n)))) t ≡ t
  unfolding archive_pv_reservation
  serve-unarchived d old_name new_name n t = elim (Bool-cases (fits_sqlite (suc n))) [
    | inl e ↦ rw (e, serve) refl
    | inr e ↦ rw (e, serve) refl
  ]

  -- A request keeps the rows valid and does what the abstract one does.
  abbrev Serves : Request → Tables → Tables → Type 0
  Serves r t t' = AreValid t'.pv_stats × ((j : Text) → view t' j ≡ spec r (view t) j)

  serve-Serves :
      (r : Request) (t : Tables) → AreValid t.pv_stats → Serves r t (serve hash hostvol now r t)
  unfolding archive_pv_reservation update_free_size
  serve-Serves (update_free (err e) g pvname change) t h = (h, λ j. refl)
  serve-Serves (update_free (ok d) zero pvname change) t h =
      rw (serve-locked d pvname change t) (h, λ j. refl)
  serve-Serves (update_free (ok _) (suc g) pvname (pos zero)) t h = (h, λ j. refl)
  serve-Serves (update_free (ok d) (suc g) pvname (pos (suc n))) t h =
      rw (serve-reclaim d g pvname n t)
        (without-AreValid pvname t.pv_stats h, λ j. reserved-without pvname j t.pv_stats)
  serve-Serves (update_free (ok d) (suc g) pvname (negsuc n)) t h =
      rw (serve-reserve d g pvname n t) (elim (Bool-cases (is_below (suc n))) [
        | inl e ↦ rw e (
          replace_pv-AreValid hash now pvname (suc n) t (omega arith) h,
          λ j. reserved-replace_pv hash now pvname j (suc n) t,
        )
        | inr e ↦ rw e (h, λ j. refl)
      ])
  serve-Serves (archive (err e) g old_name new_name size) t h = (h, λ j. refl)
  serve-Serves (archive (ok d) zero old_name new_name (int (pos (suc n)))) t h =
      rw (serve-unarchived d old_name new_name n t) (h, λ j. refl)
  serve-Serves (archive (ok d) (suc g) old_name new_name (int (pos (suc n)))) t h =
      rw (serve-archive d g old_name new_name n t) (elim (Bool-cases (is_below (suc n))) [
        | inl e ↦ rw e (
          move_pv-AreValid hash now old_name new_name (suc n) t (omega arith) h,
          λ j. reserved-move_pv hash now old_name new_name j (suc n) t,
        )
        | inr e ↦ rw e (h, λ j. refl)
      ])
  serve-Serves (archive (ok _) zero old_name new_name (int (pos zero))) t h = (h, λ j. refl)
  serve-Serves (archive (ok _) zero old_name new_name (int (negsuc n))) t h = (h, λ j. refl)
  serve-Serves (archive (ok _) zero old_name new_name other) t h = (h, λ j. refl)
  serve-Serves (archive (ok _) (suc g) old_name new_name (int (pos zero))) t h = (h, λ j. refl)
  serve-Serves (archive (ok _) (suc g) old_name new_name (int (negsuc n))) t h = (h, λ j. refl)
  serve-Serves (archive (ok _) (suc g) old_name new_name other) t h = (h, λ j. refl)

-- After any requests on a valid file the file is valid, and reserves for every name what the
-- abstract map says: a reclaim frees the name, a reservation is absolute, an archive moves the
-- bytes to the archived name. A request changes nothing whose mount check or opening of stat.db fails, whose size is not
-- positive or does not fit in SQLite's 64 bits, or whose commit SQLite refuses.
pub serve_all-spec_all :
    (hash : Text → Text) (hostvol : Text) (rs : List (ℕ × Request)) (t : Tables)
    → AreValid t.pv_stats
    → AreValid (serve_all hash hostvol rs t).pv_stats
      × (view (serve_all hash hostvol rs t) ≡ spec_all rs (view t))
serve_all-spec_all hash hostvol [] t h = (h, refl)
serve_all-spec_all hash hostvol ((now, r) ∷ rs) t h =
    let (still, served) = serve-Serves hash hostvol now r t h in
    let (valid, same) = serve_all-spec_all hash hostvol rs (serve hash hostvol now r t) still in
    (valid, same ∙ ap (spec_all rs) (fun_ext served))
