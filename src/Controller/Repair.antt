-- ===== src/Controller/Repair.antt =====
-- The repair of accounting to a committed size.
use kadalu.Prelude.{
  ℕ, suc, true, ◌<◌, ◌≡◌, refl, ap, sym, ◌∙◌, Bool-cases, inl, inr, ==_iff, ◌==◌, [], ◌∷◌, Text,
  text_eq, text_eq_iff, arith,
}
use kadalu.Prelude.Int.{negsuc}
use kadalu.Exec.{Result, ok}
use kadalu.Accounting.{Tables, SizeAccounting, get_pv_size, enter, with_accounting, fits_sqlite}
use kadalu.Accounting.Client.{update_free_size, get_accounted_pv_size}
use kadalu.Accounting.Rows.{AreValid, fits_sqlite_lem}
use kadalu.Accounting.Refinement.{Request, put, view, is_below_lem, serve_all-spec_all}
use kadalu.Admission.Sets.{get_pv_size-held}
use kadalu.Controller.{reconcile_committed_capacity}

accounted-view :
    (hostvol pvname : Text) (t : Tables)
    → AreValid t.pv_stats
    → get_accounted_pv_size hostvol (ok tt) pvname t ≡ (ok (view t pvname), t)
unfolding get_accounted_pv_size with_accounting get_pv_size
accounted-view hostvol pvname t h =
    ap (λ (r : Result ℕ × SizeAccounting). (r.0, r.1.disk))
      (get_pv_size-held pvname (enter hostvol 0 t) h)

update_free_size-returns :
    (hash : Text → Text) (hostvol pvname : Text) (now grants n : ℕ) (t : Tables)
    → fits_sqlite (suc n) ≡ true
    → (update_free_size hash hostvol now (ok tt) (suc grants) pvname (negsuc n) t).0 ≡ ok tt
unfolding update_free_size
update_free_size-returns hash hostvol pvname now grants n t fits = ground (arith, fits)

-- On a valid file that opens, whose pool is mounted and whose commit SQLite grants, the repair to a positive size
-- below 2^63 succeeds, and then the file is valid, reserves the committed size for the volume, and
-- for every other name what it did.
pub reconcile_committed_capacity-put :
    (hash : Text → Text) (hostvol pvname : Text) (now grants n : ℕ) (t : Tables)
    → AreValid t.pv_stats
    → suc n < 9223372036854775808
    → let (r, t') =
        reconcile_committed_capacity hash hostvol now
          (ok tt)
          (ok tt)
          (suc grants)
          pvname
          (suc n)
          t in
      (r ≡ ok tt) × AreValid t'.pv_stats × ((j : Text) → view t' j ≡ put pvname (suc n) (view t) j)
unfolding reconcile_committed_capacity
reconcile_committed_capacity-put hash hostvol pvname now grants n t h small =
    rw (accounted-view hostvol pvname t h) (elim (Bool-cases (view t pvname == suc n)) [
      | inl e ↦ rw e (refl, h, λ j. already j ((==_iff _ _).0 e))
      | inr e ↦
          let requested =
            serve_all-spec_all hash hostvol
              ((now, Request.update_free (ok tt) (suc grants) pvname (negsuc n)) ∷ []) t h in
          rw e (
            update_free_size-returns hash hostvol pvname now grants n t
                (fits_sqlite_lem (suc n) small),
            requested.0,
            λ j. ap (λ (f : Text → ℕ). f j) requested.1 ∙ (rw (is_below_lem (suc n) small) refl),
          )
    ])
  where
    already : (j : Text) → view t pvname ≡ suc n → view t j ≡ put pvname (suc n) (view t) j
    already j e = elim (Bool-cases (text_eq pvname j)) [
      | inl same ↦ rw same (ap (view t) (sym ((text_eq_iff pvname j).0 same)) ∙ e)
      | inr other ↦ rw other refl
    ]
