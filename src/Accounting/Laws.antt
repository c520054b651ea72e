-- ===== src/Accounting/Laws.antt =====
-- What one operation does to the rows and to the capacity that they reserve.
use kadalu.Prelude.{
  ℕ, ◌+◌, ◌<◌, Text, ◌≡◌, refl, List, if◌then◌else◌, text_eq, text_eq_iff, text_eq_refl, arith,
}
use kadalu.Accounting.{PvRow, Tables, replace_pv, move_pv, without}
use kadalu.Accounting.Rows.{
  AreValid, used, reserved, find_pv-without, find_pv-append, used-append, used-without,
  without-AreValid, append-AreValid,
}

module _ (hash : Text → Text) (now : ℕ) where
  pub used-replace_pv :
      (pvname : Text) (n : ℕ) (t : Tables)
      → AreValid t.pv_stats
      → used (replace_pv hash pvname n now t).pv_stats + reserved t.pv_stats pvname
        ≡ used t.pv_stats + n
  used-replace_pv pvname n t h =
      omega (arith, used-append (without pvname t.pv_stats), used-without pvname t.pv_stats h)

  pub reserved-replace_pv :
      (pvname j : Text) (n : ℕ) (t : Tables)
      → reserved (replace_pv hash pvname n now t).pv_stats j
        ≡ (if text_eq pvname j then n else reserved t.pv_stats j)
  reserved-replace_pv pvname j n t =
      simp (find_pv-append, find_pv-without)
        (ground (arith, text_eq_iff pvname j, text_eq_iff j pvname))

  pub replace_pv-AreValid :
      (pvname : Text) (n : ℕ) (t : Tables)
      → 0 < n
      → AreValid t.pv_stats
      → AreValid (replace_pv hash pvname n now t).pv_stats
  replace_pv-AreValid pvname n t p h =
      append-AreValid (without pvname t.pv_stats) _ (without-AreValid pvname t.pv_stats h) (refl, p)
        (rw find_pv-without (rw text_eq_refl refl))

  pub reserved-move_pv :
      (old_name new_name j : Text) (n : ℕ) (t : Tables)
      → reserved (move_pv hash old_name new_name n now t).pv_stats j ≡ (
          if text_eq new_name j then n else if text_eq old_name j then 0 else reserved t.pv_stats j)
  reserved-move_pv old_name new_name j n t =
      simp (find_pv-append, find_pv-without)
        (ground (arith, text_eq_iff new_name j, text_eq_iff j new_name, text_eq_iff old_name j))

  pub move_pv-AreValid :
      (old_name new_name : Text) (n : ℕ) (t : Tables)
      → 0 < n
      → AreValid t.pv_stats
      → AreValid (move_pv hash old_name new_name n now t).pv_stats
  move_pv-AreValid old_name new_name n t p h =
      append-AreValid (without old_name (without new_name t.pv_stats)) _
        (without-AreValid old_name _ (without-AreValid new_name t.pv_stats h)) (refl, p)
        (simp (find_pv-without, text_eq_refl) (ground arith))

  pub used-move_pv :
      (old_name new_name : Text) (n : ℕ) (t : Tables)
      → AreValid t.pv_stats
      → used (move_pv hash old_name new_name n now t).pv_stats
          + reserved (without new_name t.pv_stats) old_name
          + reserved t.pv_stats new_name
        ≡ used t.pv_stats + n
  used-move_pv old_name new_name n t h = omega (
    arith,
    used-append (without old_name (without new_name t.pv_stats)),
    used-without old_name (without new_name t.pv_stats) (without-AreValid new_name t.pv_stats h),
    used-without new_name t.pv_stats h,
  )

pub reserved-without :
    (k j : Text) (rows : List PvRow)
    → reserved (without k rows) j ≡ (if text_eq k j then 0 else reserved rows j)
reserved-without k j rows = rw find_pv-without (ground arith)
