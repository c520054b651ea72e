-- ===== src/Accounting/Capacity.antt =====
-- The statistics that admission reads, and the pool's used bytes under an archive.
use kadalu.Prelude.{
  ◌<◌, ◌∙◌, ℕ, suc, Text, ◌≡◌, refl, List, [], ◌∷◌, if◌then◌else◌, text_eq, text_eq_iff,
  text_eq_refl, arith, length, true,
}
use kadalu.Prelude.Int.{pos, sub_ℕ}
use kadalu.Exec.{Result, ok, err, sqlite_error, Done}
use kadalu.Accounting.{
  int, SummaryRow, Tables, SizeAccounting, Stats, get_stats, total_of, without, fits_sqlite,
  move_pv,
}
use kadalu.Accounting.Client.{archive_pv_reservation}
use kadalu.Accounting.Rows.{
  fits_sqlite_lem, AreValid, used, reserved, IsSize, bytes, valid_size-bytes, valid_sizes-row_sizes,
  sum-row_sizes, length-row_sizes,
}
use kadalu.Accounting.Laws.{used-move_pv, reserved-without, reserved-move_pv}

-- The pool's size: that of the first summary row, if any.
abbrev pub IsSummary : List SummaryRow → Type 0
IsSummary [] = Unit
IsSummary (row ∷ rows) = IsSize row.size

abbrev pub total : List SummaryRow → ℕ
total [] = 0
total (row ∷ rows) = bytes row.size

total_of-total : (rows : List SummaryRow) → IsSummary rows → total_of rows ≡ ok (total rows)
total_of-total [] h = refl
total_of-total (row ∷ rows) h = valid_size-bytes row.size h

abbrev pub stats_of : Tables → Stats
stats_of t = record {
  number_of_pvs = length t.pv_stats;
  total_size_bytes = total t.summary;
  used_size_bytes = used t.pv_stats;
  free_size_bytes = sub_ℕ (total t.summary) (used t.pv_stats);
}

-- On valid tables the statistics are read and nothing is changed: the number of rows, the pool's
-- size, the sum of all reservations, and their difference, which is negative for an overfull pool.
pub get_stats_lem :
    (acc : SizeAccounting)
    → AreValid acc.work.pv_stats
    → IsSummary acc.work.summary
    → get_stats acc ≡ (ok (stats_of acc.work), acc)
unfolding get_stats
get_stats_lem acc h s = ground (
  arith,
  valid_sizes-row_sizes acc.work.pv_stats h,
  total_of-total acc.work.summary s,
  sum-row_sizes acc.work.pv_stats,
  length-row_sizes acc.work.pv_stats,
)

-- The archive returned, and the bytes are moved.
abbrev pub IsMoved : Text → Text → ℕ → Tables → Result Done × Tables → Type 0
IsMoved old_name archived_name n t (r, t') =
    (r ≡ ok tt)
    × (used t'.pv_stats ≡ used t.pv_stats)
    × (reserved t'.pv_stats old_name ≡ 0)
    × (reserved t'.pv_stats archived_name ≡ suc n)

module _ (hash : Text → Text) (hostvol old_name archived_name : Text) (now n : ℕ) (t : Tables)
    (fits : fits_sqlite (suc n) ≡ true) where
  archive-moves :
      (grants : ℕ)
      → archive_pv_reservation hash hostvol now
          (ok tt)
          (suc grants)
          old_name
          archived_name
          (int (pos (suc n)))
          t
        ≡ (ok tt, move_pv hash old_name archived_name (suc n) now t)
  unfolding archive_pv_reservation
  archive-moves grants = rw (fits, archive_pv_reservation) refl

  archive-refused :
      archive_pv_reservation hash hostvol now (ok tt) 0 old_name archived_name (int (pos (suc n))) t
      ≡ (err sqlite_error, t)
  unfolding archive_pv_reservation
  archive-refused = rw (fits, archive_pv_reservation) refl

-- Archiving a reservation at its own size, under a name that holds nothing, on a mounted pool whose
-- stat.db opens and whose commit SQLite grants, returns, keeps the pool's used bytes and moves the reservation: the old name
-- then holds nothing, the archived one its size. Where the commit is refused, it raises and the file
-- is unchanged.
pub archive_conserves :
    (hash : Text → Text) (hostvol old_name archived_name : Text) (now grants n : ℕ) (t : Tables)
    → AreValid t.pv_stats
    → suc n < 9223372036854775808
    → reserved t.pv_stats old_name ≡ suc n
    → reserved t.pv_stats archived_name ≡ 0
    → IsMoved old_name archived_name n t (
        archive_pv_reservation hash hostvol now
          (ok tt)
          (suc grants)
          old_name
          archived_name
          (int (pos (suc n)))
          t)
      × (archive_pv_reservation hash hostvol now
            (ok tt)
            0
            old_name
            archived_name
            (int (pos (suc n)))
            t
          ≡ (err sqlite_error, t))
archive_conserves hash hostvol old_name archived_name now grants n t h small e z = (
  rw
      (archive-moves hash hostvol old_name archived_name now n t (fits_sqlite_lem (suc n) small)
        grants)
      (
        refl,
        omega (arith, used-move_pv hash now old_name archived_name (suc n) t h, held),
        reserved-move_pv hash now old_name archived_name old_name (suc n) t ∙ gone,
        reserved-move_pv hash now old_name archived_name archived_name (suc n) t
            ∙ (rw text_eq_refl refl),
      ),
  archive-refused hash hostvol old_name archived_name now n t (fits_sqlite_lem (suc n) small),
)
  where
    held : reserved (without archived_name t.pv_stats) old_name ≡ suc n
    held =
        reserved-without archived_name old_name t.pv_stats
        ∙ ground (arith, text_eq_iff archived_name old_name)

    gone :
        (if text_eq archived_name old_name
          then suc n
          else if text_eq old_name old_name
          then 0
          else reserved t.pv_stats old_name)
        ≡ 0
    gone = rw text_eq_refl (ground (arith, text_eq_iff archived_name old_name))
