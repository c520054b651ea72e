-- ===== src/Tests/Accounts.antt =====
-- A stat.db of one pool with one reservation.
use kadalu.Prelude.{ℕ, ◌≡◌, refl, List, [], ◌∷◌, Text, code_points, arith}
use kadalu.Prelude.Int.{pos, negsuc}
use kadalu.Exec.{ok, err, sqlite_error}
use kadalu.Accounting.{int, PvRow, Tables, enter, get_stats}
use kadalu.Accounting.Client.{archive_pv_reservation}
use kadalu.Accounting.Rows.{AreValid}
use kadalu.Accounting.Refinement.{Request, serve_all, spec_all, view, serve_all-spec_all}
use kadalu.Accounting.Capacity.{stats_of, IsMoved, get_stats_lem, archive_conserves}

abbrev pool : Text
pool = code_points "pool"

abbrev volume : Text
volume = code_points "pvc-1"

abbrev archived : Text
archived = code_points "archived-pvc-1"

abbrev same_hash : Text → Text
same_hash s = s

abbrev empty : Tables
empty = record { summary = []; pv_stats = [] }

abbrev one_row : PvRow
one_row = record {
  pvname = volume;
  hash = volume;
  size = int (pos 10);
  created_at = 1;
  updated_at = 1;
}

abbrev one : Tables
one = record {
  summary = record { volname = pool; size = int (pos 100); created_at = 1; updated_at = 1 } ∷ [];
  pv_stats = one_row ∷ [];
}

-- A reservation of 10 bytes, archived later.
abbrev requests : List (ℕ × Request)
requests =
    (1, Request.update_free (ok tt) 1 volume (negsuc 9))
    ∷ (2, Request.archive (ok tt) 1 volume archived (int (pos 10)))
    ∷ []

serve_all-spec_all_example :
    AreValid (serve_all same_hash pool requests empty).pv_stats
    × (view (serve_all same_hash pool requests empty) ≡ spec_all requests (view empty))
serve_all-spec_all_example = serve_all-spec_all same_hash pool requests empty tt

get_stats_lem_example : get_stats (enter pool 1 one) ≡ (ok (stats_of one), enter pool 1 one)
get_stats_lem_example =
    get_stats_lem (enter pool 1 one) ((refl, omega arith), refl, tt) (refl, omega arith)

archive_conserves_example :
    IsMoved volume archived 9 one
      (archive_pv_reservation same_hash pool 2 (ok tt) 1 volume archived (int (pos 10)) one)
    × (archive_pv_reservation same_hash pool 2 (ok tt) 0 volume archived (int (pos 10)) one
        ≡ (err sqlite_error, one))
archive_conserves_example =
    archive_conserves same_hash pool volume archived 2 0 9 one ((refl, omega arith), refl, tt)
      (omega arith) refl refl
