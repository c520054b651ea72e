-- ===== src/Accounting/Rows.antt =====
-- The rows of `pv_stats` under deletion and insertion, and the capacity that they reserve.
use kadalu.Prelude.{
  ℕ, suc, ◌+◌, ◌<◌, Text, ◌≡◌, refl, true, false, Option, none, some, List, [], ◌∷◌, ◌++◌,
  if◌then◌else◌, text_eq, text_eq_iff, arith, length, ap,
}
use kadalu.Prelude.Int.{pos}
use kadalu.Exec.{ok}
use kadalu.Accounting.{
  Cell, int, PvRow, without, find_pv, valid_size, valid_sizes, sum, fits_sqlite,
}

abbrev pub bytes : Cell → ℕ
bytes (int (pos n)) = n
bytes _ = 0

-- A positive integer.
abbrev pub IsSize : Cell → Type 0
IsSize c = (c ≡ int (pos (bytes c))) × (0 < bytes c)

-- Every size is a positive integer, and no name has two rows.
abbrev pub AreValid : List PvRow → Type 0
AreValid [] = Unit
AreValid (row ∷ rows) = IsSize row.size × (find_pv row.pvname rows ≡ none) × AreValid rows

abbrev pub bytes_of : Option PvRow → ℕ
bytes_of none = 0
bytes_of (some row) = bytes row.size

abbrev pub reserved : List PvRow → Text → ℕ
reserved rows pvname = bytes_of (find_pv pvname rows)

abbrev pub used : List PvRow → ℕ
used [] = 0
used (row ∷ rows) = bytes row.size + used rows

pub find_pv-without :
    (k j : Text) (rows : List PvRow)
    → find_pv j (without k rows) ≡ (if text_eq k j then none else find_pv j rows)
find_pv-without k j [] = ground arith
find_pv-without k j (row ∷ rows) = ground (
  arith,
  find_pv-without k j rows,
  text_eq_iff k row.pvname,
  text_eq_iff j row.pvname,
  text_eq_iff k j,
)

abbrev pub or_else : Option PvRow → Option PvRow → Option PvRow
or_else none b = b
or_else (some a) b = some a

pub find_pv-append :
    (j : Text) (rows : List PvRow) (row : PvRow)
    → find_pv j (rows ++ row ∷ [])
      ≡ or_else (find_pv j rows) (if text_eq j row.pvname then some row else none)
find_pv-append j [] row = refl
find_pv-append j (r ∷ rows) row = ground (arith, find_pv-append j rows row)

pub used-append :
    (rows : List PvRow) (row : PvRow) → used (rows ++ row ∷ []) ≡ used rows + bytes row.size
used-append [] row = omega arith
used-append (r ∷ rows) row = omega (arith, used-append rows row)

without-absent : (k : Text) (rows : List PvRow) → find_pv k rows ≡ none → without k rows ≡ rows
without-absent k [] h = refl
without-absent k (row ∷ rows) h = ground (arith, without-absent k rows)

pub used-without :
    (k : Text) (rows : List PvRow)
    → AreValid rows
    → used (without k rows) + reserved rows k ≡ used rows
used-without k [] h = omega arith
used-without k (row ∷ rows) h =
    ground (arith, used-without k rows h.2, without-absent k rows, text_eq_iff k row.pvname)

pub without-AreValid : (k : Text) (rows : List PvRow) → AreValid rows → AreValid (without k rows)
without-AreValid k [] h = tt
without-AreValid k (row ∷ rows) h =
    ground (arith, without-AreValid k rows h.2, find_pv-without k row.pvname rows)

pub append-AreValid :
    (rows : List PvRow) (row : PvRow)
    → AreValid rows
    → IsSize row.size
    → find_pv row.pvname rows ≡ none
    → AreValid (rows ++ row ∷ [])
append-AreValid [] row h s e = (s, refl, tt)
append-AreValid (r ∷ rows) row h s e = ground (
  arith,
  append-AreValid rows row h.2 s,
  find_pv-append r.pvname rows row,
  text_eq_iff r.pvname row.pvname,
  text_eq_iff row.pvname r.pvname,
)

-- What `get_stats` reads from valid rows.
abbrev row_sizes : List PvRow → List ℕ
row_sizes [] = []
row_sizes (row ∷ rows) = bytes row.size ∷ row_sizes rows

pub valid_size-bytes : (c : Cell) → IsSize c → valid_size false c ≡ ok (bytes c)
unfolding valid_size
valid_size-bytes c h = ground arith

pub valid_sizes-row_sizes :
    (rows : List PvRow) → AreValid rows → valid_sizes rows ≡ ok (row_sizes rows)
valid_sizes-row_sizes [] h = refl
valid_sizes-row_sizes (row ∷ rows) h =
    ground (arith, valid_size-bytes row.size h.0, valid_sizes-row_sizes rows h.2)

pub sum-row_sizes : (rows : List PvRow) → sum (row_sizes rows) ≡ used rows
sum-row_sizes [] = refl
sum-row_sizes (row ∷ rows) = omega (arith, sum-row_sizes rows)

pub length-row_sizes : (rows : List PvRow) → length (row_sizes rows) ≡ length rows
length-row_sizes [] = refl
length-row_sizes (row ∷ rows) = ap suc (length-row_sizes rows)

-- A row that is found is one of the valid ones.
pub find-IsSize :
    (k : Text) (rows : List PvRow) (row : PvRow)
    → AreValid rows
    → find_pv k rows ≡ some row
    → IsSize row.size
find-IsSize k [] row h e = cc
find-IsSize k (r ∷ rows) row h e = ground (arith, find-IsSize k rows row h.2)

-- A parameter below 2^63 is bound.
pub fits_sqlite_lem : (n : ℕ) → n < 9223372036854775808 → fits_sqlite n ≡ true
unfolding fits_sqlite
fits_sqlite_lem n h = ground arith
