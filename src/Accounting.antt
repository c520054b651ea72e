-- ===== src/Accounting.antt =====
-- class SizeAccounting of lib/kadalulib.py: the tables of one pool's stat.db, a connection with
-- its transaction, and the operations on them.
pub mod Rows
pub mod Client
pub mod Laws
pub mod Refinement
pub mod Capacity
use kadalu.Prelude.{
  ℕ, zero, suc, ◌+◌, Text, Bool, true, false, Option, none, some, List, [], ◌∷◌, ◌++◌, length,
  if◌then◌else◌, text_eq, ltb,
}
use kadalu.Prelude.Int.{ℤ, pos, sub_ℕ}
use kadalu.Exec.{
  value_error, runtime_error, sqlite_error, overflow_error, Result, ok, err, Exec, Done, pure, lift,
  modify, ◌>>=◌, ◌>>◌,
}

-- What a column or a caller holds as a size; `other` is any value that is no Python int, or a bool.
pub data Cell : Type 0 where
  int : ℤ → Cell
  other : Cell

-- A row of `pv_stats` or of `summary`; times are readings of SQLite's clock.
pub record PvRow : Type 0 where
  pub pvname : Text
  pub hash : Text
  pub size : Cell
  pub created_at : ℕ
  pub updated_at : ℕ

pub record SummaryRow : Type 0 where
  pub volname : Text
  pub size : Cell
  pub created_at : ℕ
  pub updated_at : ℕ

pub record Tables : Type 0 where
  pub summary : List SummaryRow
  pub pv_stats : List PvRow

-- The committed file, what this connection sees, and `_transaction_active`. SQLite grants so many
-- commits more to this connection: the one after them meets another process's lock and raises. A
-- lock that is met by the statement before has the same effect, since what is not committed is lost.
pub record SizeAccounting : Type 0 where
  pub volname : Text
  pub disk : Tables
  pub work : Tables
  pub transaction_active : Bool
  pub grants : ℕ

-- `__init__` and `__enter__`: a new connection sees the committed tables.
abbrev pub enter : Text → ℕ → Tables → SizeAccounting
enter volname grants disk = record {
  volname = volname;
  disk = disk;
  work = disk;
  transaction_active = false;
  grants = grants;
}

-- `_commit`, by whether a transaction owns the commit and by the commits that are still granted.
abbrev pub commit_by : Bool → ℕ → Exec SizeAccounting Done
commit_by true grants acc = (ok tt, acc)
commit_by false zero acc = (err sqlite_error, acc)
commit_by false (suc grants) acc = (ok tt, record acc { disk = acc.work; grants = grants })

unfoldable pub commit : Exec SizeAccounting Done
commit acc = commit_by acc.transaction_active acc.grants acc

-- A COMMIT that raises is not rolled back: the connection keeps its writes, the file does not get
-- them.
abbrev pub end_commit : {A : Type 0} → A → ℕ → SizeAccounting → Result A × SizeAccounting
end_commit a zero acc = (err sqlite_error, record acc { transaction_active = false })
end_commit a (suc grants) acc =
    (ok a, record acc { disk = acc.work; transaction_active = false; grants = grants })

-- How `immediate_transaction` ends: commit, or rollback and raise again.
abbrev pub end_transaction : {A : Type 0} → Result A × SizeAccounting → Result A × SizeAccounting
end_transaction (ok a, acc) = end_commit a acc.grants acc
end_transaction (err e, acc) = (err e, record acc { work = acc.disk; transaction_active = false })

-- `busy`: SQLite refuses `BEGIN IMMEDIATE`, since another connection holds the write lock.
unfoldable pub immediate_transaction :
    {A : Type 0} → Bool → Exec SizeAccounting A → Exec SizeAccounting A
immediate_transaction busy body acc =
    if acc.transaction_active
    then (err runtime_error, acc)
    else if busy
    then (err sqlite_error, acc)
    else end_transaction (body (record acc { transaction_active = true }))

-- `with SizeAccounting(volname, path) as acc: body` on the file `disk`; what was not committed is
-- lost when the connection closes.
unfoldable pub with_accounting : {A : Type 0} → Text → ℕ → Exec SizeAccounting A → Exec Tables A
with_accounting volname grants body disk =
    let (r, acc) = body (enter volname grants disk) in (r, acc.disk)

-- `_valid_size`; the size that it returns is never negative.
unfoldable pub valid_size : Bool → Cell → Result ℕ
valid_size allow_zero (int (pos (suc n))) = ok (suc n)
valid_size allow_zero (int (pos zero)) = if allow_zero then ok 0 else err value_error
valid_size allow_zero _ = err value_error

-- SQLite's integers have 64 bits with a sign; the sqlite3 module raises OverflowError for a parameter
-- outside of them.
unfoldable pub fits_sqlite : ℕ → Bool
fits_sqlite n = ltb n 9223372036854775808

abbrev pub bound : ℕ → Result Done
bound n = if fits_sqlite n then ok tt else err overflow_error

-- DELETE FROM pv_stats WHERE pvname = ?
abbrev pub without : Text → List PvRow → List PvRow
without pvname [] = []
without pvname (row ∷ rows) =
    let rest = without pvname rows in if text_eq pvname row.pvname then rest else row ∷ rest

-- DELETE FROM pv_stats WHERE pvname IN (?, ?)
abbrev pub without_both : Text → Text → List PvRow → List PvRow
without_both old_name new_name rows = without old_name (without new_name rows)

abbrev without_summary : Text → List SummaryRow → List SummaryRow
without_summary volname [] = []
without_summary volname (row ∷ rows) =
    let rest = without_summary volname rows in
    if text_eq volname row.volname then rest else row ∷ rest

-- SELECT … FROM pv_stats WHERE pvname = ?, and its first record
abbrev pub find_pv : Text → List PvRow → Option PvRow
find_pv pvname [] = none
find_pv pvname (row ∷ rows) = if text_eq pvname row.pvname then some row else find_pv pvname rows

abbrev find_summary : Text → List SummaryRow → Option SummaryRow
find_summary volname [] = none
find_summary volname (row ∷ rows) =
    if text_eq volname row.volname then some row else find_summary volname rows

-- COALESCE((SELECT created_at …), datetime('now', 'localtime'))
abbrev created_of : Option PvRow → ℕ → ℕ
created_of none now = now
created_of (some row) now = row.created_at

abbrev created_of_summary : Option SummaryRow → ℕ → ℕ
created_of_summary none now = now
created_of_summary (some row) now = row.created_at

-- INSERT OR REPLACE: the old row goes, and the new one gets the largest rowid.
abbrev pub replace_summary : Text → ℕ → ℕ → Tables → Tables
replace_summary volname size now t = record t {
  summary =
      without_summary volname t.summary
      ++ record {
        volname = volname;
        size = int (pos size);
        created_at = created_of_summary (find_summary volname t.summary) now;
        updated_at = now;
      }
        ∷ [];
}

unfoldable pub update_summary : ℕ → Cell → Exec SizeAccounting Done
unfolding valid_size commit
update_summary now size = do
  n ← lift (valid_size false size)
  lift (bound n)
  modify (λ acc. record acc { work = replace_summary acc.volname n now acc.work })
  commit

-- The sizes of all rows, each validated; the first bad one raises.
abbrev pub valid_sizes : List PvRow → Result (List ℕ)
valid_sizes [] = ok []
valid_sizes (row ∷ rows) = elim (valid_size false row.size) [
  | err e ↦ err e
  | ok n ↦ elim (valid_sizes rows) [ err e ↦ err e | ok ns ↦ ok (n ∷ ns) ]
]

abbrev pub sum : List ℕ → ℕ
sum [] = 0
sum (n ∷ ns) = n + sum ns

pub record Stats : Type 0 where
  pub number_of_pvs : ℕ
  pub total_size_bytes : ℕ
  pub used_size_bytes : ℕ
  pub free_size_bytes : ℤ

-- The first record of `SELECT volname, size FROM summary`.
abbrev pub total_of : List SummaryRow → Result ℕ
total_of [] = ok 0
total_of (row ∷ rows) = valid_size false row.size

-- `hash` is xxhash's digest of the name (third-party), see `get_volname_hash`.
module _ (hash : Text → Text) where
  abbrev pub replace_pv : Text → ℕ → ℕ → Tables → Tables
  replace_pv pvname size now t = record t {
    pv_stats =
        without pvname t.pv_stats
        ++ record {
          pvname = pvname;
          hash = hash pvname;
          size = int (pos size);
          created_at = created_of (find_pv pvname t.pv_stats) now;
          updated_at = now;
        }
          ∷ [];
  }

  unfoldable pub update_pv_record : ℕ → Text → Cell → Exec SizeAccounting Done
  unfolding valid_size commit
  update_pv_record now pvname size = do
    n ← lift (valid_size false size)
    lift (bound n)
    modify (λ acc. record acc { work = replace_pv pvname n now acc.work })
    commit

  -- INSERT INTO pv_stats: a new row, which keeps no creation time.
  abbrev pub insert_pv : Text → ℕ → ℕ → Tables → Tables
  insert_pv new_name size now t = record t {
    pv_stats =
        t.pv_stats
        ++ record {
          pvname = new_name;
          hash = hash new_name;
          size = int (pos size);
          created_at = now;
          updated_at = now;
        }
          ∷ [];
  }

  -- The DELETE of both names and the INSERT.
  abbrev pub move_pv : Text → Text → ℕ → ℕ → Tables → Tables
  move_pv old_name new_name size now t =
      insert_pv new_name size now
        (record t { pv_stats = without_both old_name new_name t.pv_stats })

  unfoldable pub rename_pv_record : ℕ → Text → Text → Cell → Exec SizeAccounting Done
  unfolding valid_size commit
  rename_pv_record now old_name new_name size = do
    n ← lift (valid_size false size)
    modify (λ acc. record acc {
      work = record acc.work { pv_stats = without_both old_name new_name acc.work.pv_stats };
    })
    lift (bound n)
    modify (λ acc. record acc { work = insert_pv new_name n now acc.work })
    commit

unfoldable pub remove_pv_record : Text → Exec SizeAccounting Done
unfolding commit
remove_pv_record pvname = do
  modify
      (λ acc. record acc { work = record acc.work { pv_stats = without pvname acc.work.pv_stats } })
  commit

abbrev pub size_of : Option PvRow → Result ℕ
size_of none = ok 0
size_of (some row) = valid_size false row.size

unfoldable pub get_pv_size : Text → Exec SizeAccounting ℕ
unfolding valid_size
get_pv_size pvname acc = (size_of (find_pv pvname acc.work.pv_stats), acc)

unfoldable pub get_stats : Exec SizeAccounting Stats
unfolding valid_size
get_stats = do
  sizes ← (λ acc. (valid_sizes acc.work.pv_stats, acc))
  total ← (λ acc. (total_of acc.work.summary, acc))
  pure (record {
    number_of_pvs = length sizes;
    total_size_bytes = total;
    used_size_bytes = sum sizes;
    free_size_bytes = sub_ℕ total (sum sizes);
  })
