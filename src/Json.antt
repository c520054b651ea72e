-- ===== src/Json.antt =====
-- The values that `json.loads` gives, without floating-point numbers, and the reads that the code
-- makes of them with Python's rules: `True` is the int 1, and `in`, `==` compare by value.
pub mod Equality
use kadalu.Prelude.{
  Text, is_word, ℕ, ◌≡◌, refl, Bool, true, false, not, ◌&&◌, Option, none, some, ◌+◌, map, leb,
  String, str_eq, str_eq_iff, if◌then◌else◌, arith,
}
use kadalu.Prelude.Int.{ℤ, pos, eq_ℤ, ltb_ℤ}
use kadalu.Exec.{Result, ok, err, value_error}

mutual
  pub data Json : Type 0 where
    null : Json
    bool : Bool → Json
    int : ℤ → Json
    str : Text → Json
    arr : Items → Json
    obj : Fields → Json

  pub data Items : Type 0 where
    nil : Items
    cons : Json → Items → Items

  pub data Fields : Type 0 where
    end : Fields
    field : String → Json → Fields → Fields

-- `d.get(k)`; `none` is a missing key
abbrev pub get : String → Fields → Option Json
get k end = none
get k (field j v fs) = if str_eq j k then some v else get k fs

-- `d[k] = v`
abbrev pub put : String → Json → Fields → Fields
put k v end = field k v end
put k v (field j w fs) = if str_eq j k then field j v fs else field j w (put k v fs)

pub get-put :
    (k j : String) (v : Json) (fs : Fields)
    → get j (put k v fs) ≡ (if str_eq k j then some v else get j fs)
get-put k j v end = refl
get-put k j v (field i w fs) =
    ground (arith, str_eq_iff k j, str_eq_iff i k, str_eq_iff i j, get-put k j v fs)

-- `isinstance(v, int)`, a bool included
abbrev as_int : Option Json → Option ℤ
as_int (some (Json.int n)) = some n
as_int (some (Json.bool true)) = some (pos 1)
as_int (some (Json.bool false)) = some (pos 0)
as_int _ = none

abbrev int_is : ℤ → Option ℤ → Bool
int_is n none = false
int_is n (some m) = eq_ℤ n m

-- `v == n` for an int n
abbrev pub equals_int : ℤ → Option Json → Bool
equals_int n v = int_is n (as_int v)

abbrev int_positive : Option ℤ → Bool
int_positive none = false
int_positive (some n) = ltb_ℤ (pos 0) n

-- `isinstance(v, int) and v > 0`
abbrev pub is_positive : Option Json → Bool
is_positive v = int_positive (as_int v)

-- `v == s` for a str s
abbrev pub equals_str : String → Option Json → Bool
equals_str s (some (Json.str t)) = is_word s t
equals_str s _ = false

abbrev lower_char : ℕ → ℕ
lower_char c = if leb b'A' c && leb c b'Z' then c + 32 else c

-- `s.lower() == word`, for the words "native" and "true": no character outside ASCII has a lower
-- case with a letter of these.
abbrev pub lower_is : String → Text → Bool
lower_is word s = is_word word (map lower_char s)

abbrev flag_of : Option Json → Result Bool
flag_of none = ok false
flag_of (some (Json.str s)) = ok (lower_is "true" s)
flag_of (some (Json.bool b)) = ok b
flag_of (some _) = err value_error

abbrev single_pv_of : Option Json → Option Json → Result Bool
single_pv_of none flag = flag_of flag
single_pv_of (some Json.null) flag = flag_of flag
single_pv_of (some (Json.str s)) flag = ok (not (lower_is "native" s))
single_pv_of (some _) flag = err value_error

-- `get_single_pv_per_pool` of lib/kadalulib.py
abbrev pub get_single_pv_per_pool : Fields → Result Bool
get_single_pv_per_pool data_ =
    single_pv_of (get "kadalu_format" data_) (get "single_pv_per_pool" data_)
