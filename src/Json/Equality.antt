-- ===== src/Json/Equality.antt =====
-- Python's `==` on the values of JSON: dicts whatever their order, and `True == 1`.
use kadalu.Prelude.{
  ℕ, suc, Bool, true, false, ◌&&◌, ◌==◌, Option, none, some, text_eq, String, str_eq, str_eq_iff,
  ◌≡◌, and_true, Bool-cases, inl, inr, arith,
}
use kadalu.Prelude.Int.{ℤ, pos, eq_ℤ}
use kadalu.Json.{Json, Items, Fields, nil, cons, end, field, null, bool, int, str, arr, obj, get}

abbrev bit : Bool → ℤ
bit true = pos 1
bit false = pos 0

abbrev count : Fields → ℕ
count end = 0
count (field k v fs) = suc (count fs)

abbrev pub found : (Json → Bool) → Option Json → Bool
found p none = false
found p (some w) = p w

unfoldable mutual
  pub json_eq : Json → Json → Bool
  json_eq null null = true
  json_eq (bool a) (bool b) = eq_ℤ (bit a) (bit b)
  json_eq (bool a) (int n) = eq_ℤ (bit a) n
  json_eq (int m) (bool b) = eq_ℤ m (bit b)
  json_eq (int m) (int n) = eq_ℤ m n
  json_eq (str s) (str t) = text_eq s t
  json_eq (arr a) (arr b) = items_eq a b
  json_eq (obj a) (obj b) = count a == count b && fields_in a b
  json_eq _ _ = false

  items_eq : Items → Items → Bool
  items_eq nil nil = true
  items_eq (cons a xs) (cons b ys) = json_eq a b && items_eq xs ys
  items_eq _ _ = false

  -- Every field of the first has an equal value in the second.
  fields_in : Fields → Fields → Bool
  fields_in end other = true
  fields_in (field k v fs) other = found (json_eq v) (get k other) && fields_in fs other

-- `a == b` on dicts
unfoldable pub dict_eq : Fields → Fields → Bool
unfolding json_eq fields_in
dict_eq a b = count a == count b && fields_in a b

fields_in-get :
    (k : String) (a b : Fields) (x : Json)
    → fields_in a b ≡ true
    → get k a ≡ some x
    → found (json_eq x) (get k b) ≡ true
unfolding fields_in
fields_in-get k end b x h e = cc
fields_in-get k (field j v a) b x h e =
    let (first, rest) = and_true (found (json_eq v) (get j b)) (fields_in a b) h in
    elim (Bool-cases (str_eq j k)) [
      | inl same ↦ ground (arith, same, (str_eq_iff j k).0 same, first, e)
      | inr other ↦ fields_in-get k a b x rest (ground (arith, other, e))
    ]

-- A field of one of two equal dicts has an equal value in the other.
pub dict_eq-get :
    (k : String) (a b : Fields) (x : Json)
    → dict_eq a b ≡ true
    → get k a ≡ some x
    → found (json_eq x) (get k b) ≡ true
unfolding dict_eq
dict_eq-get k a b x h e =
    fields_in-get k a b x (and_true (count a == count b) (fields_in a b) h).1 e
