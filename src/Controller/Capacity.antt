-- ===== src/Controller/Capacity.antt =====
-- The capacity that a request asks for.
use kadalu.Prelude.{
  zero, suc, ◌≡◌, ◌⊎◌, inl, inr, Option, none, some, true, false, arith, Bool-cases, ltb,
}
use kadalu.Prelude.Int.{ℤ, pos, negsuc, ◌≤ℤ◌, ◌<ℤ◌}
use kadalu.Controller.{CapacityRange, valid_expansion_request_shape, requested_capacity}

abbrev pub IsRequested : CapacityRange → Option ℤ → Type 0
IsRequested c (some n) =
    (valid_expansion_request_shape (some c) ≡ true)
    × (pos 0 <ℤ n)
    × (c.required_bytes ≤ℤ n)
    × ((c.limit_bytes ≡ pos 0) ⊎ (n ≤ℤ c.limit_bytes))
IsRequested c none = (valid_expansion_request_shape (some c) ≡ false)

range_cases :
    (m l d : ℤ)
    → let c : CapacityRange = record { required_bytes = m; limit_bytes = l } in
      IsRequested c (requested_capacity (some c) d)
unfolding requested_capacity valid_expansion_request_shape
range_cases (pos zero) (pos zero) d = ground arith
range_cases (pos zero) (pos (suc n)) d = ground arith
range_cases (pos (suc m)) (pos zero) d = ground arith
range_cases (pos (suc m)) (pos (suc n)) d = elim (Bool-cases (ltb (suc n) (suc m))) [
  | inl e ↦ ground (arith, e)
  | inr e ↦ ground (arith, e)
]
range_cases (pos m) (negsuc n) d = ground arith
range_cases (negsuc m) l d = ground arith

-- A capacity range is refused exactly when its shape is invalid; otherwise the requested capacity is
-- positive, at least the required bytes, and at most the limit, if there is one.
pub requested_capacity-IsRequested :
    (c : CapacityRange) (default_size : ℤ)
    → IsRequested c (requested_capacity (some c) default_size)
requested_capacity-IsRequested c default_size =
    range_cases c.required_bytes c.limit_bytes default_size
