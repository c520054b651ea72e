-- ===== src/Exec.antt =====
-- Python methods that change an object and may raise: what was written before a raise stays
-- written, so the state comes back beside the error too.
use kadalu.Prelude.{Bool, true, false, Text, ◌≡◌, refl, ◌⊎◌, inl, inr}

-- The exceptions that the modelled code raises.
pub data Error : Type 0 where
  value_error runtime_error sqlite_error os_error command_error overflow_error : Error
  -- HostingVolumeReconciliationError, a ValueError
  reconciliation_error : Error
  -- SinglePVPoolNotEmptyError, UnsupportedCapacityRangeError: ValueErrors
  pool_not_empty capacity_range : Error
  pool_claimed : Text → Error
  pool_retired : Text → Error
  legacy_unclaimed : Error
  -- InvalidVolumeCreateRequest of cli/kubectl_kadalu/storage_add_parser.py, and Python's own
  invalid_volume_create_request index_error key_error type_error : Error

pub data Result {ℓ} (A : Type ℓ) : Type ℓ where
  ok : A → Result A
  err : Error → Result A

abbrev pub Exec : Type 0 → Type 0 → Type 0
Exec S A = S → Result A × S

abbrev pub Done : Type 0
Done = Unit

module _ {S A : Type 0} where
  abbrev pub pure : A → Exec S A
  pure a s = (ok a, s)

  abbrev pub raise : Error → Exec S A
  raise e s = (err e, s)

  abbrev pub lift : Result A → Exec S A
  lift r s = (r, s)

  abbrev pub gets : (S → A) → Exec S A
  gets f s = (ok (f s), s)

abbrev pub modify : {S : Type 0} → (S → S) → Exec S Done
modify f s = (ok tt, f s)

abbrev pub continue : {S A B : Type 0} → (A → Exec S B) → Result A × S → Result B × S
continue f (ok a, s) = f a s
continue f (err e, s) = (err e, s)

infixl 5 ◌>>=◌ ◌>>◌
abbrev pub ◌>>=◌ : {S A B : Type 0} → Exec S A → (A → Exec S B) → Exec S B
◌>>=◌ m f s = continue f (m s)

abbrev pub ◌>>◌ : {S A B : Type 0} → Exec S A → Exec S B → Exec S B
m >> k = m >>= λ _. k

-- `if c: raise e`
abbrev pub raise_if : {S : Type 0} → Bool → Error → Exec S Done
raise_if true e s = (err e, s)
raise_if false e s = (ok tt, s)

-- The classes that `except ValueError` catches.
abbrev pub is_value_error : Error → Bool
is_value_error Error.value_error = true
is_value_error Error.reconciliation_error = true
is_value_error Error.pool_not_empty = true
is_value_error Error.capacity_range = true
is_value_error _ = false

Result-cases {ℓ} :
    {A : Type ℓ} (r : Result A) → ((a : A) × (r ≡ ok a)) ⊎ ((e : Error) × (r ≡ err e))
Result-cases (ok a) = inl (a, refl)
Result-cases (err e) = inr (e, refl)

-- A sequence that returns has passed through a state in which its first part returned.
pub bind_ok :
    {S A B : Type 0} (m : Exec S A) (f : A → Exec S B) (s : S) {b : B}
    → ((m >>= f) s).0 ≡ ok b
    → (a : A) × ((m s).0 ≡ ok a) × ((m >>= f) s ≡ f a (m s).1)
bind_ok {S} {A} {B} m f s {b} h = go (m s) h
  where
    go :
        (r : Result A × S)
        → (continue f r).0 ≡ ok b
        → (a : A) × (r.0 ≡ ok a) × (continue f r ≡ f a r.1)
    go (ok a, t) e = (a, refl, refl)
    go (err x, t) e = cc
