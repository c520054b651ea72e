-- ===== src/Controller/Retry.antt =====
-- Whether an existing volume answers a repeated CreateVolume, in csi/controllerserver.py.
use mathlib.Core.Path.{subst}
use kadalu.Prelude.{
  ◌≡◌, refl, Bool, true, false, not, ◌&&◌, ◌||◌, Option, none, some, [], Text, text_eq, String,
  is_word, arith, if◌then◌else◌, ◌⊎◌, inl, inr, ap, sym, Bool-cases, text_eq_iff, text_eq_refl,
  and_true, ◌∷◌,
}
use kadalu.Prelude.Int.{ℤ, pos, negsuc, ltb_ℤ}
use kadalu.Exec.{Result, ok, err}
use kadalu.Json.{Json, get, get_single_pv_per_pool}
use kadalu.Controller.{CapacityRange, CreateRequest, is_zero, requested_capacity}

-- What the check reads of an existing volume; the last three are those of an external pool.
pub record ExistingVolume : Type 0 where
  pub size : ℤ
  pub voltype : Text
  pub hostvol : Text
  pub hostvoltype : Text
  pub node_affinity : Option Text
  pub single_pv_per_pool : Bool
  pub ghost : Option Text
  pub gvolname : Option Text
  pub goptions : Option Text

-- `parameters.get(k)`: the values are strings.
abbrev text_of : Option Json → Option Text
text_of (some (Json.str s)) = some s
text_of _ = none

abbrev parameter : String → CreateRequest → Option Text
parameter k request = text_of (get k request.parameters)

abbrev pub or_else : Option Text → Option Text → Option Text
or_else none b = b
or_else (some a) b = some a

abbrev is_text : Option Text → Option Text → Bool
is_text none none = true
is_text (some a) (some b) = text_eq a b
is_text _ _ = false

-- `not (p and p != value)`
abbrev unset_or : Option Text → Option Text → Bool
unset_or none value = true
unset_or (some []) value = true
unset_or (some p) value = is_text (some p) value

-- A message field that is not set reads as its default: both bounds are 0.
abbrev range_of : Option CapacityRange → CapacityRange
range_of none = record { required_bytes = pos 0; limit_bytes = pos 0 }
range_of (some c) = c

abbrev fits : ℤ → CapacityRange → Bool
fits size c =
    not (ltb_ℤ size c.required_bytes)
    && not (not (is_zero c.limit_bytes) && ltb_ℤ c.limit_bytes size)

abbrev external_matches : ExistingVolume → CreateRequest → Bool
external_matches volume request =
    not (is_word "External" volume.hostvoltype)
    || is_text (parameter "gluster_hosts" request) volume.ghost
      && is_text (parameter "gluster_volname" request) volume.gvolname
      && is_text (or_else (parameter "gluster_options" request) (some [])) volume.goptions

abbrev same_flag : Bool → Result Bool → Result Bool
same_flag b (err e) = err e
same_flag true (ok c) = ok c
same_flag false (ok c) = ok (not c)

-- The tests behind that of the size.
abbrev pub same_place : ExistingVolume → CreateRequest → Text → Result Bool
same_place volume request pvtype =
    if text_eq volume.voltype pvtype
      && unset_or (parameter "storage_name" request) (some volume.hostvol)
      && unset_or (or_else (parameter "storage_type" request) (parameter "hostvol_type" request))
          (some volume.hostvoltype)
      && unset_or (parameter "node_affinity" request) volume.node_affinity
      && external_matches volume request
    then same_flag volume.single_pv_per_pool (get_single_pv_per_pool request.parameters)
    else ok false

unfoldable pub existing_volume_is_compatible : ExistingVolume → CreateRequest → Text → Result Bool
existing_volume_is_compatible volume request pvtype =
    if fits volume.size (range_of request.capacity_range)
    then same_place volume request pvtype
    else ok false

requested_fits :
    (m l d n : ℤ)
    → let c : CapacityRange = record { required_bytes = m; limit_bytes = l } in
      requested_capacity (some c) d ≡ some n → fits n c ≡ true
unfolding requested_capacity
requested_fits (pos m) (pos l) d (pos n) h = ground arith
requested_fits (pos m) (pos l) d (negsuc n) h = ground arith
requested_fits (pos m) (negsuc l) d n h = ground arith
requested_fits (negsuc m) l d n h = ground arith

measured_place :
    (volume : ExistingVolume) (request : CreateRequest) (c : CapacityRange) (pvtype : Text)
    (default_size : ℤ)
    → request.capacity_range ≡ some c
    → requested_capacity (some c) default_size ≡ some volume.size
    → existing_volume_is_compatible volume request pvtype ≡ same_place volume request pvtype
unfolding existing_volume_is_compatible
measured_place volume request c pvtype default_size given h =
    rw (given, requested_fits c.required_bytes c.limit_bytes default_size volume.size h) refl

-- A parameter that is absent or empty, or that is this value.
abbrev IsUnsetOr : Option Text → Option Text → Type 0
IsUnsetOr p value = (p ≡ none) ⊎ (p ≡ some []) ⊎ (p ≡ value)

abbrev IsSameExternal : ExistingVolume → CreateRequest → Type 0
IsSameExternal volume request =
    (is_word "External" volume.hostvoltype ≡ false)
    ⊎ (parameter "gluster_hosts" request ≡ volume.ghost)
      × (parameter "gluster_volname" request ≡ volume.gvolname)
      × (or_else (parameter "gluster_options" request) (some []) ≡ volume.goptions)

-- The volume's type, pool, storage type, affinity, external host and format are those of the request.
abbrev pub IsSamePlace : ExistingVolume → CreateRequest → Text → Type 0
IsSamePlace volume request pvtype =
    (volume.voltype ≡ pvtype)
    × IsUnsetOr (parameter "storage_name" request) (some volume.hostvol)
    × IsUnsetOr (or_else (parameter "storage_type" request) (parameter "hostvol_type" request))
        (some volume.hostvoltype)
    × IsUnsetOr (parameter "node_affinity" request) volume.node_affinity
    × IsSameExternal volume request
    × (get_single_pv_per_pool request.parameters ≡ ok volume.single_pv_per_pool)

is_text-eq : (a b : Option Text) → is_text a b ≡ true → a ≡ b
is_text-eq none none h = refl
is_text-eq (some a) (some b) h = ap some ((text_eq_iff a b).0 h)
is_text-eq none (some b) h = cc
is_text-eq (some a) none h = cc

is_text_refl : (a : Option Text) → is_text a a ≡ true
is_text_refl none = refl
is_text_refl (some a) = text_eq_refl a

unset_or-true : (p value : Option Text) → unset_or p value ≡ true → IsUnsetOr p value
unset_or-true none value h = inl refl
unset_or-true (some []) value h = inr (inl refl)
unset_or-true (some (c ∷ p)) value h = inr (inr (is_text-eq (some (c ∷ p)) value h))

unset_or_holds : (p value : Option Text) → IsUnsetOr p value → unset_or p value ≡ true
unset_or_holds p value (inl e) = rw e refl
unset_or_holds p value (inr (inl e)) = rw e refl
unset_or_holds none value (inr (inr e)) = refl
unset_or_holds (some []) value (inr (inr e)) = refl
unset_or_holds (some (c ∷ p)) value (inr (inr e)) = rw (sym e) (text_eq_refl (c ∷ p))

external-true :
    (volume : ExistingVolume) (request : CreateRequest)
    → external_matches volume request ≡ true
    → IsSameExternal volume request
external-true volume request h = elim (Bool-cases (is_word "External" volume.hostvoltype)) [
  | inr e ↦ inl e
  | inl e ↦
      let (a, rest) =
        and_true (is_text (parameter "gluster_hosts" request) volume.ghost) _
          (ground (arith, e, h)) in
      let (b, c) =
        and_true (is_text (parameter "gluster_volname" request) volume.gvolname) _ rest in
      inr (is_text-eq _ _ a, is_text-eq _ _ b, is_text-eq _ _ c)
]

external_holds :
    (volume : ExistingVolume) (request : CreateRequest)
    → IsSameExternal volume request
    → external_matches volume request ≡ true
external_holds volume request (inl e) = rw e refl
external_holds volume request (inr (a, b, c)) =
    rw (a, b, c)
      (ground (
        arith,
        is_text_refl volume.ghost,
        is_text_refl volume.gvolname,
        is_text_refl volume.goptions,
      ))

same_flag-true : (b : Bool) (r : Result Bool) → same_flag b r ≡ ok true → r ≡ ok b
same_flag-true b (err e) h = cc
same_flag-true true (ok c) h = h
same_flag-true false (ok true) h = cc
same_flag-true false (ok false) h = refl

same_flag_holds : (b : Bool) → same_flag b (ok b) ≡ ok true
same_flag_holds true = refl
same_flag_holds false = refl

-- The tests of the place, in one Boolean.
abbrev tests : ExistingVolume → CreateRequest → Text → Bool
tests volume request pvtype =
    text_eq volume.voltype pvtype
    && unset_or (parameter "storage_name" request) (some volume.hostvol)
    && unset_or (or_else (parameter "storage_type" request) (parameter "hostvol_type" request))
        (some volume.hostvoltype)
    && unset_or (parameter "node_affinity" request) volume.node_affinity
    && external_matches volume request

place-true :
    (volume : ExistingVolume) (request : CreateRequest) (pvtype : Text)
    → same_place volume request pvtype ≡ ok true
    → IsSamePlace volume request pvtype
place-true volume request pvtype h = elim (Bool-cases (tests volume request pvtype)) [
  | inr e ↦ absurd (refused (subst (λ b. answer b ≡ ok true) e h))
  | inl e ↦
      let (r3, f) = and_true _ (external_matches volume request) e in
      let (r2, d) =
        and_true _ (unset_or (parameter "node_affinity" request) volume.node_affinity) r3 in
      let (r1, c) =
        and_true _
          (unset_or (or_else (parameter "storage_type" request) (parameter "hostvol_type" request))
            (some volume.hostvoltype))
          r2 in
      let (a, b) =
        and_true (text_eq volume.voltype pvtype)
          (unset_or (parameter "storage_name" request) (some volume.hostvol)) r1 in
      (
        (text_eq_iff volume.voltype pvtype).0 a,
        unset_or-true _ _ b,
        unset_or-true _ _ c,
        unset_or-true _ _ d,
        external-true volume request f,
        same_flag-true volume.single_pv_per_pool _ (subst (λ x. answer x ≡ ok true) e h),
      )
]
  where
    answer : Bool → Result Bool
    answer b =
        if b
        then same_flag volume.single_pv_per_pool (get_single_pv_per_pool request.parameters)
        else ok false

    refused : ◌≡◌ {A = Result Bool} (ok false) (ok true) → ⊥
    refused e = cc

place_holds :
    (volume : ExistingVolume) (request : CreateRequest) (pvtype : Text)
    → IsSamePlace volume request pvtype
    → same_place volume request pvtype ≡ ok true
place_holds volume request pvtype (a, b, c, d, f, g) =
    rw
      (
        a,
        text_eq_refl pvtype,
        unset_or_holds _ _ b,
        unset_or_holds _ _ c,
        unset_or_holds _ _ d,
        external_holds volume request f,
        g,
      )
      (same_flag_holds volume.single_pv_per_pool)

-- A repeated create is never refused for its capacity: an existing volume of exactly the requested
-- capacity is compatible if and only if its type is the requested one, its pool, storage type and
-- affinity are those that the request names, if it names any, its host, volume and options are those
-- of the request, if its pool is an external one, and its format is the requested one.
pub compatible-requested :
    (volume : ExistingVolume) (request : CreateRequest) (c : CapacityRange) (pvtype : Text)
    (default_size : ℤ)
    → request.capacity_range ≡ some c
    → requested_capacity (some c) default_size ≡ some volume.size
    → (existing_volume_is_compatible volume request pvtype ≡ ok true
        → IsSamePlace volume request pvtype)
      × (IsSamePlace volume request pvtype
          → existing_volume_is_compatible volume request pvtype ≡ ok true)
compatible-requested volume request c pvtype default_size given h =
    rw (measured_place volume request c pvtype default_size given h)
      (place-true volume request pvtype, place_holds volume request pvtype)
