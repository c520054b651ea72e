-- ===== src/Operator/Request/Accepted.antt =====
-- What holds of a storage resource that the validation accepts.
use kadalu.Prelude.{
  and_true, Bool, true, false, ◌&&◌, ◌≡◌, refl, Option, none, some, List, Text, Bool-cases, inl,
  inr, false≢true, code_points,
}
use kadalu.Exec.{Result, ok, err, Error}
use kadalu.Json.{Json, Fields, get, get-put, get_single_pv_per_pool, nil, arr}
use kadalu.Operator.Tolerations.{Toleration, normalize_tolerations, toleration_items}
use kadalu.Operator.Bricks.{options_validation, bricks_validation}
use kadalu.Operator.Bricks.Sound.{AreUsable, bricks_validation-AreUsable}
use kadalu.Operator.External.{validate_ext_details}
use kadalu.Operator.Names.{is_text, generated_resource_names_validation}
use kadalu.Operator.Request.{
  VolumeType, volume_type, known_policy, volume_id_valid, or_value, brick_list, subvol_bricks_count,
  layout_valid, storage_valid, typed, with_tolerations, tolerated, named, of_type, dedicated,
  validate_spec,
}
use kadalu.Operator.Request.Layout.{IsLaidOut, IsStored, layout_valid-IsLaidOut}

-- A stored volume's bricks can be used and make up its groups; an external one passed the validation of
-- its details.
abbrev pub Accepted : (Text → Bool) → VolumeType → Fields → Type 0
Accepted is_ip VolumeType.external spec = (validate_ext_details is_ip spec ≡ ok true)
Accepted is_ip voltype spec =
    AreUsable (get "storage" spec) × IsLaidOut voltype spec (brick_list (get "storage" spec))

stored-Accepted :
    (voltype : VolumeType) (spec : Fields)
    → IsStored voltype
    → storage_valid voltype spec ≡ true
    → AreUsable (get "storage" spec) × IsLaidOut voltype spec (brick_list (get "storage" spec))
unfolding storage_valid
stored-Accepted voltype spec stored h =
    let (front, layout) =
      and_true
        (options_validation (or_value (get "options" spec) (arr nil))
          && bricks_validation (get "storage" spec))
        (layout_valid voltype spec (subvol_bricks_count voltype spec)
          (brick_list (get "storage" spec)))
        h in
    (
      bricks_validation-AreUsable (get "storage" spec)
          (and_true (options_validation (or_value (get "options" spec) (arr nil)))
            (bricks_validation (get "storage" spec)) front).1,
      layout_valid-IsLaidOut voltype spec (brick_list (get "storage" spec)) stored layout,
    )

ok_true : (b : Bool) → ok b ≡ ok true → b ≡ true
ok_true b h = cc

refused : ok false ≡ ok true → ⊥
refused h = false≢true (ok_true false h)

raised : {A : Type 0} (e : Error) (b : Bool) → err e ≡ ok b → A
raised e b h = cc

module _ (is_ip : Text → Bool) where
  typed-Accepted :
      (voltype : VolumeType) (spec : Fields)
      → typed is_ip voltype spec ≡ ok true
      → Accepted is_ip voltype spec
  typed-Accepted VolumeType.external spec h = h
  typed-Accepted VolumeType.replica1 spec h =
      stored-Accepted VolumeType.replica1 spec tt (ok_true _ h)
  typed-Accepted VolumeType.replica2 spec h =
      stored-Accepted VolumeType.replica2 spec tt (ok_true _ h)
  typed-Accepted VolumeType.replica3 spec h =
      stored-Accepted VolumeType.replica3 spec tt (ok_true _ h)
  typed-Accepted VolumeType.disperse spec h =
      stored-Accepted VolumeType.disperse spec tt (ok_true _ h)
  typed-Accepted VolumeType.arbiter spec h =
      stored-Accepted VolumeType.arbiter spec tt (ok_true _ h)

  -- The returned spec has a known type and is accepted as one of this type.
  abbrev pub IsAccepted : Fields → Type 0
  IsAccepted spec =
      (voltype : VolumeType) × (volume_type (get "type" spec) ≡ some voltype)
      × Accepted is_ip voltype spec

  abbrev Outcome : Result Bool × Fields → Type 0
  Outcome r = r.0 ≡ ok true → IsAccepted r.1

  type_kept :
      (spec : Fields) (o : Option Json) (ts : List Toleration)
      → get "type" (with_tolerations is_ip spec o ts) ≡ get "type" spec
  type_kept spec none ts = refl
  type_kept spec (some v) ts = get-put "tolerations" "type" (arr (toleration_items ts)) spec

  tolerated-Outcome :
      (voltype : VolumeType) (spec : Fields) (r : Result (List Toleration))
      → volume_type (get "type" spec) ≡ some voltype
      → Outcome (tolerated is_ip voltype spec r)
  tolerated-Outcome voltype spec (err e) t h = absurd (refused h)
  tolerated-Outcome voltype spec (ok ts) t h =
      (voltype, rw (type_kept spec (get "tolerations" spec) ts) t, typed-Accepted voltype _ h)

  named-Outcome :
      (voltype : VolumeType) (spec : Fields) (r : Result Bool)
      → volume_type (get "type" spec) ≡ some voltype
      → Outcome (named is_ip voltype spec r)
  named-Outcome voltype spec (err e) t = λ h. raised e true h
  named-Outcome voltype spec (ok false) t = λ h. absurd (refused h)
  named-Outcome voltype spec (ok true) t =
      elim (Bool-cases (volume_id_valid (get "volume_id" spec))) [
        | inl e ↦
            rw e (tolerated-Outcome voltype spec (normalize_tolerations (get "tolerations" spec)) t)
        | inr e ↦ rw e (λ h. absurd (refused h))
      ]

  of_type-Outcome :
      (metadata : Option Json) (spec : Fields) (o : Option VolumeType)
      → volume_type (get "type" spec) ≡ o
      → Outcome (of_type is_ip metadata spec o)
  of_type-Outcome metadata spec none t = λ h. absurd (refused h)
  of_type-Outcome metadata spec (some voltype) t =
      named-Outcome voltype spec (generated_resource_names_validation metadata spec) t

  dedicated-Outcome :
      (metadata : Option Json) (spec : Fields) (r : Result Bool)
      → Outcome (dedicated is_ip metadata spec r)
  dedicated-Outcome metadata spec (err e) = λ h. raised e true h
  dedicated-Outcome metadata spec (ok single_pv) =
      elim (Bool-cases
        (single_pv && is_text (get "pvReclaimPolicy" spec) (code_points "archive"))) [
          | inl e ↦ rw e (λ h. absurd (refused h))
          | inr e ↦ rw e (of_type-Outcome metadata spec (volume_type (get "type" spec)) refl)
        ]

  -- The spec of an accepted resource has a known type. An external one passed the validation of its
  -- details. For any other there is at least one brick, each with a canonical backing, and no two have
  -- the same; the bricks are consecutive groups of the size that the type asks for, which for a
  -- disperse volume is an even number of data bricks and fewer redundancy bricks, at least one; and,
  -- except for arbiter volumes, each group is decommissioned as a whole or not at all.
  pub validate_spec-IsAccepted :
      (metadata : Option Json) (spec : Fields)
      → (validate_spec is_ip metadata spec).0 ≡ ok true
      → IsAccepted (validate_spec is_ip metadata spec).1
  unfolding validate_spec
  validate_spec-IsAccepted metadata spec =
      elim (Bool-cases (known_policy (get "pvReclaimPolicy" spec))) [
        | inl e ↦ rw e (dedicated-Outcome metadata spec (get_single_pv_per_pool spec))
        | inr e ↦ rw e (λ h. absurd (refused h))
      ]
