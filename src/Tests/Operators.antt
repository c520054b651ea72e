-- ===== src/Tests/Operators.antt =====
-- Storage resources and tolerations that the operator accepts.
use kadalu.Prelude.{◌≡◌, refl, some, true, false, Bool, List, [], ◌∷◌, Text, code_points, All}
use kadalu.Prelude.Int.{pos}
use kadalu.Exec.{ok}
use kadalu.Json.{Json, Fields, nil, cons, end, field, arr, obj, int, str}
use kadalu.PosixPath.{normpath}
use kadalu.Operator.Tolerations.{Toleration, normalize_tolerations, toleration_items, allowed}
use kadalu.Operator.Tolerations.Idempotent.{InBounds, normalize-normalize, normalize-InBounds}
use kadalu.Operator.Request.{validate_spec, storage_valid}
use kadalu.Operator.Request.Accepted.{IsAccepted, validate_spec-IsAccepted}

-- Two tolerations out of order, one of them twice.
abbrev on_key : Text → Json
on_key key = obj (
    field "key" (str key) (
      field "operator" (str (code_points "Exists")) (
        field "effect" (str (code_points "NoExecute"))
          (field "tolerationSeconds" (int (pos 300)) end))))

abbrev given : Json
given = arr (
    cons (on_key (code_points "b"))
      (cons (on_key (code_points "a")) (cons (on_key (code_points "b")) nil)))

abbrev exists : Text → Toleration
exists key = record {
  operator = code_points "Exists";
  key = key;
  effect = code_points "NoExecute";
  value = [];
  seconds = some (pos 300);
}

abbrev normalized : List Toleration
normalized = exists (code_points "a") ∷ exists (code_points "b") ∷ []

normalized_lem : normalize_tolerations (some given) ≡ ok normalized
unfolding normalize_tolerations allowed
normalized_lem = refl

normalize-normalize_example :
    normalize_tolerations (some (arr (toleration_items normalized))) ≡ ok normalized
normalize-normalize_example = normalize-normalize (some given) normalized normalized_lem

normalize-InBounds_example : All (λ t. InBounds t.seconds t.effect) normalized
normalize-InBounds_example = normalize-InBounds (some given) normalized normalized_lem

abbrev brick : Text → Text → Json
brick node path = obj (field "node" (str node) (field "path" (str path) end))

-- The same path on two nodes.
abbrev bricks : Json
bricks = arr (
    cons (brick (code_points "n1") (code_points "/d"))
      (cons (brick (code_points "n2") (code_points "/d")) nil))

abbrev never_ip : Text → Bool
never_ip host = false

abbrev spec : Fields
spec = field "type" (str (code_points "Replica2")) (field "storage" bricks end)

abbrev metadata : Json
metadata = obj (field "name" (str (code_points "pool")) end)

accepted : (validate_spec never_ip (some metadata) spec).0 ≡ ok true
unfolding validate_spec normpath storage_valid
accepted = refl

validate_spec-IsAccepted_example :
    IsAccepted never_ip (validate_spec never_ip (some metadata) spec).1
validate_spec-IsAccepted_example = validate_spec-IsAccepted never_ip (some metadata) spec accepted
