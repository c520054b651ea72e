-- ===== src/Operator/Bricks.antt =====
-- `options_validation` and `bricks_validation` of kadalu_operator/main.py.
pub mod Sound
use kadalu.Prelude.{
  ℕ, Bool, true, false, not, ◌&&◌, ◌||◌, ◌==◌, leb, Option, none, some, List, [], ◌∷◌, any, length,
  Text, String, text_eq, if◌then◌else◌,
}
use kadalu.PosixPath.{normpath, isabs, basename, is_nil}
use kadalu.Json.{Json, Items, Fields, nil, cons, get}
use kadalu.Operator.Labels.{
  alphanumeric, is_control, dns_subdomain, valid_label_value, strip, is_stripped,
}

abbrev option_character : ℕ → Bool
option_character c = alphanumeric c || (c == b'.' || (c == b'_' || c == b'-'))

-- `[A-Za-z0-9][A-Za-z0-9._-]*`
abbrev option_name : Text → Bool
option_name [] = false
option_name (c ∷ s) = alphanumeric c && not (any (λ d. not (option_character d)) s)

abbrev key_valid : Option Json → Bool
key_valid (some (Json.str key)) = is_stripped key && not (any is_control key) && option_name key
key_valid _ = false

abbrev value_valid : Option Json → Bool
value_valid (some (Json.str value)) = not (any is_control value)
value_valid _ = false

abbrev option_valid : Json → Bool
option_valid (Json.obj option) = key_valid (get "key" option) && value_valid (get "value" option)
option_valid _ = false

abbrev options_valid : Items → Bool
options_valid nil = true
options_valid (cons option options) = option_valid option && options_valid options

abbrev pub options_validation : Json → Bool
options_validation (Json.arr options) = options_valid options
options_validation _ = false

pub data Backing : Type 0 where
  pvc path device : Backing

-- What the set of identities holds for a brick.
pub data Identity : Type 0 where
  claim : Text → Identity
  at_node : Backing → Text → Text → Identity

-- One of the fields pvc, path, device: not given, given, or refused.
pub data Given : Type 0 where
  absent refused : Given
  given : Text → Given

abbrev text_given : Text → Given
text_given [] = absent
text_given (c ∷ s) =
    if is_stripped (c ∷ s) && not (any is_control (c ∷ s)) then given (c ∷ s) else refused

abbrev pub given_of : Option Json → Given
given_of none = absent
given_of (some Json.null) = absent
given_of (some (Json.str s)) = text_given s
given_of (some _) = refused

-- Exactly one of the three is given.
abbrev pub backing_of : Given → Given → Given → Option (Backing × Text)
backing_of (given v) absent absent = some (pvc, v)
backing_of absent (given v) absent = some (path, v)
backing_of absent absent (given v) = some (device, v)
backing_of _ _ _ = none

-- `none` is a refused node, `some none` one that is not supplied.
abbrev text_node : Text → Option (Option Text)
text_node [] = some none
text_node (c ∷ s) =
    if text_eq (c ∷ s) (strip (c ∷ s)) && valid_label_value (c ∷ s)
    then some (some (c ∷ s))
    else none

abbrev pub node_of : Option Json → Option (Option Text)
node_of none = some none
node_of (some Json.null) = some none
node_of (some (Json.str s)) = text_node s
node_of (some _) = none

abbrev is_device : Backing → Bool
is_device device = true
is_device _ = false

abbrev pub value_canonical : Backing → Text → Bool
value_canonical pvc value = leb (length value) 253 && dns_subdomain value
value_canonical backing value =
    isabs value
    && text_eq (normpath value) value
    && not (is_device backing && is_nil (basename value))

abbrev pub identity_of : Backing → Text → Option (Option Text) → Option Identity
identity_of backing value none = none
identity_of pvc value (some _) = some (claim value)
identity_of backing value (some none) = none
identity_of backing value (some (some name)) = some (at_node backing name value)

abbrev pub identity_from : Option (Backing × Text) → Option Json → Option Identity
identity_from none supplied = none
identity_from (some (backing, value)) supplied =
    if value_canonical backing value then identity_of backing value (node_of supplied) else none

-- The identity of a brick that passes the checks of its own fields.
unfoldable pub brick_identity : Json → Option Identity
unfolding normpath basename
brick_identity (Json.obj brick) =
    identity_from
      (backing_of (given_of (get "pvc" brick)) (given_of (get "path" brick))
        (given_of (get "device" brick)))
      (get "node" brick)
brick_identity _ = none

abbrev same_backing : Backing → Backing → Bool
same_backing pvc pvc = true
same_backing path path = true
same_backing device device = true
same_backing _ _ = false

abbrev pub same_identity : Identity → Identity → Bool
same_identity (claim a) (claim b) = text_eq a b
same_identity (at_node b n v) (at_node c m w) = same_backing b c && text_eq n m && text_eq v w
same_identity _ _ = false

abbrev pub identity_in : Identity → List Identity → Bool
identity_in i [] = false
identity_in i (j ∷ js) = same_identity j i || identity_in i js

-- `identities` are those of the bricks before.
abbrev pub bricks_from : List Identity → Items → Bool
bricks_from identities nil = true
bricks_from identities (cons brick bricks) = elim (brick_identity brick) [
  | none ↦ false
  | some i ↦ not (identity_in i identities) && bricks_from (i ∷ identities) bricks
]

unfoldable pub bricks_validation : Option Json → Bool
unfolding brick_identity
bricks_validation (some (Json.arr (cons brick bricks))) = bricks_from [] (cons brick bricks)
bricks_validation _ = false
