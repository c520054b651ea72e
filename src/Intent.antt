-- ===== src/Intent.antt =====
-- The durable intents of creates in csi/volumeutils.py: files under `info/` of a pool that reserve an
-- exact volume before anything else is changed; and `finish_committed_creation` of
-- csi/controllerserver.py.
pub mod Laws
pub mod Expansion
pub mod Positive
use kadalu.Prelude.{
  ℕ, zero, suc, ◌+◌, Bool, true, false, not, ◌&&◌, ◌||◌, ◌==◌, leb, ltb, Option, none, some, List,
  [], ◌∷◌, all, drop, take, length, Text, text_eq, is_word, code_points, if◌then◌else◌,
}
use kadalu.Prelude.Int.{ℤ, pos}
use kadalu.Exec.{
  Result, ok, err, value_error, Exec, Done, pure, raise, lift, gets, modify, raise_if, ◌>>=◌, ◌>>◌,
}
use kadalu.Identifier.{is_valid_csi_identifier}
use kadalu.Identifier.Paths.{get_volume_path}
use kadalu.Json.{Json, Fields, end, field, get, equals_int, null, str, int, obj}
use kadalu.Json.Equality.{dict_eq, json_eq}

-- Files by the path of the volume that they are about.
abbrev pub Files : Type 0
Files = List (Text × Json)

abbrev pub read_file : Text → Files → Option Json
read_file path [] = none
read_file path ((p, v) ∷ fs) = if text_eq p path then some v else read_file path fs

abbrev pub unlink : Text → Files → Files
unlink path [] = []
unlink path ((p, v) ∷ fs) =
    let rest = unlink path fs in if text_eq p path then rest else (p, v) ∷ rest

abbrev pub write_file : Text → Json → Files → Files
write_file path v fs = (path, v) ∷ unlink path fs

abbrev or_null : Option Json → Json
or_null none = null
or_null (some v) = v

-- `if incarnation is not None: intent["incarnation"] = incarnation`
abbrev incarnation_field : Option Json → Fields
incarnation_field none = end
incarnation_field (some Json.null) = end
incarnation_field (some v) = field "incarnation" v end

-- CREATION_INTENT_VERSION is 1.
abbrev pub volume_creation_intent : Text → Text → Text → Json → Option Json → Fields
volume_creation_intent volname pvtype volpath size incarnation = field "path" (str volpath) (
    field "pvtype" (str pvtype) (
      field "size" size (
        field "version" (int (pos 1))
          (field "volume_id" (str volname) (incarnation_field incarnation)))))

unfoldable pub creation_intent_matches : Fields → Text → Text → Text → Json → Bool
unfolding dict_eq
creation_intent_matches intent volume_id pvtype volpath size =
    dict_eq intent (volume_creation_intent volume_id pvtype volpath size (get "incarnation" intent))

-- `_positive_int`: no bool
abbrev pub positive_int : Option Json → Option ℕ
positive_int (some (Json.int (pos (suc n)))) = some (suc n)
positive_int _ = none

abbrev pub is_hex : ℕ → Bool
is_hex c = leb b'0' c && leb c b'9' || leb b'a' c && leb c b'f'

abbrev hyphen_then : Text → (Text → Bool) → Bool
hyphen_then [] k = false
hyphen_then (c ∷ s) k = c == b'-' && k s

abbrev hex_run : ℕ → Text → (Text → Bool) → Bool
hex_run zero s k = k s
hex_run (suc n) [] k = false
hex_run (suc n) (c ∷ s) k = is_hex c && hex_run n s k

abbrev at_end : Text → Bool
at_end [] = true
at_end (c ∷ s) = false

-- `str(uuid.UUID(value)) == value`: lower-case digits in groups of 8, 4, 4, 4 and 12.
unfoldable pub canonical_uuid : Text → Bool
canonical_uuid s = hex_run 8 s λ s₁. hyphen_then s₁ λ s₂. hex_run 4 s₂ λ s₃. hyphen_then s₃ λ s₄.
    hex_run 4 s₄
      λ s₅. hyphen_then s₅ λ s₆. hex_run 4 s₆ λ s₇. hyphen_then s₇ λ s₈. hex_run 12 s₈ at_end

abbrev pub valid_incarnation : Option Json → Bool
valid_incarnation none = true
valid_incarnation (some Json.null) = true
valid_incarnation (some (Json.str s)) = canonical_uuid s
valid_incarnation (some _) = false

abbrev pub valid_id : Option Json → Option Text
valid_id (some (Json.str s)) = if is_valid_csi_identifier s then some s else none
valid_id _ = none

-- PV_TYPE_SUBVOL, PV_TYPE_VIRTBLOCK, PV_TYPE_RAWBLOCK
abbrev pub valid_pvtype : Option Json → Option Text
valid_pvtype (some (Json.str s)) =
    if is_word "subvol" s || (is_word "virtblock" s || is_word "rawblock" s) then some s else none
valid_pvtype _ = none

abbrev is_path : Option Json → Text → Bool
is_path (some (Json.str p)) path = text_eq p path
is_path _ path = false

abbrev canonical_at : Text → Option Json → Result Text → Bool
canonical_at file_path recorded (err e) = false
canonical_at file_path recorded (ok canonical) =
    is_path recorded canonical && text_eq file_path canonical

module _ (hash : Text → Text) where
  -- The recorded path is the canonical one, and so is the file that the intent stands in.
  abbrev pub at_canonical_path : Text → Fields → Text → Text → Bool
  at_canonical_path file_path intent volume_id pvtype =
      canonical_at file_path (get "path" intent) (get_volume_path pvtype (hash volume_id) volume_id)

  abbrev pub creation_of : Text → Fields → Option Text → Option Text → Option ℕ → Result (Text × ℕ)
  creation_of file_path intent (some volume_id) (some pvtype) (some size) =
      if equals_int (pos 1) (get "version" intent)
        && valid_incarnation (get "incarnation" intent)
        && at_canonical_path file_path intent volume_id pvtype
      then ok (volume_id, size)
      else err value_error
  creation_of file_path intent _ _ _ = err value_error

  -- `_validate_creation_intent`: the identity and the size that the intent reserves.
  abbrev pub validate_creation_intent : Text → Json → Result (Text × ℕ)
  validate_creation_intent file_path (Json.obj intent) =
      creation_of file_path intent (valid_id (get "volume_id" intent))
        (valid_pvtype (get "pvtype" intent)) (positive_int (get "size" intent))
  validate_creation_intent file_path _ = err value_error

  abbrev pub matching_intent : Text → Text → Text → Json → Json → Result Fields
  matching_intent volume_id pvtype volpath size (Json.obj intent) =
      if creation_intent_matches intent volume_id pvtype volpath size
      then ok intent
      else err value_error
  matching_intent volume_id pvtype volpath size _ = err value_error

  abbrev pub checked_intent : Result (Text × ℕ) → Result Fields → Result Fields
  checked_intent (err e) matched = err e
  checked_intent (ok _) matched = matched

  abbrev size_field : Json → Json
  size_field (Json.obj intent) = or_null (get "size" intent)
  size_field _ = null

  abbrev some_result : Result Fields → Result (Option Fields)
  some_result (err e) = err e
  some_result (ok intent) = ok (some intent)

  -- A file that holds `null` reads as a missing one.
  abbrev creation_read : Text → Text → Text → Option Json → Result (Option Fields)
  creation_read volume_id pvtype volpath none = ok none
  creation_read volume_id pvtype volpath (some Json.null) = ok none
  creation_read volume_id pvtype volpath (some v) = some_result (
      checked_intent (validate_creation_intent volpath v)
        (matching_intent volume_id pvtype volpath (size_field v) v))

  unfoldable pub read_volume_creation_intent : Files → Text → Text → Text → Result (Option Fields)
  unfolding creation_intent_matches
  read_volume_creation_intent files volume_id pvtype volpath =
      creation_read volume_id pvtype volpath (read_file volpath files)

  abbrev pub is_canonical : Text → Text → Text → Bool
  is_canonical volume_id pvtype volpath = elim (get_volume_path pvtype (hash volume_id) volume_id) [
    | err e ↦ false
    | ok canonical ↦ text_eq volpath canonical
  ]

  abbrev pub pending : Text → Text → Text → ℕ → Json → Exec Files Fields
  pending volume_id pvtype volpath size existing = lift (
      checked_intent (validate_creation_intent volpath existing)
        (matching_intent volume_id pvtype volpath (int (pos size)) existing))

  -- `_atomic_create_json`: `race` is what another process has put at the path by then.
  abbrev pub create_intent : Option Json → Text → Text → Text → ℕ → Fields → Exec Files Fields
  create_intent none volume_id pvtype volpath size expected =
      modify (write_file volpath (obj expected)) >> pure expected
  create_intent (some v) volume_id pvtype volpath size expected =
      modify (write_file volpath v) >> pending volume_id pvtype volpath size v

  abbrev pub prepare_from :
      Text → Option Json → Text → Text → Text → ℕ → Option Json → Exec Files Fields
  prepare_from uuid race volume_id pvtype volpath size (some existing) =
      pending volume_id pvtype volpath size existing
  prepare_from uuid race volume_id pvtype volpath size none =
      create_intent race volume_id pvtype volpath size
        (volume_creation_intent volume_id pvtype volpath (int (pos size)) (some (str uuid)))

  -- `uuid` is the fresh `uuid.uuid4()`.
  unfoldable pub prepare_volume_creation :
      Text → Option Json → Text → Text → Text → ℕ → Exec Files Fields
  unfolding creation_intent_matches
  prepare_volume_creation uuid race volume_id pvtype volpath size = do
    raise_if (not (is_canonical volume_id pvtype volpath) || size == 0) value_error
    existing ← gets (read_file volpath)
    prepare_from uuid race volume_id pvtype volpath size existing

  abbrev pub same_intent : Option Fields → Fields → Bool
  same_intent none intent = false
  same_intent (some current) intent = dict_eq current intent

  unfoldable pub finish_volume_creation : Text → Text → Text → Fields → Exec Files Done
  unfolding read_volume_creation_intent
  finish_volume_creation volume_id pvtype volpath intent = do
    current ← (λ files. (read_volume_creation_intent files volume_id pvtype volpath, files))
    raise_if (not (same_intent current intent)) value_error
    modify (unlink volpath)

abbrev different_sizes : Option Json → Option Json → Bool
different_sizes a b = not (json_eq (or_null a) (or_null b))

abbrev other_generation : Json → Json → Bool
other_generation Json.null b = false
other_generation a Json.null = false
other_generation a b = not (json_eq a b)

unfoldable pub validate_committed_creation : Json → Json → Result Done
validate_committed_creation (Json.obj metadata) (Json.obj intent) =
    if different_sizes (get "size" metadata) (get "size" intent)
    then err value_error
    else if other_generation (or_null (get "incarnation" metadata))
        (or_null (get "incarnation" intent))
    then err value_error
    else ok tt
validate_committed_creation _ _ = err value_error

module _ (hash : Text → Text) where
  abbrev finish_found : Text → Text → Text → Json → Option Fields → Exec Files Done
  finish_found volname voltype volpath metadata none = pure tt
  finish_found volname voltype volpath metadata (some intent) =
      lift (validate_committed_creation metadata (Json.obj intent))
      >> finish_volume_creation hash volname voltype volpath intent

  -- `finish_committed_creation` of csi/controllerserver.py, on the volume's incarnation and size.
  unfoldable pub finish_committed_creation : Text → Text → Text → Json → ℕ → Exec Files Done
  unfolding validate_committed_creation
  finish_committed_creation volname voltype volpath incarnation size = do
    intent ← (λ files. (read_volume_creation_intent hash files volname voltype volpath, files))
    finish_found volname voltype volpath
        (Json.obj (field "incarnation" incarnation (field "size" (int (pos size)) end))) intent
