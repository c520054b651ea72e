-- ===== src/Intent/Expansion.antt =====
-- The durable expansion intents of csi/volumeutils.py: the exact target of an expansion, on disk
-- before a quota or a backing file grows.
use kadalu.Prelude.{
  ℕ, Bool, true, false, not, ◌&&◌, ◌||◌, ltb, Option, none, some, List, [], ◌∷◌, Text, text_eq,
  if◌then◌else◌,
}
use kadalu.Prelude.Int.{pos}
use kadalu.Exec.{
  Result, ok, err, value_error, Exec, Done, lift, gets, modify, pure, raise_if, ◌>>=◌, ◌>>◌,
}
use kadalu.PosixPath.{dirname}
use kadalu.Identifier.Legacy.{canonical_volume_paths}
use kadalu.Json.{Json, Fields, end, field, get, equals_int, str, int}
use kadalu.Json.Equality.{dict_eq, json_eq}
use kadalu.Intent.{Files, read_file, unlink, write_file, positive_int, valid_id, valid_pvtype}

-- EXPANSION_INTENT_VERSION is 1.
abbrev pub expansion_intent : Text → Text → Text → ℕ → ℕ → Fields
expansion_intent volume_id pvtype volpath from_size to_size =
    field "from_size" (int (pos from_size)) (
      field "path" (str volpath) (
        field "pvtype" (str pvtype) (
          field "to_size" (int (pos to_size))
            (field "version" (int (pos 1)) (field "volume_id" (str volume_id) end)))))

abbrev pub text_in : Text → List Text → Bool
text_in t [] = false
text_in t (u ∷ us) = text_eq t u || text_in t us

abbrev pub path_in : Text → Result (List Text) → Bool
path_in t (err e) = false
path_in t (ok paths) = text_in t paths

-- The path of a valid intent, which is also where the file stands.
abbrev pub at_path : Text → Option Json → Result (List Text) → Bool
at_path file_path (some (Json.str volpath)) paths =
    path_in volpath paths && text_eq file_path volpath
at_path file_path _ paths = false

module _ (hash : Text → Text) where
  abbrev pub expansion_of :
      Text → Fields → Option Text → Option Text → Option ℕ → Option ℕ → Result (Text × ℕ)
  expansion_of file_path intent (some volume_id) (some pvtype) (some from_size) (some to_size) =
      if equals_int (pos 1) (get "version" intent)
        && at_path file_path (get "path" intent) (canonical_volume_paths hash volume_id pvtype)
        && ltb from_size to_size
      then ok (volume_id, to_size)
      else err value_error
  expansion_of file_path intent _ _ _ _ = err value_error

  -- `_validate_expansion_intent`: the volume and the size that the intent reserves.
  unfoldable pub validate_expansion_intent : Text → Json → Result (Text × ℕ)
  validate_expansion_intent file_path (Json.obj intent) =
      expansion_of file_path intent (valid_id (get "volume_id" intent))
        (valid_pvtype (get "pvtype" intent)) (positive_int (get "from_size" intent))
        (positive_int (get "to_size" intent))
  validate_expansion_intent file_path _ = err value_error

  abbrev is_str : Option Json → Text → Bool
  is_str (some (Json.str s)) t = text_eq s t
  is_str _ t = false

  -- An intent that was validated, with the volume that the caller asks for.
  abbrev pub asked_for : Text → Text → Text → Json → Result (Text × ℕ) → Result (Option Fields)
  asked_for volume_id pvtype volpath (Json.obj intent) (ok _) =
      if is_str (get "volume_id" intent) volume_id
        && is_str (get "pvtype" intent) pvtype
        && is_str (get "path" intent) volpath
      then ok (some intent)
      else err value_error
  asked_for volume_id pvtype volpath v (ok _) = err value_error
  asked_for volume_id pvtype volpath v (err e) = err e

  -- A file that holds `null` reads as a missing one.
  abbrev pub expansion_read : Text → Text → Text → Option Json → Result (Option Fields)
  expansion_read volume_id pvtype volpath none = ok none
  expansion_read volume_id pvtype volpath (some Json.null) = ok none
  expansion_read volume_id pvtype volpath (some v) =
      asked_for volume_id pvtype volpath v (validate_expansion_intent volpath v)

  unfoldable pub read_volume_expansion_intent : Text → Text → Text → Exec Files (Option Fields)
  unfolding validate_expansion_intent
  read_volume_expansion_intent volume_id pvtype volpath files =
      (expansion_read volume_id pvtype volpath (read_file volpath files), files)

  abbrev or_same : Option Json → Text → Bool
  or_same none volume_id = true
  or_same v volume_id = is_str v volume_id

  abbrev is_none : Option Json → Bool
  is_none none = true
  is_none (some Json.null) = true
  is_none (some _) = false

  -- The metadata of the volume allows the expansion.
  abbrev metadata_allows : Text → Text → ℕ → ℕ → Option Json → Bool
  metadata_allows volume_id volpath from_size to_size (some (Json.obj metadata)) =
      (equals_int (pos from_size) (get "size" metadata)
        || equals_int (pos to_size) (get "size" metadata))
      && is_str (get "path_prefix" metadata) (dirname volpath)
      && or_same (get "volume_id" metadata) volume_id
      && is_none (get "state" metadata)
  metadata_allows volume_id volpath from_size to_size _ = false

  abbrev same_as : Fields → Option Json → Bool
  same_as expected none = false
  same_as expected (some v) = json_eq v (Json.obj expected)

  -- `_atomic_create_json`: an existing file, or one of another process (`race`), stays.
  abbrev pub create_expansion : Text → Fields → Option Json → Option Json → Exec Files Fields
  create_expansion volpath expected race (some existing) =
      raise_if (not (same_as expected (some existing))) value_error >> pure expected
  create_expansion volpath expected (some v) none =
      modify (write_file volpath v)
      >> (raise_if (not (same_as expected (some v))) value_error >> pure expected)
  create_expansion volpath expected none none =
      modify (write_file volpath (Json.obj expected)) >> pure expected

  -- `infos` are the volumes' metadata files.
  unfoldable pub prepare_volume_expansion :
      Files → Option Json → Text → Text → Text → ℕ → ℕ → Exec Files Fields
  unfolding canonical_volume_paths dirname json_eq
  prepare_volume_expansion infos race volume_id pvtype volpath from_size to_size = do
    paths ← lift (canonical_volume_paths hash volume_id pvtype)
    raise_if (not (text_in volpath paths)) value_error
    raise_if (not (metadata_allows volume_id volpath from_size to_size (read_file volpath infos)))
        value_error
    existing ← gets (read_file volpath)
    create_expansion volpath (expansion_intent volume_id pvtype volpath from_size to_size) race
        existing

  abbrev same_intent : Option Fields → Fields → Bool
  same_intent none intent = false
  same_intent (some current) intent = dict_eq current intent

  unfoldable pub finish_volume_expansion : Text → Text → Text → Fields → Exec Files Done
  unfolding read_volume_expansion_intent dict_eq
  finish_volume_expansion volume_id pvtype volpath intent = do
    current ← read_volume_expansion_intent volume_id pvtype volpath
    raise_if (not (same_intent current intent)) value_error
    modify (unlink volpath)
