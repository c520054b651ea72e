-- ===== src/Operator/Names.antt =====
-- The names that are derived from a storage resource: `generated_resource_names_validation` of
-- kadalu_operator/main.py, with `storage_class_name`, `get_brick_hostname` and
-- `_dns_friendly_volname` as it calls them, on a name that is a DNS label.
use kadalu.Prelude.{
  ℕ, zero, suc, ◌+◌, ◌/◌, ◌%◌, Bool, true, false, ◌&&◌, ◌||◌, ◌==◌, ltb, leb, Option, none, some,
  [], ◌∷◌, ◌++◌, map, length, Text, text_eq, code_points, if◌then◌else◌,
}
use kadalu.Prelude.Int.{pos}
use kadalu.Exec.{Result, ok, err, type_error}
use kadalu.Json.{Json, Items, Fields, nil, cons, end, field, get}
use kadalu.Operator.Labels.{alphanumeric, dns_label, dns_subdomain}
use kadalu.Operator.External.{check}

abbrev digits_onto : ℕ → ℕ → Text → Text
digits_onto zero n s = s
digits_onto (suc fuel) n s = elim (ltb n 10) [
  | true ↦ (b'0' + n) ∷ s
  | false ↦ digits_onto fuel (n / 10) ((b'0' + n % 10) ∷ s)
]

-- `"%d" % n`
abbrev decimal : ℕ → Text
decimal n = digits_onto (suc n) n []

abbrev to_underscore : ℕ → ℕ
to_underscore c = if c == b'-' then b'_' else c

abbrev to_hyphen : ℕ → ℕ
to_hyphen c = if c == b'_' then b'-' else c

-- `re.sub(r'\W+', '', s)` on ASCII
abbrev word_characters : Text → Text
word_characters [] = []
word_characters (c ∷ s) =
    let rest = word_characters s in if alphanumeric c || c == b'_' then c ∷ rest else rest

abbrev dns_friendly_volname : Text → Text
dns_friendly_volname volname = map to_hyphen (word_characters (map to_underscore volname))

-- `get_brick_hostname(volname, idx, suffix=False)`
abbrev get_brick_hostname : Text → ℕ → Text
get_brick_hostname volname idx =
    code_points "server-" ++ dns_friendly_volname volname ++ b'-' ∷ decimal idx

abbrev pod_hostname : Text → ℕ → Text
pod_hostname volname idx = get_brick_hostname volname idx ++ code_points "-0"

abbrev pub short_label : Text → Bool
short_label s = leb (length s) 63 && dns_label s

-- The bricks from `idx` on, of which `left` are left.
abbrev hostnames_from : Text → ℕ → ℕ → Bool
hostnames_from volname idx zero = true
hostnames_from volname idx (suc left) =
    short_label (pod_hostname volname idx) && hostnames_from volname (suc idx) left

abbrev storage_class_name : Text → Option Json → Json
storage_class_name volname none = Json.str (code_points "kadalu." ++ volname)
storage_class_name volname (some Json.null) = Json.str (code_points "kadalu." ++ volname)
storage_class_name volname (some configured) = configured

abbrev class_name_valid : Json → Bool
class_name_valid (Json.str name) = leb (length name) 253 && dns_subdomain name
class_name_valid _ = false

abbrev item_count : Items → ℕ
item_count nil = 0
item_count (cons v vs) = suc (item_count vs)

abbrev field_count : Fields → ℕ
field_count end = 0
field_count (field k v fs) = suc (field_count fs)

-- How many elements `enumerate(storage or [])` has; a true number is no sequence.
abbrev storage_count : Option Json → Result ℕ
storage_count none = ok 0
storage_count (some Json.null) = ok 0
storage_count (some (Json.bool false)) = ok 0
storage_count (some (Json.bool true)) = err type_error
storage_count (some (Json.int (pos zero))) = ok 0
storage_count (some (Json.int n)) = err type_error
storage_count (some (Json.str s)) = ok (length s)
storage_count (some (Json.arr bricks)) = ok (item_count bricks)
storage_count (some (Json.obj fs)) = ok (field_count fs)

abbrev pub is_text : Option Json → Text → Bool
is_text (some (Json.str s)) t = text_eq s t
is_text _ t = false

abbrev hostnames_valid : Text → Result ℕ → Result Bool
hostnames_valid volname (err e) = err e
hostnames_valid volname (ok n) = ok (hostnames_from volname 0 n)

abbrev names_of : Fields → Option Json → Result Bool
names_of spec (some (Json.str volname)) = check (short_label volname) (
    check (class_name_valid (storage_class_name volname (get "storageClassName" spec))) (
      if is_text (get "type" spec) (code_points "External")
      then ok true
      else hostnames_valid volname (storage_count (get "storage" spec))))
names_of spec _ = ok false

unfoldable pub generated_resource_names_validation : Option Json → Fields → Result Bool
generated_resource_names_validation (some (Json.obj metadata)) spec =
    names_of spec (get "name" metadata)
generated_resource_names_validation _ spec = ok false
