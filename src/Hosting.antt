-- ===== src/Hosting.antt =====
-- Which hosting volumes a request may use: the filters of csi/volumeutils.py.
pub mod Filters
use kadalu.Prelude.{
  String, Bool, true, false, not, ◌&&◌, ◌||◌, Option, none, some, List, [], ◌∷◌, Text, is_word,
  if◌then◌else◌,
}
use kadalu.Exec.{Result, ok, err, key_error, index_error, type_error}
use kadalu.Json.{Json, Items, nil, cons, Fields, get, equals_str}
use kadalu.Json.Equality.{json_eq}

-- `volume[k]`
abbrev pub at_key : String → Fields → Result Json
at_key k volume = elim (get k volume) [ none ↦ err key_error | some v ↦ ok v ]

abbrev hostname_of : Json → Result Json
hostname_of (Json.obj brick) = at_key "kube_hostname" brick
hostname_of _ = err type_error

abbrev first_item : Items → Result Json
first_item nil = err index_error
first_item (cons b bs) = hostname_of b

-- `bricks[0]["kube_hostname"]`
abbrev first_hostname : Json → Result Json
first_hostname (Json.arr bricks) = first_item bricks
first_hostname (Json.obj bricks) = err key_error
first_hostname (Json.str []) = err index_error
first_hostname _ = err type_error

abbrev pub first_host : Result Json → Result Json
first_host (err e) = err e
first_host (ok bricks) = first_hostname bricks

-- A filter that is absent, or None.
abbrev pub wanted : Option Json → Option Json
wanted none = none
wanted (some Json.null) = none
wanted (some v) = some v

abbrev pub is_value : Json → Result Json → Result Bool
is_value v (err e) = err e
is_value v (ok w) = ok (json_eq v w)

abbrev pub and_then : Result Bool → Result Bool → Result Bool
and_then (err e) r = err e
and_then (ok false) r = ok false
and_then (ok true) r = r

-- Each filter returns whether the volume passes.
abbrev pub affinity_of : Option Json → Fields → Result Bool
affinity_of none volume = ok true
affinity_of (some node_name) volume =
    and_then
      (elim (at_key "type" volume) [ err e ↦ err e | ok t ↦ ok (equals_str "Replica1" (some t)) ])
      (is_value node_name (first_host (at_key "bricks" volume)))

unfoldable pub filter_node_affinity : Fields → Fields → Result Bool
filter_node_affinity volume filters = affinity_of (wanted (get "node_affinity" filters)) volume

abbrev pub equals_wanted : Option Json → Result Json → Result Bool
equals_wanted none r = ok true
equals_wanted (some v) r = is_value v r

unfoldable filter_storage_name : Fields → Fields → Result Bool
filter_storage_name volume filters =
    equals_wanted (wanted (get "storage_name" filters)) (at_key "volname" volume)

abbrev pub or_else : Option Json → Option Json → Option Json
or_else none b = b
or_else (some a) b = some a

unfoldable pub filter_storage_type : Fields → Fields → Result Bool
filter_storage_type volume filters =
    equals_wanted (wanted (or_else (get "storage_type" filters) (get "hostvol_type" filters)))
      (at_key "type" volume)

abbrev pub supports : Option Json → Option Json → Bool
supports none f = true
supports (some v) none = true
supports (some v) (some f) = equals_str "all" (some v) || json_eq f v

unfoldable pub filter_supported_pvtype : Fields → Fields → Result Bool
filter_supported_pvtype volume filters =
    ok (supports (get "supported_pvtype" volume) (wanted (get "supported_pvtype" filters)))

-- The loop over the filter functions, for one volume's file; the first that fails ends it.
unfoldable pub passes_filters : Fields → Fields → Result Bool
unfolding filter_node_affinity filter_storage_type filter_supported_pvtype
passes_filters volume filters =
    and_then (filter_node_affinity volume filters)
      (and_then (filter_storage_type volume filters) (filter_supported_pvtype volume filters))

-- `volume.get("provisioning_disabled") is not True`
abbrev is_true : Option Json → Bool
is_true (some (Json.bool b)) = b
is_true _ = false

unfoldable new_volume_hosting_candidates : List Fields → List Fields
new_volume_hosting_candidates [] = []
new_volume_hosting_candidates (v ∷ vs) =
    let rest = new_volume_hosting_candidates vs in
    if not (is_true (get "provisioning_disabled" v)) then v ∷ rest else rest
