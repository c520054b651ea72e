-- ===== src/Hosting/Filters.antt =====
-- What the filters let through.
use kadalu.Prelude.{◌≡◌, true, Option, none, some, ◌⊎◌}
use kadalu.Exec.{Result, ok}
use kadalu.Json.{Json, Fields, get, equals_str}
use kadalu.Json.Equality.{json_eq}
use kadalu.Hosting.{at_key, first_host, wanted, or_else}

-- A wanted value is the one that was read.
abbrev pub IsWanted : Option Json → Result Json → Type 0
IsWanted none r = Unit
IsWanted (some v) r = (w : Json) × (r ≡ ok w) × (json_eq v w ≡ true)

abbrev pub IsAffine : Option Json → Fields → Type 0
IsAffine none volume = Unit
IsAffine (some v) volume =
    ((t : Json) × (at_key "type" volume ≡ ok t) × (equals_str "Replica1" (some t) ≡ true))
    × IsWanted (some v) (first_host (at_key "bricks" volume))

-- A volume without a kind supports all kinds, and so does one of the kind "all".
abbrev pub IsSupported : Option Json → Option Json → Type 0
IsSupported (some v) (some f) = (equals_str "all" (some v) ≡ true) ⊎ (json_eq f v ≡ true)
IsSupported _ _ = Unit

abbrev pub Suits : Fields → Fields → Type 0
Suits volume filters =
    IsAffine (wanted (get "node_affinity" filters)) volume
    × IsWanted (wanted (or_else (get "storage_type" filters) (get "hostvol_type" filters)))
        (at_key "type" volume)
    × IsSupported (get "supported_pvtype" volume) (wanted (get "supported_pvtype" filters))
