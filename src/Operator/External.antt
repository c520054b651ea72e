-- ===== src/Operator/External.antt =====
-- `validate_ext_details`, `_valid_gluster_host` and `_valid_gluster_volume_path` of
-- kadalu_operator/main.py. Whether the hosts can be reached is only logged.
use kadalu.Prelude.{
  ℕ, Bool, true, false, not, ◌&&◌, ◌||◌, ◌==◌, leb, Option, none, some, List, [], ◌∷◌, any, all,
  map, length, Text, ◌+◌, if◌then◌else◌,
}
use kadalu.Prelude.Int.{pos}
use kadalu.Exec.{Result, ok, err, value_error}
use kadalu.Identifier.Bytes.{utf8_encode}
use kadalu.PosixPath.{split_on, is_nil, is_dot, is_dot_dot}
use kadalu.Json.{Json, Items, Fields, nil, cons, field, get}
use kadalu.Operator.Labels.{alphanumeric, is_control, dns_label, is_stripped}

-- The rest of a validation, unless a check has failed.
abbrev pub check : Bool → Result Bool → Result Bool
check true rest = rest
check false rest = ok false

abbrev lower_ascii : ℕ → ℕ
lower_ascii c = if leb b'A' c && leb c b'Z' then c + 32 else c

-- `s.rstrip(".")`
abbrev strip_dots : Text → Text
strip_dots [] = []
strip_dots (c ∷ s) = let rest = strip_dots s in if c == b'.' && is_nil rest then [] else c ∷ rest

abbrev host_label : Text → Bool
host_label label = leb (length label) 63 && dns_label label

-- `is_ip` is `ipaddress.ip_address`, which raises or not.
abbrev pub valid_gluster_host : (Text → Bool) → Text → Bool
valid_gluster_host is_ip host =
    not (any (λ c. c == b',') host || any (λ c. leb 128 c) host)
    && (is_ip host
        || leb (length host) 253
          && all host_label (split_on b'.' (strip_dots (map lower_ascii host))))

abbrev volname_start : ℕ → Bool
volname_start c = alphanumeric c || c == b'_'

-- `[A-Za-z0-9_][A-Za-z0-9_-]{0,255}`
abbrev gluster_name : Text → Bool
gluster_name [] = false
gluster_name (c ∷ s) =
    volname_start c && all (λ d. volname_start d || d == b'-') s && leb (length s) 255

abbrev fits_255 : Option (List ℕ) → Bool
fits_255 none = false
fits_255 (some bytes) = leb (length bytes) 255

abbrev subdirectory : Text → Bool
subdirectory component =
    not (is_nil component || (is_dot component || is_dot_dot component))
    && fits_255 (utf8_encode component)
    && not (any is_control component)

abbrev volume_components : List Text → Bool
volume_components [] = false
volume_components (name ∷ components) = gluster_name name && all subdirectory components

abbrev volume_path : Text → Option (List ℕ) → Result Bool
volume_path value none = err value_error
volume_path value (some bytes) =
    ok (leb (length bytes) 4096 && volume_components (split_on b'/' value))

unfoldable pub valid_gluster_volume_path : Text → Result Bool
valid_gluster_volume_path value = volume_path value (utf8_encode value)

abbrev host_valid : (Text → Bool) → Json → Bool
host_valid is_ip (Json.str host) = is_stripped host && valid_gluster_host is_ip host
host_valid is_ip _ = false

abbrev hosts_valid : (Text → Bool) → Items → Bool
hosts_valid is_ip nil = true
hosts_valid is_ip (cons host hosts) = host_valid is_ip host && hosts_valid is_ip hosts

abbrev listed_hosts : Option Json → Option Items
listed_hosts none = some nil
listed_hosts (some Json.null) = some nil
listed_hosts (some (Json.arr hosts)) = some hosts
listed_hosts (some _) = none

-- `gluster_host` is added, unless it is None or empty.
abbrev with_host : Option Json → Items → Items
with_host none hosts = hosts
with_host (some Json.null) hosts = hosts
with_host (some (Json.str [])) hosts = hosts
with_host (some host) hosts = cons host hosts

abbrev are_hosts : (Text → Bool) → Items → Bool
are_hosts is_ip nil = false
are_hosts is_ip hosts = hosts_valid is_ip hosts

abbrev hosts_given : (Text → Bool) → Option Json → Option Items → Bool
hosts_given is_ip host none = false
hosts_given is_ip host (some hosts) = are_hosts is_ip (with_host host hosts)

abbrev volname_given : Option Json → Result Bool
volname_given (some (Json.str name)) = check (is_stripped name) (valid_gluster_volume_path name)
volname_given _ = ok false

abbrev options_given : Option Json → Bool
options_given none = true
options_given (some (Json.str options)) = not (any is_control options)
options_given (some _) = false

-- A port: 24007 unless it is given, no bool.
abbrev pub port_given : Option Json → Option ℕ
port_given none = some 24007
port_given (some (Json.int (pos n))) = if leb 1 n && leb n 65535 then some n else none
port_given (some _) = none

abbrev pub is_some : {A : Type 0} → Option A → Bool
is_some none = false
is_some (some a) = true

abbrev after_volname : Fields → Result Bool → Result Bool
after_volname cluster (err e) = err e
after_volname cluster (ok valid) = check valid (
    check (options_given (get "gluster_options" cluster))
      (ok (is_some (port_given (get "gluster_port" cluster)))))

abbrev details_valid : (Text → Bool) → Option Json → Result Bool
details_valid is_ip (some (Json.obj (field k v more))) =
    let cluster = field k v more in
    check
      (hosts_given is_ip (get "gluster_host" cluster) (listed_hosts (get "gluster_hosts" cluster)))
      (after_volname cluster (volname_given (get "gluster_volname" cluster)))
details_valid is_ip _ = ok false

unfoldable pub validate_ext_details : (Text → Bool) → Fields → Result Bool
unfolding valid_gluster_volume_path
validate_ext_details is_ip spec = details_valid is_ip (get "details" spec)
