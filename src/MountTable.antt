-- ===== src/MountTable.antt =====
-- The mount tables of procfs as csi/volumeutils.py reads them, and the mount options that it accepts.
-- A table is given by its lines.
pub mod Flags
use kadalu.Prelude.{
  ℕ, zero, suc, ◌+◌, ◌*◌, ◌-◌, ◌<◌, Bool, true, false, not, ◌&&◌, ◌||◌, ◌==◌, ltb, leb, Option,
  none, some, List, [], ◌∷◌, ◌++◌, any, all, map, length, Text, text_eq, starts_with, is_word,
  code_points, drop, if◌then◌else◌,
}
use kadalu.Exec.{Result, ok, err, value_error}
use kadalu.PosixPath.{split_on, join_with, is_nil, normpath, cut_last, reverse_onto}
use kadalu.Json.{Json, Items, nil, cons}
use kadalu.Operator.Labels.{alphanumeric, is_space}

abbrev pub is_octal : ℕ → Bool
is_octal c = leb b'0' c && leb c b'7'

abbrev digit : ℕ → ℕ
digit c = c - b'0'

abbrev pub octal_value : ℕ → ℕ → ℕ → ℕ
octal_value a b c = 64 * digit a + 8 * digit b + digit c

-- `_unescape_mount_field`: a match of `\\([0-7]{3})` is replaced, and the search goes on behind it.
abbrev pub unescape_mount_field : Text → Text
unescape_mount_field (e ∷ a ∷ b ∷ c ∷ s) =
    elim (e == b'\\' && (is_octal a && (is_octal b && is_octal c))) [
      | true ↦ octal_value a b c ∷ unescape_mount_field s
      | false ↦ e ∷ unescape_mount_field (a ∷ b ∷ c ∷ s)
    ]
unescape_mount_field s = s

abbrev push_word : Bool → Text → List Text → List Text
push_word true word words = words
push_word false word words = word ∷ words

-- `s.split()`; `word` is the word so far, in reverse.
abbrev words_from : Text → Text → List Text
words_from word [] = push_word (is_nil word) (reverse_onto word []) []
words_from word (c ∷ s) = elim (is_space c) [
  | true ↦ push_word (is_nil word) (reverse_onto word []) (words_from [] s)
  | false ↦ words_from (c ∷ word) s
]

abbrev pub words : Text → List Text
words s = words_from [] s

-- One entry; the options are sets.
pub record MountEntry : Type 0 where
  pub device : Text
  pub root : Text
  pub target : Text
  pub options : List Text
  pub fstype : Text
  pub source : Text
  pub super_options : List Text

abbrev map_suc : Option ℕ → Option ℕ
map_suc none = none
map_suc (some n) = some (suc n)

-- `fields.index("-")`
abbrev index_of_dash : List Text → Option ℕ
index_of_dash [] = none
index_of_dash (f ∷ fields) =
    let rest = index_of_dash fields in if is_word "-" f then some 0 else map_suc rest

abbrev nth : List Text → ℕ → Text
nth [] n = []
nth (f ∷ fields) zero = f
nth (f ∷ fields) (suc n) = nth fields n

abbrev entry_at : List Text → Option ℕ → Option MountEntry
entry_at fields none = none
entry_at fields (some separator) =
    if ltb separator 6 || ltb (length fields) (separator + 4)
    then none
    else some (record {
      device = nth fields 2;
      root = normpath (unescape_mount_field (nth fields 3));
      target = normpath (unescape_mount_field (nth fields 4));
      options = split_on b',' (nth fields 5);
      fstype = nth fields (separator + 1);
      source = unescape_mount_field (nth fields (separator + 2));
      super_options = split_on b',' (nth fields (separator + 3));
    })

abbrev entry_of : Text → Option MountEntry
entry_of line = entry_at (words line) (index_of_dash (words line))

abbrev add_entry : {A : Type 0} → Option A → List A → List A
add_entry none entries = entries
add_entry (some entry) entries = entry ∷ entries

-- `_read_mountinfo`, on the lines of the file
unfoldable pub read_mountinfo : List Text → List MountEntry
unfolding normpath
read_mountinfo [] = []
read_mountinfo (line ∷ lines) = add_entry (entry_of line) (read_mountinfo lines)

abbrev last_at : Text → List MountEntry → Option MountEntry
last_at target [] = none
last_at target (entry ∷ entries) = elim (last_at target entries) [
  | some found ↦ some found
  | none ↦ if text_eq entry.target target then some entry else none
]

-- `_target_mount_entry`; `mountpoint` is absolute.
abbrev pub target_mount_entry : List Text → Text → Option MountEntry
target_mount_entry lines mountpoint = last_at (normpath mountpoint) (read_mountinfo lines)

abbrev is_some : {A : Type 0} → Option A → Bool
is_some none = false
is_some (some a) = true

abbrev pub target_path_is_mounted : List Text → Text → Bool
target_path_is_mounted lines mountpoint = is_some (target_mount_entry lines mountpoint)

-- `source.startswith("kadalu:")` and `source.split(":", maxsplit=2)`
abbrev is_kadalu : Text → Bool
is_kadalu source = starts_with (code_points "kadalu:") source

abbrev or_none : Text → Option Text
or_none [] = none
or_none s = some s

abbrev second_field : List Text → Option Text
second_field (a ∷ b ∷ rest) = or_none b
second_field _ = none

-- What stands behind the second separator.
abbrev third_field : List Text → Option Text
third_field (a ∷ b ∷ c ∷ rest) = or_none (join_with b':' (c ∷ rest))
third_field _ = none

abbrev lstrip_slashes : Text → Text
lstrip_slashes [] = []
lstrip_slashes (c ∷ s) = let rest = lstrip_slashes s in if c == b'/' then rest else c ∷ s

abbrev remote_name : Option (Text × Text) → Option Text
remote_name none = none
remote_name (some (host, remote_path)) = or_none (lstrip_slashes remote_path)

-- `_gluster_volume_name`
abbrev pub gluster_volume_name : Text → Option Text
gluster_volume_name source =
    if is_kadalu source
    then second_field (split_on b':' source)
    else remote_name (cut_last b':' [] source)

-- `_gluster_mount_identity`
abbrev pub gluster_mount_identity : Text → Option Text
gluster_mount_identity source =
    if is_kadalu source then third_field (split_on b':' source) else none

abbrev gluster_fields : List Text → Option (Text × Text)
gluster_fields (source ∷ target ∷ fstype ∷ rest) =
    if is_word "fuse.glusterfs" fstype
    then some (unescape_mount_field source, normpath (unescape_mount_field target))
    else none
gluster_fields _ = none

-- `_read_gluster_mounts`
unfoldable pub read_gluster_mounts : List Text → List (Text × Text)
unfolding normpath
read_gluster_mounts [] = []
read_gluster_mounts (line ∷ lines) =
    add_entry (gluster_fields (words line)) (read_gluster_mounts lines)

abbrev names : Option Text → Text → Bool
names none t = false
names (some s) t = text_eq s t

abbrev identity_matches : Option Text → Text → Bool
identity_matches none source = true
identity_matches (some identity) source = names (gluster_mount_identity source) identity

abbrev exact_mount : Text → Text → Option Text → Text × Text → Bool
exact_mount volname target identity (source, mounted) =
    text_eq mounted target
    && names (gluster_volume_name source) volname
    && identity_matches identity source

-- `_has_exact_gluster_mount`; `mountpoint` is absolute.
unfoldable pub has_exact_gluster_mount : List Text → Text → Text → Option Text → Bool
unfolding read_gluster_mounts
has_exact_gluster_mount lines volname mountpoint identity =
    any (exact_mount volname (normpath mountpoint) identity) (read_gluster_mounts lines)

abbrev flag_character : ℕ → Bool
flag_character c =
    alphanumeric c || (c == b'.' || (c == b'_' || (c == b'=' || (c == b':' || c == b'-'))))

-- `[A-Za-z0-9][A-Za-z0-9._=:-]*`
abbrev pub plain_flag : Text → Bool
plain_flag [] = false
plain_flag (c ∷ s) = alphanumeric c && all flag_character s

abbrev pub lower_ascii : ℕ → ℕ
lower_ascii c = if leb b'A' c && leb c b'Z' then c + 32 else c

abbrev before_equals : Text → Text
before_equals [] = []
before_equals (c ∷ s) = let rest = before_equals s in if c == b'=' then [] else c ∷ rest

-- `flag.split("=", maxsplit=1)[0].lower()`
abbrev pub flag_name : Text → Text
flag_name flag = map lower_ascii (before_equals flag)

abbrev driver_controlled : List Text
driver_controlled =
    code_points "bind"
    ∷ code_points "move"
    ∷ code_points "private"
    ∷ code_points "rbind"
    ∷ code_points "remount"
    ∷ code_points "rprivate"
    ∷ code_points "rshared"
    ∷ code_points "rslave"
    ∷ code_points "runbindable"
    ∷ code_points "rw"
    ∷ code_points "ro"
    ∷ code_points "shared"
    ∷ code_points "slave"
    ∷ code_points "unbindable"
    ∷ []

abbrev pub is_driver_controlled : Text → Bool
is_driver_controlled name = any (λ word. text_eq word name) driver_controlled

abbrev pub flag_allowed : Text → Bool
flag_allowed flag = plain_flag flag && not (is_driver_controlled (flag_name flag))

-- `_validated_mount_flags`, on the strings of a CSI request
unfoldable pub validated_mount_flags : List Text → Result (List Text)
validated_mount_flags flags = if all flag_allowed flags then ok flags else err value_error

-- The options of `_remount_bind`, and the argument of `-o`.
abbrev pub remount_options : Bool → List Text → List Text
remount_options true mount_flags =
    code_points "remount" ∷ code_points "bind" ∷ code_points "ro" ∷ mount_flags
remount_options false mount_flags = code_points "remount" ∷ code_points "bind" ∷ mount_flags

abbrev pub remount_argument : Bool → List Text → Text
remount_argument readonly mount_flags = join_with b',' (remount_options readonly mount_flags)
