-- ===== src/Operator/Labels.antt =====
-- The names and labels of Kubernetes that kadalu_operator/main.py tests with regular expressions.
use kadalu.Prelude.{
  ℕ, Bool, false, not, ◌&&◌, ◌||◌, ◌==◌, ltb, leb, List, [], ◌∷◌, all, length, Text, text_eq,
  if◌then◌else◌,
}
use kadalu.PosixPath.{split_on, is_nil}

abbrev is_digit : ℕ → Bool
is_digit c = leb b'0' c && leb c b'9'

abbrev is_lower : ℕ → Bool
is_lower c = leb b'a' c && leb c b'z'

abbrev is_upper : ℕ → Bool
is_upper c = leb b'A' c && leb c b'Z'

abbrev pub lower_alphanumeric : ℕ → Bool
lower_alphanumeric c = is_lower c || is_digit c

abbrev pub alphanumeric : ℕ → Bool
alphanumeric c = lower_alphanumeric c || is_upper c

-- `ord(char) < 32 or ord(char) == 127`
abbrev pub is_control : ℕ → Bool
is_control c = ltb c 32 || c == 127

abbrev run_to_edge : (ℕ → Bool) → (ℕ → Bool) → Text → Bool
run_to_edge edge inner [] = false
run_to_edge edge inner (c ∷ []) = edge c
run_to_edge edge inner (c ∷ d ∷ s) = inner c && run_to_edge edge inner (d ∷ s)

-- `edge(?:inner*edge)?`, the whole text
abbrev pub edge_to_edge : (ℕ → Bool) → (ℕ → Bool) → Text → Bool
edge_to_edge edge inner [] = false
edge_to_edge edge inner (c ∷ []) = edge c
edge_to_edge edge inner (c ∷ d ∷ s) = edge c && run_to_edge edge inner (d ∷ s)

-- DNS_LABEL_RE
abbrev pub dns_label : Text → Bool
dns_label = edge_to_edge lower_alphanumeric (λ c. lower_alphanumeric c || c == b'-')

-- DNS_SUBDOMAIN_RE
abbrev pub dns_subdomain : Text → Bool
dns_subdomain s = all dns_label (split_on b'.' s)

-- LABEL_NAME_RE
abbrev pub label_name : Text → Bool
label_name =
    edge_to_edge alphanumeric λ c. alphanumeric c || (c == b'-' || (c == b'_' || c == b'.'))

-- `_valid_label_value`
abbrev pub valid_label_value : Text → Bool
valid_label_value value = is_nil value || leb (length value) 63 && label_name value

abbrev short_label : Text → Bool
short_label name = not (is_nil name) && leb (length name) 63 && label_name name

abbrev qualified : List Text → Bool
qualified [] = false
qualified (name ∷ []) = short_label name
qualified (prefix ∷ name ∷ []) =
    short_label name && not (is_nil prefix) && leb (length prefix) 253 && dns_subdomain prefix
qualified (prefix ∷ name ∷ more ∷ parts) = false

-- `_valid_qualified_label_name`
unfoldable pub valid_qualified_label_name : Text → Bool
valid_qualified_label_name value = qualified (split_on b'/' value)

-- `str.isspace` of one character
abbrev pub is_space : ℕ → Bool
is_space c =
    leb 9 c && leb c 13
    || leb 28 c && leb c 32
    || (c == 0x85 || (c == 0xA0 || c == 0x1680))
    || leb 0x2000 c && leb c 0x200A
    || (c == 0x2028 || (c == 0x2029 || (c == 0x202F || (c == 0x205F || c == 0x3000))))

abbrev lstrip : Text → Text
lstrip [] = []
lstrip (c ∷ s) = let rest = lstrip s in if is_space c then rest else c ∷ s

abbrev rstrip : Text → Text
rstrip [] = []
rstrip (c ∷ s) = let rest = rstrip s in if is_space c && is_nil rest then [] else c ∷ rest

-- `s.strip()`
abbrev pub strip : Text → Text
strip s = rstrip (lstrip s)

-- `s and s == s.strip()`
abbrev pub is_stripped : Text → Bool
is_stripped s = not (is_nil s) && text_eq s (strip s)
