-- ===== src/PosixPath.antt =====
-- `os.path` of Python on POSIX, as far as the modelled code uses it. Paths are compared as they are
-- written: no file system stands behind them.
use kadalu.Prelude.{
  ℕ, Bool, true, false, not, ◌&&◌, ◌||◌, ◌==◌, Option, none, some, List, [], ◌∷◌, ◌++◌, Text,
  text_eq, is_word, starts_with, code_points, if◌then◌else◌,
}

-- `s.split(separator)` for a separator of one character
abbrev pub split_cons : Text → List Text → List Text
split_cons c [] = c ∷ []
split_cons c (p ∷ ps) = (c ++ p) ∷ ps

abbrev pub split_on : ℕ → Text → List Text
split_on separator [] = [] ∷ []
split_on separator (c ∷ s) =
    let rest = split_on separator s in
    if c == separator then [] ∷ rest else split_cons (c ∷ []) rest

-- `separator.join(parts)`
abbrev pub join_with : ℕ → List Text → Text
join_with separator [] = []
join_with separator (p ∷ []) = p
join_with separator (p ∷ q ∷ ps) = p ++ separator ∷ join_with separator (q ∷ ps)

abbrev pub is_dot : Text → Bool
is_dot = is_word "."

abbrev pub is_dot_dot : Text → Bool
is_dot_dot = is_word ".."

abbrev pub is_nil : {A : Type 0} → List A → Bool
is_nil [] = true
is_nil (x ∷ xs) = false

-- The slashes that `normpath` keeps in front: none, one, or exactly two.
abbrev pub initial_slashes : Text → Text
initial_slashes s =
    if starts_with (code_points "//") s && not (starts_with (code_points "///") s)
    then code_points "//"
    else if starts_with (code_points "/") s
    then code_points "/"
    else []

-- One component of `normpath`; `done` lists the components so far, the last one first.
abbrev pub push_component : Bool → List Text → Text → List Text
push_component rooted [] c = if is_nil c || is_dot c || is_dot_dot c && rooted then [] else c ∷ []
push_component rooted (d ∷ done) c =
    if is_nil c || is_dot c
    then d ∷ done
    else if not (is_dot_dot c) || is_dot_dot d
    then c ∷ d ∷ done
    else done

abbrev pub push_all : Bool → List Text → List Text → List Text
push_all rooted done [] = done
push_all rooted done (c ∷ cs) = push_all rooted (push_component rooted done c) cs

abbrev pub reverse_onto : {A : Type 0} → List A → List A → List A
reverse_onto [] ys = ys
reverse_onto (x ∷ xs) ys = reverse_onto xs (x ∷ ys)

abbrev pub or_dot : Text → Text
or_dot [] = code_points "."
or_dot s = s

unfoldable pub normpath : Text → Text
normpath path =
    let slashes = initial_slashes path in
    or_dot (
      slashes
      ++ join_with b'/' (reverse_onto (push_all (not (is_nil slashes)) [] (split_on b'/' path)) []))

abbrev pub isabs : Text → Bool
isabs path = starts_with (code_points "/") path

abbrev pub ends_with_slash : Text → Bool
ends_with_slash [] = false
ends_with_slash (c ∷ []) = c == b'/'
ends_with_slash (c ∷ d ∷ s) = ends_with_slash (d ∷ s)

-- `os.path.join(a, b)`
unfoldable pub path_join : Text → Text → Text
path_join a b =
    if isabs b then b else if is_nil a || ends_with_slash a then a ++ b else a ++ b'/' ∷ b

-- What stands behind the last separator, and what stands up to it.
abbrev pub cut_last : ℕ → Text → Text → Option (Text × Text)
cut_last separator before [] = none
cut_last separator before (c ∷ s) = elim (cut_last separator (before ++ c ∷ []) s) [
  | some p ↦ some p
  | none ↦ if c == separator then some (before, s) else none
]

abbrev pub tail_of : Text → Option (Text × Text) → Text
tail_of s none = s
tail_of s (some (a, b)) = b

unfoldable pub basename : Text → Text
basename path = tail_of path (cut_last b'/' [] path)

abbrev pub all_slashes : Text → Bool
all_slashes [] = true
all_slashes (c ∷ s) = c == b'/' && all_slashes s

abbrev pub strip_slashes : Text → Text
strip_slashes [] = []
strip_slashes (c ∷ s) = let rest = strip_slashes s in if all_slashes (c ∷ s) then [] else c ∷ rest

abbrev pub head_of : Option (Text × Text) → Text
head_of none = []
head_of (some (a, b)) = if all_slashes a then a ++ b'/' ∷ [] else strip_slashes a

-- `os.path.dirname`; a head that is all slashes is kept, any other loses them at its end.
unfoldable pub dirname : Text → Text
dirname path = head_of (cut_last b'/' [] path)

abbrev pub real_components : List Text → List Text
real_components [] = []
real_components (c ∷ cs) =
    let rest = real_components cs in if is_nil c || is_dot c then rest else c ∷ rest

abbrev pub common_prefix : List Text → List Text → List Text
common_prefix (a ∷ xs) (b ∷ ys) =
    let rest = common_prefix xs ys in if text_eq a b then a ∷ rest else []
common_prefix _ _ = []

-- `os.path.commonpath((a, b))`; none where it raises ValueError, for a relative and an absolute path
unfoldable pub commonpath : Text → Text → Option Text
commonpath a b =
    let common =
      common_prefix (real_components (split_on b'/' a)) (real_components (split_on b'/' b)) in
    if isabs a && isabs b
    then some (b'/' ∷ join_with b'/' common)
    else if isabs a || isabs b
    then none
    else some (join_with b'/' common)
