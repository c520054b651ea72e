-- ===== src/MountTable/Flags.antt =====
-- The mount flags that a request may carry, and what `mount -o` makes of them.
use kadalu.Prelude.{
  and_true, not-true, ℕ, ◌≡◌, refl, ap, ◌∙◌, Bool, true, false, not, ◌==◌, List, [], ◌∷◌, ◌++◌, any,
  all, Text, text_eq, ◌&&◌, ◌||◌, ◌+◌, leb, arith, Bool-cases, inl, inr, All, code_points,
}
use kadalu.Exec.{Result, ok, err}
use kadalu.PosixPath.{split_on, join_with}
use kadalu.MountTable.{
  lower_ascii, plain_flag, flag_character, flag_name, is_driver_controlled, flag_allowed,
  validated_mount_flags, remount_options, remount_argument,
}

abbrev has : ℕ → Text → Bool
has separator s = any (λ c. c == separator) s

split-whole : (k : ℕ) (s : Text) → has k s ≡ false → split_on k s ≡ s ∷ []
split-whole k [] h = refl
split-whole k (c ∷ s) h = ground (arith, split-whole k s)

split-first : (k : ℕ) (s t : Text) → has k s ≡ false → split_on k (s ++ k ∷ t) ≡ s ∷ split_on k t
split-first k [] t h = ground arith
split-first k (c ∷ s) t h = ground (arith, split-first k s t)

abbrev AreFree : ℕ → List Text → Type 0
AreFree k = All (λ s. has k s ≡ false)

-- Joined by a separator that none of them has, and split at it again.
split-join_with :
    (k : ℕ) (s : Text) (rest : List Text)
    → AreFree k (s ∷ rest)
    → split_on k (join_with k (s ∷ rest)) ≡ s ∷ rest
split-join_with k s [] (h, hs) = split-whole k s h
split-join_with k s (t ∷ rest) (h, hs) =
    split-first k s (join_with k (t ∷ rest)) h ∙ ap (λ ts. s ∷ ts) (split-join_with k t rest hs)

characters_free : (s : Text) → all flag_character s ≡ true → has b',' s ≡ false
characters_free [] h = refl
characters_free (c ∷ s) h = ground (arith, characters_free s)

plain_free : (s : Text) → plain_flag s ≡ true → has b',' s ≡ false
plain_free [] h = refl
plain_free (c ∷ s) h = ground (arith, characters_free s)

allowed_free : (flags : List Text) → all flag_allowed flags ≡ true → AreFree b',' flags
allowed_free [] h = tt
allowed_free (f ∷ flags) h =
    let (first, rest) = and_true (flag_allowed f) (all flag_allowed flags) h in
    (plain_free f (and_true (plain_flag f) _ first).0, allowed_free flags rest)

allowed_uncontrolled :
    (flags : List Text)
    → all flag_allowed flags ≡ true
    → All (λ f. is_driver_controlled (flag_name f) ≡ false) flags
allowed_uncontrolled [] h = tt
allowed_uncontrolled (f ∷ flags) h =
    let (first, rest) = and_true (flag_allowed f) (all flag_allowed flags) h in
    (
      not-true _ (and_true (plain_flag f) (not (is_driver_controlled (flag_name f))) first).1,
      allowed_uncontrolled flags rest,
    )

remount_split :
    (readonly : Bool) (flags : List Text)
    → AreFree b',' flags
    → split_on b',' (remount_argument readonly flags) ≡ remount_options readonly flags
remount_split true flags h =
    split-join_with b',' (code_points "remount") (code_points "bind" ∷ code_points "ro" ∷ flags)
      (refl, (refl, (refl, h)))
remount_split false flags h =
    split-join_with b',' (code_points "remount") (code_points "bind" ∷ flags) (refl, (refl, h))

-- The flag is this word of small letters, in any case, alone or before a value.
abbrev pub names : Text → Text → Bool
names [] [] = true
names [] (c ∷ flag) = c == b'='
names (x ∷ word) [] = false
names (x ∷ word) (c ∷ flag) = (c == x || c + 32 == x) && names word flag

-- The mount options that only the driver sets.
abbrev pub reserved_words : List Text
reserved_words =
    code_points "bind"
    ∷ code_points "move"
    ∷ code_points "private"
    ∷ code_points "rbind"
    ∷ code_points "remount"
    ∷ code_points "rprivate"
    ∷ code_points "rshared"
    ∷ code_points "rslave"
    ∷ code_points "runbindable"
    ∷ code_points "rw"
    ∷ code_points "ro"
    ∷ code_points "shared"
    ∷ code_points "slave"
    ∷ code_points "unbindable"
    ∷ []

abbrev is_small : ℕ → Bool
is_small x = leb b'a' x && leb x b'z'

small_letter : (x c : ℕ) → is_small x ≡ true → (x == lower_ascii c) ≡ (c == x || c + 32 == x)
small_letter x c h = ground arith

names-flag_name :
    (word flag : Text) → all is_small word ≡ true → names word flag ≡ text_eq word (flag_name flag)
names-flag_name [] [] h = refl
names-flag_name [] (c ∷ flag) h = ground arith
names-flag_name (x ∷ word) [] h = refl
names-flag_name (x ∷ word) (c ∷ flag) h = elim (Bool-cases (c == b'=')) [
  | inl e ↦ ground (arith, e)
  | inr e ↦ ground (arith, e, names-flag_name word flag, small_letter x c)
]

-- The flag is none of these words.
abbrev pub IsNone : List Text → Text → Type 0
IsNone words flag = All (λ word. names word flag ≡ false) words

words-IsNone :
    (words : List Text) (flag : Text)
    → all (all is_small) words ≡ true
    → any (λ word. text_eq word (flag_name flag)) words ≡ false
    → IsNone words flag
words-IsNone [] flag s h = tt
words-IsNone (w ∷ words) flag s h =
    let (small, rest) = and_true (all is_small w) (all (all is_small) words) s in
    (names-flag_name w flag small ∙ ground arith, words-IsNone words flag rest (ground arith))

flags-AreNone :
    (flags : List Text)
    → All (λ f. is_driver_controlled (flag_name f) ≡ false) flags
    → All (IsNone reserved_words) flags
flags-AreNone [] h = tt
flags-AreNone (f ∷ flags) (h, hs) = (words-IsNone reserved_words f refl h, flags-AreNone flags hs)

abbrev pub AsGiven : Bool → List Text → Result (List Text) → Type 0
AsGiven readonly flags (err e) = Unit
AsGiven readonly flags (ok fs) =
    (fs ≡ flags)
    × (split_on b',' (remount_argument readonly fs) ≡ remount_options readonly fs)
    × All (IsNone reserved_words) fs

-- Flags that the validation returns are the given ones; the remount's one argument splits at its commas
-- into exactly the driver's options and these flags; and none of them is, in any case, alone or with
-- a value behind =, one of the fourteen options that the driver sets itself.
pub validated_mount_flags-AsGiven :
    (readonly : Bool) (flags : List Text) → AsGiven readonly flags (validated_mount_flags flags)
unfolding validated_mount_flags
validated_mount_flags-AsGiven readonly flags = elim (Bool-cases (all flag_allowed flags)) [
  | inl e ↦ rw e (
    refl,
    remount_split readonly flags (allowed_free flags e),
    flags-AreNone flags (allowed_uncontrolled flags e),
  )
  | inr e ↦ rw e tt
]
