-- ===== src/Identifier/Paths.antt =====
-- `get_volume_path` of lib/kadalulib.py: where a volume's payload lies in its pool.
use kadalu.Prelude.{
  Text, code_points, starts_with, ℕ, ◌≡◌, refl, ap, sym, ◌∙◌, false, ◌==◌, Option, none, some, [],
  ◌∷◌, ◌++◌, any, take, drop, arith, if◌then◌else◌, inl, inr, Bool-cases,
}
use kadalu.Exec.{Result, ok, err}
use kadalu.Identifier.{unsafe_character, prefix, volume_name_component, volume_name_from_component}
use kadalu.Identifier.RoundTrip.{ok_injective, from_component-component}
use kadalu.Identifier.Safety.{volume_name_component-IsComponent}

-- VOLUME_LAYOUT_V2_DIR
abbrev layout_v2_dir : Text
layout_v2_dir = code_points ".kadalu-v2"

infixr 60 ◌/+◌
-- `"%s/%s"`
abbrev pub ◌/+◌ : Text → Text → Text
a /+ b = a ++ b'/' ∷ b

-- `volhash` is xxhash's hexadecimal digest of the name, a third party's.
abbrev path_of : Text → Text → Text → Text
path_of voltype volhash component =
    if starts_with prefix component
    then voltype /+ layout_v2_dir /+ take 2 volhash /+ take 2 (drop 2 volhash) /+ component
    else voltype /+ take 2 volhash /+ take 2 (drop 2 volhash) /+ component

abbrev placed : Text → Text → Result Text → Result Text
placed voltype volhash (err e) = err e
placed voltype volhash (ok component) = ok (path_of voltype volhash component)

unfoldable pub get_volume_path : Text → Text → Text → Result Text
get_volume_path voltype volhash volname = placed voltype volhash (volume_name_component volname)

-- What stands behind the last separator, if there is one.
abbrev after_slash : ℕ → Text → Option Text → Option Text
after_slash c s (some t) = some t
after_slash c s none = if c == b'/' then some s else none

last_component : Text → Option Text
last_component [] = none
last_component (c ∷ s) = after_slash c s (last_component s)

no_slash : (c : Text) → any unsafe_character c ≡ false → last_component c ≡ none
unfolding last_component
no_slash [] h = refl
no_slash (a ∷ c) h = ground (arith, no_slash c)

last_component-join :
    (p c : Text) → any unsafe_character c ≡ false → last_component (p /+ c) ≡ some c
unfolding last_component
last_component-join [] c h = rw (no_slash c h) refl
last_component-join (a ∷ p) c h = rw (last_component-join p c h) refl

join_twice : (p q c : Text) → p /+ q /+ c ≡ (p /+ q) /+ c
join_twice [] q c = refl
join_twice (a ∷ p) q c = ap (λ t. a ∷ t) (join_twice p q c)

last_component-path_of :
    (voltype volhash c : Text)
    → any unsafe_character c ≡ false
    → last_component (path_of voltype volhash c) ≡ some c
last_component-path_of voltype volhash c h = elim (Bool-cases (starts_with prefix c)) [
  | inl e ↦ rw e (rw (join_twice, join_twice, join_twice) (last_component-join _ c h))
  | inr e ↦ rw e (rw (join_twice, join_twice) (last_component-join _ c h))
]

placed_cases :
    (voltype volhash p : Text) (r : Result Text)
    → placed voltype volhash r ≡ ok p
    → (c : Text) × (r ≡ ok c) × (path_of voltype volhash c ≡ p)
placed_cases voltype volhash p (err e) h = cc
placed_cases voltype volhash p (ok c) h = (c, refl, ok_injective h)

some_injective : {a b : Text} → some a ≡ some b → a ≡ b
some_injective h = cc

-- Two names never share a path, whatever their types and digests are: the path of a volume
-- determines its name.
pub get_volume_path-injective :
    (voltype voltype' volhash volhash' v w p : Text)
    → get_volume_path voltype volhash v ≡ ok p
    → get_volume_path voltype' volhash' w ≡ ok p
    → v ≡ w
unfolding get_volume_path
get_volume_path-injective voltype voltype' volhash volhash' v w p hv hw =
    let (c, named, at) = placed_cases voltype volhash p (volume_name_component v) hv in
    let (d, named', at') = placed_cases voltype' volhash' p (volume_name_component w) hw in
    let safe = (volume_name_component-IsComponent v c named).safe in
    let safe' = (volume_name_component-IsComponent w d named').safe in
    let same : c ≡ d = some_injective (
      sym (last_component-path_of voltype volhash c safe)
      ∙ ap last_component (at ∙ sym at')
      ∙ last_component-path_of voltype' volhash' d safe') in
    ok_injective (
      sym (from_component-component v c named)
      ∙ ap volume_name_from_component same
      ∙ from_component-component w d named')
