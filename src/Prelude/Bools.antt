-- ===== src/Prelude/Bools.antt =====
-- What a true or a false compound test says of its parts.
use mathlib.Core.Path.{◌≡◌, refl, sym}
use mathlib.Core.Bool.{Bool, true, false, not, ◌&&◌, ◌||◌, false≢true}

pub and_true : (a b : Bool) → (a && b) ≡ true → (a ≡ true) × (b ≡ true)
and_true true b h = (refl, h)
and_true false b h = absurd (false≢true h)

pub or_false : (a b : Bool) → (a || b) ≡ false → (a ≡ false) × (b ≡ false)
or_false true b h = absurd (false≢true (sym h))
or_false false b h = (refl, h)

pub or_rest : (a b : Bool) → (a || b) ≡ true → a ≡ false → b ≡ true
or_rest true b h e = absurd (false≢true (sym e))
or_rest false b h e = h

pub or_true : (a b : Bool) → b ≡ true → (a || b) ≡ true
or_true true b h = refl
or_true false b h = h

pub not-true : (a : Bool) → not a ≡ true → a ≡ false
not-true true h = absurd (false≢true h)
not-true false h = refl
