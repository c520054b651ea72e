-- ===== src/Intent/Laws.antt =====
-- What `prepare_volume_creation` leaves on disk.
use kadalu.Prelude.{
  ℕ, ◌≡◌, refl, ap, ◌∙◌, Bool, true, false, not, ◌||◌, ◌==◌, Option, none, some, Text, text_eq_refl,
  arith, Bool-cases, inl, inr, String,
}
use kadalu.Prelude.Int.{pos}
use kadalu.Exec.{Result, ok, err, continue, value_error, raise_if}
use kadalu.Json.{Json, Fields, str, int, obj, get}
use kadalu.Json.Equality.{json_eq, dict_eq-get}
use kadalu.Intent.{
  Files, read_file, write_file, volume_creation_intent, creation_intent_matches,
  prepare_volume_creation, prepare_from, create_intent, pending, matching_intent, checked_intent,
  validate_creation_intent, is_canonical,
}

read-write : (p q : Text) (v : Json) (fs : Files) → read_file p (write_file p v fs) ≡ some v
read-write p q v fs = rw text_eq_refl refl

-- The intent that is written matches its own request.
fresh_matches :
    (uuid v t p : Text) (n : ℕ)
    → creation_intent_matches
        (volume_creation_intent v t p (int (pos n)) (some (str uuid)))
        v
        t
        p
        (int (pos n))
      ≡ true
unfolding creation_intent_matches
fresh_matches uuid v t p n = simp text_eq_refl (ground arith)

-- If the intent has this key, its value there is Python's equal of the expected one.
abbrev Holds : String → Fields → Json → Type 0
Holds k f expected = (x : Json) → get k f ≡ some x → json_eq x expected ≡ true

-- The intent names this volume, type, path and size, and no other.
abbrev pub IsFor : Text → Text → Text → ℕ → Fields → Type 0
IsFor v t p n f =
    Holds "volume_id" f (str v)
    × Holds "pvtype" f (str t)
    × Holds "path" f (str p)
    × Holds "size" f (int (pos n))

matches-IsFor :
    (v t p : Text) (n : ℕ) (f : Fields)
    → creation_intent_matches f v t p (int (pos n)) ≡ true
    → IsFor v t p n f
unfolding creation_intent_matches
matches-IsFor v t p n f h =
    let expected = volume_creation_intent v t p (int (pos n)) (get "incarnation" f) in
    (
      λ x e. dict_eq-get "volume_id" f expected x h e,
      λ x e. dict_eq-get "pvtype" f expected x h e,
      λ x e. dict_eq-get "path" f expected x h e,
      λ x e. dict_eq-get "size" f expected x h e,
    )

-- An intent on disk that stands for the exact request.
pub record IsStored (v t p : Text) (n : ℕ) (f : Fields) (fs : Files) : Type 0 where
  on_disk : read_file p fs ≡ some (obj f)
  pub named : IsFor v t p n f
  pub exact : creation_intent_matches f v t p (int (pos n)) ≡ true

abbrev pub Stored : Text → Text → Text → ℕ → Result Fields × Files → Type 0
Stored v t p n (ok f, fs) = IsStored v t p n f fs
Stored v t p n (err e, fs) = Unit

module _ (hash : Text → Text) where
  matching_ok :
      (v t p : Text) (n : ℕ) (j : Json) (f : Fields)
      → matching_intent hash v t p (int (pos n)) j ≡ ok f
      → (j ≡ obj f) × (creation_intent_matches f v t p (int (pos n)) ≡ true)
  matching_ok v t p n (Json.obj g) f h =
      ground (arith, Bool-cases (creation_intent_matches g v t p (int (pos n))))
  matching_ok v t p n Json.null f h = cc
  matching_ok v t p n _ f h = cc

  pending-Stored :
      (v t p : Text) (n : ℕ) (j : Json) (fs : Files)
      → read_file p fs ≡ some j
      → Stored v t p n (pending hash v t p n j fs)
  pending-Stored v t p n j fs e =
      go (validate_creation_intent hash p j) (matching_intent hash v t p (int (pos n)) j) refl
    where
      go :
          (r : Result (Text × ℕ)) (m : Result Fields)
          → matching_intent hash v t p (int (pos n)) j ≡ m
          → Stored v t p n (checked_intent hash r m, fs)
      go (err x) m k = tt
      go (ok x) (err y) k = tt
      go (ok x) (ok f) k =
          let (same, exact) = matching_ok v t p n j f k in
          record {
            on_disk = e ∙ ap some same;
            named = matches-IsFor v t p n f exact;
            exact = exact;
          }

  create-Stored :
      (race : Option Json) (uuid v t p : Text) (n : ℕ) (fs : Files)
      → Stored v t p n (
          create_intent hash race v t p n
            (volume_creation_intent v t p (int (pos n)) (some (str uuid)))
            fs)
  create-Stored none uuid v t p n fs = record {
    on_disk = read-write p p _ fs;
    named = matches-IsFor v t p n _ (fresh_matches uuid v t p n);
    exact = fresh_matches uuid v t p n;
  }
  create-Stored (some j) uuid v t p n fs =
      pending-Stored v t p n j (write_file p j fs) (read-write p p j fs)

  prepare_from-Stored :
      (uuid : Text) (race : Option Json) (v t p : Text) (n : ℕ) (o : Option Json) (fs : Files)
      → read_file p fs ≡ o
      → Stored v t p n (prepare_from hash uuid race v t p n o fs)
  prepare_from-Stored uuid race v t p n none fs e = create-Stored race uuid v t p n fs
  prepare_from-Stored uuid race v t p n (some j) fs e = pending-Stored v t p n j fs e

  pub prepare-zero :
      (uuid : Text) (race : Option Json) (v t p : Text) (fs : Files)
      → prepare_volume_creation hash uuid race v t p 0 fs ≡ (err value_error, fs)
  unfolding prepare_volume_creation
  prepare-zero uuid race v t p fs = elim (Bool-cases (is_canonical hash v t p)) [
    | inl e ↦ rw e refl
    | inr e ↦ rw e refl
  ]

  -- However a create is prepared, afresh, as a retry, or behind another process: if the call
  -- returns an intent, the intent is on disk, its volume, type, path and size are those of the call,
  -- and as a dict it equals the intent that the call would write with the same incarnation.
  pub prepare-Stored :
      (uuid : Text) (race : Option Json) (v t p : Text) (n : ℕ) (fs : Files)
      → Stored v t p n (prepare_volume_creation hash uuid race v t p n fs)
  unfolding prepare_volume_creation
  prepare-Stored uuid race v t p n fs = go (not (is_canonical hash v t p) || n == 0)
    where
      go :
          (b : Bool)
          → Stored v t p n (
              continue
                (λ _ s. prepare_from hash uuid race v t p n (read_file p s) s)
                (raise_if b value_error fs))
      go true = tt
      go false = prepare_from-Stored uuid race v t p n (read_file p fs) fs refl
