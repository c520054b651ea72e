-- ===== src/StorageAdd/Parser/Termination.antt =====
-- When the loop of `parser` ends, exactly.
use kadalu.Prelude.{
  ℕ, zero, suc, ◌<◌, ◌≤◌, ◌≡◌, refl, Bool, true, false, Option, none, some, List, [], ◌∷◌, ◌++◌,
  length, arith, Bool-cases, inl, inr, if◌then◌else◌, ◌∙◌, ap,
}
use kadalu.Exec.{Result}
use kadalu.StorageAdd.{
  Keyword, Token, type_keyword, number, storage_unit, DistributeGroup, distribute_group, set,
}
use kadalu.StorageAdd.Parser.{
  State, initial, after_keyword, close_group, visit, advance, parser_loop, parser, request_of,
}

-- Whether a keyword that ends another keyword's units comes before a number that ends some later
-- keyword's units: `skip_token_next` is set by then, and never reset.
abbrev mutual
  is_stuck : Bool → List Token → Bool
  is_stuck skip [] = false
  is_stuck skip (type_keyword k ∷ ts) = stuck_after skip ts
  is_stuck skip (storage_unit u ∷ ts) = if skip then true else is_stuck skip ts
  is_stuck skip (number n ∷ ts) = if skip then true else is_stuck skip ts

  stuck_after : Bool → List Token → Bool
  stuck_after skip [] = false
  stuck_after skip (storage_unit u ∷ ts) = stuck_after skip ts
  stuck_after skip (number n ∷ ts) = if skip then true else is_stuck skip ts
  stuck_after skip (type_keyword k ∷ ts) = stuck_after true ts

-- The state and the tokens after a keyword and its units.
after_keyword_lem :
    (k : Keyword) (ts : List Token) (st : State)
    → let r = advance (after_keyword k ts st) in
      (length r.1 ≤ length ts)
      × (is_stuck r.0.skip_token_next r.1 ≡ stuck_after st.skip_token_next ts)
after_keyword_lem k [] st = elim (Bool-cases st.skip_token_next) [
  | inl e ↦ rw e (omega arith, refl)
  | inr e ↦ rw e (omega arith, refl)
]
after_keyword_lem k (storage_unit u ∷ ts) st =
    let (shorter, same) =
      after_keyword_lem k ts (record st { units = set k (st.units k ++ u ∷ []) st.units }) in
    (omega arith, same)
after_keyword_lem k (number n ∷ ts) st = elim (Bool-cases st.skip_token_next) [
  | inl e ↦ rw e (omega arith, refl)
  | inr e ↦ rw e (omega arith, refl)
]
after_keyword_lem k (type_keyword j ∷ ts) st = (omega arith, refl)

close_group-skip :
    (o : Option DistributeGroup) (st : State)
    → (close_group o st).skip_token_next ≡ st.skip_token_next
close_group-skip none st = refl
close_group-skip (some g) st = refl

-- One pass, when the loop is not stuck at this token: fewer tokens are left.
pass_lem :
    (t : Token) (ts : List Token) (st : State)
    → is_stuck st.skip_token_next (t ∷ ts) ≡ false
    → let r = advance (visit t ts st) in
      (length r.1 ≤ length ts) × (is_stuck r.0.skip_token_next r.1 ≡ false)
pass_lem (type_keyword k) ts st h =
    let o = distribute_group st.units (some k) in
    let (shorter, same) = after_keyword_lem k ts (close_group o st) in
    (shorter, same ∙ ap (λ b. stuck_after b ts) (close_group-skip o st) ∙ h)
pass_lem (storage_unit u) ts st h = elim (Bool-cases st.skip_token_next) [
  | inl e ↦ ground (arith, e)
  | inr e ↦ ground (arith, e)
]
pass_lem (number n) ts st h = elim (Bool-cases st.skip_token_next) [
  | inl e ↦ ground (arith, e)
  | inr e ↦ ground (arith, e)
]

-- One pass, when it is.
stuck_lem :
    (t : Token) (ts : List Token) (st : State)
    → is_stuck st.skip_token_next (t ∷ ts) ≡ true
    → let r = advance (visit t ts st) in is_stuck r.0.skip_token_next r.1 ≡ true
stuck_lem (type_keyword k) ts st h =
    let o = distribute_group st.units (some k) in
    (after_keyword_lem k ts (close_group o st)).1
    ∙ ap (λ b. stuck_after b ts) (close_group-skip o st)
    ∙ h
stuck_lem (storage_unit u) ts st h = elim (Bool-cases st.skip_token_next) [
  | inl e ↦ ground (arith, e)
  | inr e ↦ ground (arith, e)
]
stuck_lem (number n) ts st h = elim (Bool-cases st.skip_token_next) [
  | inl e ↦ ground (arith, e)
  | inr e ↦ ground (arith, e)
]

loop-returns :
    (fuel : ℕ) (ts : List Token) (st : State)
    → length ts < fuel
    → is_stuck st.skip_token_next ts ≡ false
    → (end : State) × (parser_loop fuel (st, ts) ≡ some end)
unfolding parser_loop
loop-returns zero ts st p h = absurd (omega arith)
loop-returns (suc fuel) [] st p h = (st, refl)
loop-returns (suc fuel) (t ∷ ts) st p h =
    let (shorter, fine) = pass_lem t ts st h in loop-returns fuel _ _ (omega arith) fine

loop-diverges :
    (fuel : ℕ) (ts : List Token) (st : State)
    → is_stuck st.skip_token_next ts ≡ true
    → parser_loop fuel (st, ts) ≡ none
unfolding parser_loop
loop-diverges zero ts st h = refl
loop-diverges (suc fuel) [] st h = cc
loop-diverges (suc fuel) (t ∷ ts) st h = loop-diverges fuel _ _ (stuck_lem t ts st h)

-- One pass more than there are tokens ends the parser, with a request or with an exception, unless a
-- keyword that ends another keyword's units comes before a number that ends a later keyword's.
pub parser-returns :
    (tokens : List Token)
    → is_stuck false tokens ≡ false
    → (r : Result (List DistributeGroup)) × (parser (suc (length tokens)) tokens ≡ some r)
unfolding parser
parser-returns tokens h =
    let (end, e) = loop-returns (suc (length tokens)) tokens initial (omega arith) h in
    (_, ap request_of e)

-- And on those tokens no number of passes ends it.
pub parser-diverges :
    (tokens : List Token) (fuel : ℕ) → is_stuck false tokens ≡ true → parser fuel tokens ≡ none
unfolding parser
parser-diverges tokens fuel h = ap request_of (loop-diverges fuel tokens initial h)
