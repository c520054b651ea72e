-- ===== src/Claim/Lifecycle.antt =====
-- The life of a dedicated pool's marker under all clients: active, deleting, retired.
use mathlib.Core.Path.{subst}
use kadalu.Prelude.{
  ℕ, ◌≤◌, ◌≡◌, refl, Bool, true, false, not, Option, none, some, List, [], ◌∷◌, Text, text_eq,
  text_eq_iff, arith, if◌then◌else◌,
}
use kadalu.Prelude.Int.{ℤ}
use kadalu.Exec.{
  Error, value_error, pool_claimed, raise_if, continue, pure, Result, ok, err, Exec, Done, ◌>>◌,
}
use kadalu.Claim.{
  replace_marker, Root, Entry, State, active, deleting, retired, Claim, Race, Deletion, read_claim,
  read_single_pv_claim, claim_single_pv_volume, claim_from, own_claim, single_pv_claim_matches,
  claim_matches, ensure_single_pv_claim, ensure_from, begin_single_pv_delete, begin_from,
  retire_single_pv_claim, retire_from, purge_single_pv_pool, delete_single_pv_volume_locked,
  owned_by, set_state, is_active,
}
use kadalu.Claim.Later.{
  rank, recorded, status, Later, Later-refl, Later-trans, LaterMarker, Advances, Advances-bind,
  Advances-then, AdvancesFrom, Advances-read, unclaimed_advance, write_advance,
}

-- One step of an operation, from one pool.
abbrev At : {A : Type 0} → Root → Exec Root A → Type 0
At root m = LaterMarker root.marker (m root).1.marker

At-if :
    {A : Type 0} (root : Root) (b : Bool) (m n : Exec Root A)
    → (b ≡ true → At root m)
    → (b ≡ false → At root n)
    → At root (if b then m else n)
At-if root true m n h k = h refl
At-if root false m n h k = k refl

At-replace_marker :
    (write : Result Done) (c : Claim) (s : State) (root : Root)
    → read_claim root.marker ≡ ok (some c)
    → rank c.state ≤ rank s
    → At root (replace_marker write (set_state s c))
At-replace_marker (ok d) c s root e h = write_advance root.marker c s e h
At-replace_marker (err x) c s root e h = Later-refl (status root.marker)

At-replaced :
    (write : Result Done) (c : Claim) (s : State) (root : Root)
    → read_claim root.marker ≡ ok (some c)
    → rank c.state ≤ rank s
    → At root (replace_marker write (set_state s c) >> pure (set_state s c))
At-replaced (ok d) c s root e h = write_advance root.marker c s e h
At-replaced (err x) c s root e h = Later-refl (status root.marker)

active_rank : (s t : State) → is_active s ≡ true → rank s ≤ rank t
active_rank s t h = ground arith

retired_rank : (s : State) → rank s ≤ rank retired
retired_rank s = ground arith

read-Advances : Advances read_single_pv_claim
unfolding read_single_pv_claim
read-Advances root = Later-refl (status root.marker)

begin_from-Advances : (write : Result Done) (v : Text) → AdvancesFrom (begin_from write v)
begin_from-Advances write v none root e = Later-refl (status root.marker)
begin_from-Advances write v (some c) root e =
    At-if root (not (text_eq c.volume_id v)) _ _ (λ _. Later-refl (status root.marker))
      (λ _.
        At-if root (is_active c.state) _ _
          (λ a. At-replaced write c deleting root e (active_rank c.state deleting a))
          (λ _. Later-refl (status root.marker)))

retire_from-Advances : (write : Result Done) (v : Text) → AdvancesFrom (retire_from write v)
retire_from-Advances write v none root e = Later-refl (status root.marker)
retire_from-Advances write v (some c) root e =
    At-if root (not (text_eq c.volume_id v)) _ _ (λ _. Later-refl (status root.marker))
      (λ _.
        At-if root (is_active c.state) _ _ (λ _. Later-refl (status root.marker))
          (λ _. At-replace_marker write c retired root e (retired_rank c.state)))

own_claim-same : (v : Text) (c : Claim) (root : Root) → At root (own_claim v c)
own_claim-same v c root =
    At-if root (not (is_active c.state)) _ _ (λ _. Later-refl (status root.marker))
      (λ _.
        At-if root (not (text_eq c.volume_id v)) _ _ (λ _. Later-refl (status root.marker))
          (λ _. Later-refl (status root.marker)))

claim_from-Advances :
    (race : Race) (v : Text) (size : ℤ) (allow : Bool) → AdvancesFrom (claim_from race v size allow)
claim_from-Advances race v size allow none root e = unclaimed_advance root.marker _ e
claim_from-Advances race v size allow (some c) root e = own_claim-same v c root

ensure_from-Advances :
    (race : Race) (v : Text) (legacy : Option Text) (capacity : Result ℕ)
    → AdvancesFrom (ensure_from race v legacy capacity)
ensure_from-Advances race v legacy capacity none root e = unclaimed_advance root.marker _ e
ensure_from-Advances race v legacy capacity (some c) root e = Later-refl (status root.marker)

begin-Advances : (write : Result Done) (v : Text) → Advances (begin_single_pv_delete write v)
unfolding begin_single_pv_delete
begin-Advances write v = Advances-read _ (begin_from-Advances write v)

retire-Advances : (write : Result Done) (v : Text) → Advances (retire_single_pv_claim write v)
unfolding retire_single_pv_claim
retire-Advances write v = Advances-read _ (retire_from-Advances write v)

claim-Advances :
    (race : Race) (v : Text) (size : ℤ) (allow : Bool)
    → Advances (claim_single_pv_volume race v size allow)
unfolding claim_single_pv_volume
claim-Advances race v size allow = Advances-read _ (claim_from-Advances race v size allow)

ensure-Advances :
    (race : Race) (v : Text) (legacy : Option Text) (capacity : Result ℕ)
    → Advances (ensure_single_pv_claim race v legacy capacity)
unfolding ensure_single_pv_claim
ensure-Advances race v legacy capacity =
    Advances-read _ (ensure_from-Advances race v legacy capacity)

raise_if-Advances : (b : Bool) (e : Error) → Advances (raise_if b e)
raise_if-Advances true e root = Later-refl (status root.marker)
raise_if-Advances false e root = Later-refl (status root.marker)

purge-Advances :
    (removed : Result Done) (remaining : List Entry)
    → Advances (purge_single_pv_pool removed remaining)
unfolding purge_single_pv_pool
purge-Advances (err e) remaining root = Later-refl (status root.marker)
purge-Advances (ok d) [] root = Later-refl (status root.marker)
purge-Advances (ok d) (x ∷ xs) root = Later-refl (status root.marker)

owned_by-Advances :
    (race : Race) (v : Text) (legacy : Option Text) (capacity : Result ℕ) (o : Option Claim)
    → Advances (owned_by race v legacy capacity o)
owned_by-Advances race v legacy capacity none =
    Advances-bind _ _ (ensure-Advances race v legacy capacity)
      (λ owned. raise_if-Advances (not owned) value_error)
owned_by-Advances race v legacy capacity (some c) =
    raise_if-Advances (not (text_eq c.volume_id v)) (pool_claimed c.volume_id)

delete-Advances :
    (d : Deletion) (v : Text) (legacy : Option Text)
    → Advances (delete_single_pv_volume_locked d v legacy)
unfolding delete_single_pv_volume_locked
delete-Advances d v legacy =
    let b : Exec Root Claim = begin_single_pv_delete d.begin_write v in
    let p : Exec Root Done = purge_single_pv_pool d.removed d.remaining in
    let r : Exec Root Done = retire_single_pv_claim d.retire_write v in
    let o : Option Claim → Exec Root Done = owned_by d.race v legacy d.capacity in
    Advances-bind read_single_pv_claim (λ c. o c >> (b >> (p >> r))) read-Advances
      λ c. Advances-then (o c) (b >> (p >> r)) (owned_by-Advances d.race v legacy d.capacity c) (
        Advances-then b (p >> r) (begin-Advances d.begin_write v) (
          Advances-then p r (purge-Advances d.removed d.remaining)
            (retire-Advances d.retire_write v)))

-- Everything that a client does to a dedicated pool's marker.
pub data Operation : Type 0 where
  claim : Race → Text → ℤ → Bool → Operation
  ensure : Race → Text → Option Text → Result ℕ → Operation
  begin_delete : Result Done → Text → Operation
  retire : Result Done → Text → Operation
  purge : Result Done → List Entry → Operation
  delete : Deletion → Text → Option Text → Operation

-- One operation, whatever it returns or raises.
abbrev pub run : Operation → Root → Root
run (claim race v size allow) root = (claim_single_pv_volume race v size allow root).1
run (ensure race v legacy capacity) root = (ensure_single_pv_claim race v legacy capacity root).1
run (begin_delete write v) root = (begin_single_pv_delete write v root).1
run (retire write v) root = (retire_single_pv_claim write v root).1
run (purge removed remaining) root = (purge_single_pv_pool removed remaining root).1
run (delete d v legacy) root = (delete_single_pv_volume_locked d v legacy root).1

abbrev pub run_all : List Operation → Root → Root
run_all [] root = root
run_all (op ∷ ops) root = run_all ops (run op root)

run-LaterMarker : (op : Operation) (root : Root) → LaterMarker root.marker (run op root).marker
run-LaterMarker (claim race v size allow) root = claim-Advances race v size allow root
run-LaterMarker (ensure race v legacy capacity) root = ensure-Advances race v legacy capacity root
run-LaterMarker (begin_delete write v) root = begin-Advances write v root
run-LaterMarker (retire write v) root = retire-Advances write v root
run-LaterMarker (purge removed remaining) root = purge-Advances removed remaining root
run-LaterMarker (delete d v legacy) root = delete-Advances d v legacy root

-- Whatever clients do to a pool that holds a valid claim, and however their calls end, the owner
-- stays the owner and the state never goes back from deleting to active or from retired.
pub run_all-LaterMarker :
    (ops : List Operation) (root : Root) → LaterMarker root.marker (run_all ops root).marker
run_all-LaterMarker [] root = Later-refl (status root.marker)
run_all-LaterMarker (op ∷ ops) root =
    Later-trans (status root.marker) (status (run op root).marker) _ (run-LaterMarker op root)
      (run_all-LaterMarker ops (run op root))

matches_status :
    (r : Result (Option Claim)) (root : Root) (w : Text)
    → (continue (λ c. pure (claim_matches w c)) (r, root)).0 ≡ ok true
    → recorded r ≡ some (w, active)
matches_status (err e) root w h = cc
matches_status (ok none) root w h = cc
matches_status (ok (some c)) root w h = ground (arith, text_eq_iff c.volume_id w)

Later-active :
    (v w : Text) (s : State) (b : Option (Text × State))
    → Later (some (v, s)) b
    → b ≡ some (w, active)
    → (w ≡ v) × (s ≡ active)
Later-active v w s none l e = absurd l
Later-active v w s (some (u, t)) l e = ground arith

-- Once a pool is claimed, a publish check can only ever succeed for the owner, and never again once
-- the owner's delete has begun: no sequence of operations hands the pool to another tenant.
pub matches-owner :
    (ops : List Operation) (root : Root) (v w : Text) (s : State)
    → status root.marker ≡ some (v, s)
    → (single_pv_claim_matches w (run_all ops root)).0 ≡ ok true
    → (w ≡ v) × (s ≡ active)
unfolding single_pv_claim_matches status read_single_pv_claim
matches-owner ops root v w s h m =
    Later-active v w s (status (run_all ops root).marker)
      (subst (λ a. Later a (status (run_all ops root).marker)) h (run_all-LaterMarker ops root))
      (matches_status (read_claim (run_all ops root).marker) (run_all ops root) w m)
