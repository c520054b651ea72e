-- ===== src/Claim/Later.antt =====
-- The order of the states of a pool's marker, and operations that never go back in it.
use kadalu.Prelude.{ℕ, ◌≤◌, ◌≡◌, refl, ap, ◌∙◌, Option, none, some, Text, arith}
use kadalu.Exec.{continue, Result, ok, err, Exec, ◌>>=◌, ◌>>◌}
use kadalu.Json.{Json}
use kadalu.Claim.{
  Marker, document, Root, State, active, deleting, retired, Claim, read_claim, read_single_pv_claim,
  set_state,
}
use kadalu.Claim.Laws.{IsRead, read_claim-IsRead, IsRead-read_claim, set_state-IsRead}

abbrev pub rank : State → ℕ
rank active = 0
rank deleting = 1
rank retired = 2

-- The owner and the state that a marker records, if it holds a valid claim.
abbrev pub recorded : Result (Option Claim) → Option (Text × State)
recorded (ok (some c)) = some (c.volume_id, c.state)
recorded _ = none

unfoldable pub status : Marker → Option (Text × State)
unfolding read_claim
status m = recorded (read_claim m)

-- The owner stays and the state never goes back; a pool with no valid claim may get one.
abbrev pub Later : Option (Text × State) → Option (Text × State) → Type 0
Later none b = Unit
Later (some a) none = ⊥
Later (some (v, s)) (some (w, t)) = (w ≡ v) × (rank s ≤ rank t)

pub Later-refl : (a : Option (Text × State)) → Later a a
Later-refl none = tt
Later-refl (some (v, s)) = (refl, omega arith)

pub Later-trans : (a b c : Option (Text × State)) → Later a b → Later b c → Later a c
Later-trans none b c h k = tt
Later-trans (some a) none c h k = absurd h
Later-trans (some a) (some b) none h k = absurd k
Later-trans (some (u, r)) (some (v, s)) (some (w, t)) h k = (k.0 ∙ h.0, omega arith)

abbrev pub LaterMarker : Marker → Marker → Type 0
LaterMarker m n = Later (status m) (status n)

-- A client's operation never takes the marker back.
abbrev pub Advances : {A : Type 0} → Exec Root A → Type 0
Advances {A} m = (root : Root) → LaterMarker root.marker (m root).1.marker

pub Advances-bind :
    {A B : Type 0} (m : Exec Root A) (f : A → Exec Root B)
    → Advances m
    → ((a : A) → Advances (f a))
    → Advances (m >>= f)
Advances-bind {A} {B} m f h k root = go (m root) (h root)
  where
    go :
        (r : Result A × Root)
        → LaterMarker root.marker r.1.marker
        → LaterMarker root.marker (continue f r).1.marker
    go (ok a, s) l = Later-trans (status root.marker) (status s.marker) _ l (k a s)
    go (err e, s) l = l

pub Advances-then :
    {A B : Type 0} (m : Exec Root A) (k : Exec Root B) → Advances m → Advances k → Advances (m >> k)
Advances-then m k h l = Advances-bind m (λ _. k) h (λ _. l)

Advances-same :
    {A : Type 0} (m : Exec Root A) → ((root : Root) → (m root).1.marker ≡ root.marker) → Advances m
Advances-same m h root = rw (h root) (Later-refl (status root.marker))

-- An operation that begins by reading the claim.
abbrev pub AdvancesFrom : {A : Type 0} → (Option Claim → Exec Root A) → Type 0
AdvancesFrom f =
    (o : Option Claim) (root : Root)
    → read_claim root.marker ≡ ok o
    → LaterMarker root.marker (f o root).1.marker

pub Advances-read :
    {A : Type 0} (f : Option Claim → Exec Root A)
    → AdvancesFrom f
    → Advances (read_single_pv_claim >>= f)
unfolding read_single_pv_claim
Advances-read {A} f h root = go (read_claim root.marker) refl
  where
    go :
        (r : Result (Option Claim))
        → read_claim root.marker ≡ r
        → LaterMarker root.marker (continue f (r, root)).1.marker
    go (ok o) e = h o root e
    go (err x) e = Later-refl (status root.marker)

-- From a pool that holds no claim every marker is an advance.
pub unclaimed_advance : (m n : Marker) → read_claim m ≡ ok none → LaterMarker m n
unfolding status
unclaimed_advance m n e = rw (ap recorded e) tt

pub status-read :
    (m : Marker) (c : Claim) → read_claim m ≡ ok (some c) → status m ≡ some (c.volume_id, c.state)
unfolding status
status-read m c e = ap recorded e

pub status-written :
    (c : Claim) → IsRead c → status (document (Json.obj c.doc)) ≡ some (c.volume_id, c.state)
status-written c h = status-read (document (Json.obj c.doc)) c (IsRead-read_claim c h)

pub write_advance :
    (m : Marker) (c : Claim) (s : State)
    → read_claim m ≡ ok (some c)
    → rank c.state ≤ rank s
    → LaterMarker m (document (Json.obj (set_state s c).doc))
write_advance m c s e h =
    rw
      (
        status-read m c e,
        status-written (set_state s c) (set_state-IsRead s c (read_claim-IsRead m c e)),
      )
      (refl, h)
