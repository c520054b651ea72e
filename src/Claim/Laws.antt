-- ===== src/Claim/Laws.antt =====
-- What a marker that was written reads back as.
use kadalu.Prelude.{◌≡◌, refl, ap, ◌∙◌, Bool, true, false, Option, none, some, Text, arith}
use kadalu.Exec.{ok}
use kadalu.Json.{Json, Fields, get, get-put}
use kadalu.Claim.{
  Marker, document, State, active, deleting, retired, Claim, state_name, state_of, volume_id_of,
  valid_shape, claim_with, claim_of, read_claim, set_state,
}

claim_with_cases :
    (doc : Fields) (valid : Bool) (v : Option Text) (s : Option State) (c : Claim)
    → claim_with doc valid v s ≡ ok (some c)
    → (valid ≡ true) × (v ≡ some c.volume_id) × (s ≡ some c.state) × (c.doc ≡ doc)
claim_with_cases doc true (some v) (some s) c h = ground arith
claim_with_cases doc false (some v) (some s) c h = cc
claim_with_cases doc valid none s c h = cc
claim_with_cases doc valid (some v) none c h = cc

-- A claim stands for its document: the shape is valid, and volume and state are those recorded.
pub record IsRead (c : Claim) : Type 0 where
  pub shape : valid_shape c.doc ≡ true
  pub volume : volume_id_of (get "volume_id" c.doc) ≡ some c.volume_id
  pub phase : state_of (get "state" c.doc) ≡ some c.state

claim_of-IsRead : (doc : Fields) (c : Claim) → claim_of doc ≡ ok (some c) → IsRead c
claim_of-IsRead doc c h =
    let (shape, volume, phase, same) = claim_with_cases doc _ _ _ c h in
    record { shape = rw same shape; volume = rw same volume; phase = rw same phase }

pub read_claim-IsRead : (m : Marker) (c : Claim) → read_claim m ≡ ok (some c) → IsRead c
unfolding read_claim
read_claim-IsRead (document (Json.obj doc)) c h = claim_of-IsRead doc c h
read_claim-IsRead (document Json.null) c h = cc
read_claim-IsRead (document (Json.bool b)) c h = cc
read_claim-IsRead (document (Json.int n)) c h = cc
read_claim-IsRead (document (Json.str s)) c h = cc
read_claim-IsRead (document (Json.arr xs)) c h = cc
read_claim-IsRead _ c h = cc

pub IsRead-read_claim :
    (c : Claim) → IsRead c → read_claim (document (Json.obj c.doc)) ≡ ok (some c)
unfolding read_claim
IsRead-read_claim c h = rw (h.shape, h.volume, h.phase)

state_of-state_name : (s : State) → state_of (some (Json.str (state_name s))) ≡ some s
state_of-state_name active = refl
state_of-state_name deleting = refl
state_of-state_name retired = refl

pub set_state-IsRead : (s : State) (c : Claim) → IsRead c → IsRead (set_state s c)
set_state-IsRead s c h = record {
  shape = simp get-put h.shape;
  volume = ap volume_id_of (get-put "state" "volume_id" (Json.str (state_name s)) c.doc) ∙ h.volume;
  phase =
      ap state_of (get-put "state" "state" (Json.str (state_name s)) c.doc) ∙ state_of-state_name s;
}
