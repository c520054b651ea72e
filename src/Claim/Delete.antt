-- ===== src/Claim/Delete.antt =====
-- What a claim grants, and what a whole-pool delete leaves behind.
use kadalu.Prelude.{
  ◌≡◌, ◌≢◌, refl, ap, ◌∙◌, Bool, true, false, not, ◌&&◌, Option, none, some, List, [], ◌∷◌, Text,
  text_eq, text_eq_iff, arith,
}
use kadalu.Prelude.Int.{ℤ, pos, ltb_ℤ}
use kadalu.Exec.{
  pool_claimed, pool_not_empty, Result, ok, err, Exec, Done, ◌>>=◌, ◌>>◌, continue, bind_ok,
  raise_if, pure,
}
use kadalu.Identifier.{is_valid_csi_identifier}
use kadalu.Claim.{
  Marker, absent, Root, Entry, State, active, deleting, retired, Claim, Race, Deletion, read_claim,
  read_single_pv_claim, claim_single_pv_volume, claim_from, own_claim, create_marker, new_claim,
  begin_single_pv_delete, begin_from, retire_single_pv_claim, retire_from, purge_single_pv_pool,
  delete_single_pv_volume_locked, owned_by, set_state, is_active, write_marker, reread,
  pool_has_unclaimed_data,
}
use kadalu.Claim.Laws.{IsRead, read_claim-IsRead, IsRead-read_claim, set_state-IsRead}
use kadalu.Claim.Later.{status, recorded, status-read, status-written}

status_cases :
    (r : Result (Option Claim)) (v : Text) (s : State)
    → recorded r ≡ some (v, s)
    → (c : Claim) × (r ≡ ok (some c)) × (c.volume_id ≡ v) × (c.state ≡ s)
status_cases (err e) v s h = cc
status_cases (ok none) v s h = cc
status_cases (ok (some c)) v s h = (c, refl, ground arith, ground arith)

ne→text_eq : (a b : Text) → a ≢ b → text_eq a b ≡ false
ne→text_eq a b h = ground (arith, text_eq_iff a b)

-- A delete on behalf of a volume that does not own the pool fails and touches neither the pool's
-- data nor its marker.
pub delete-other :
    (d : Deletion) (v w : Text) (s : State) (legacy : Option Text) (root : Root)
    → status root.marker ≡ some (w, s)
    → w ≢ v
    → delete_single_pv_volume_locked d v legacy root ≡ (err (pool_claimed w), root)
unfolding delete_single_pv_volume_locked read_single_pv_claim status
delete-other d v w s legacy root h ne =
    let (c, e, owner, _) = status_cases (read_claim root.marker) w s h in
    rw e (rw owner (rw (ne→text_eq w v ne) refl))

begin_from_ok :
    (write : Result Done) (v : Text) (o : Option Claim) (root : Root) (c : Claim)
    → read_claim root.marker ≡ ok o
    → (begin_from write v o root).0 ≡ ok c
    → (c.volume_id ≡ v)
      × (is_active c.state ≡ false)
      × (read_claim (begin_from write v o root).1.marker ≡ ok (some c))
begin_from_ok write v none root c e h = cc
begin_from_ok (err x) v (some o) root c e h = ground (arith, text_eq_iff o.volume_id v)
begin_from_ok (ok d) v (some o) root c e h = ground (
  arith,
  text_eq_iff o.volume_id v,
  IsRead-read_claim (set_state deleting o)
      (set_state-IsRead deleting o (read_claim-IsRead root.marker o e)),
)

retire_from_ok :
    (write : Result Done) (v : Text) (c : Claim) (root : Root)
    → read_claim root.marker ≡ ok (some c)
    → (retire_from write v (some c) root).0 ≡ ok tt
    → ((retire_from write v (some c) root).1.entries ≡ root.entries)
      × (status (retire_from write v (some c) root).1.marker ≡ some (v, retired))
retire_from_ok (err x) v c root e h = ground (arith, text_eq_iff c.volume_id v)
retire_from_ok (ok d) v c root e h = ground (
  arith,
  text_eq_iff c.volume_id v,
  status-written (set_state retired c)
      (set_state-IsRead retired c (read_claim-IsRead root.marker c e)),
)

begin_ok :
    (write : Result Done) (v : Text) (root : Root) (c : Claim)
    → (begin_single_pv_delete write v root).0 ≡ ok c
    → (c.volume_id ≡ v)
      × (is_active c.state ≡ false)
      × (read_claim (begin_single_pv_delete write v root).1.marker ≡ ok (some c))
unfolding begin_single_pv_delete read_single_pv_claim
begin_ok write v root c h =
    let (o, e, step) = bind_ok read_single_pv_claim (begin_from write v) root h in
    rw step (begin_from_ok write v o root c e (rw step at h))

purge_ok :
    (removed : Result Done) (remaining : List Entry) (root : Root)
    → (purge_single_pv_pool removed remaining root).0 ≡ ok tt
    → ((purge_single_pv_pool removed remaining root).1.entries ≡ [])
      × ((purge_single_pv_pool removed remaining root).1.marker ≡ root.marker)
unfolding purge_single_pv_pool
purge_ok (err e) remaining root h = cc
purge_ok (ok d) [] root h = (refl, refl)
purge_ok (ok d) (x ∷ xs) root h = cc

retire_ok :
    (write : Result Done) (v : Text) (c : Claim) (root : Root)
    → read_claim root.marker ≡ ok (some c)
    → (retire_single_pv_claim write v root).0 ≡ ok tt
    → ((retire_single_pv_claim write v root).1.entries ≡ root.entries)
      × (status (retire_single_pv_claim write v root).1.marker ≡ some (v, retired))
unfolding retire_single_pv_claim read_single_pv_claim
retire_ok write v c root e h = rw e (retire_from_ok write v c root e (rw e at h))

-- A whole-pool delete that returns leaves the pool empty, with a marker that retires it for ever.
pub delete_ok :
    (d : Deletion) (v : Text) (legacy : Option Text) (root : Root)
    → (delete_single_pv_volume_locked d v legacy root).0 ≡ ok tt
    → let root' = (delete_single_pv_volume_locked d v legacy root).1 in
      (root'.entries ≡ []) × (status root'.marker ≡ some (v, retired))
unfolding delete_single_pv_volume_locked
delete_ok d v legacy root h =
    let b : Exec Root Claim = begin_single_pv_delete d.begin_write v in
    let p : Exec Root Done = purge_single_pv_pool d.removed d.remaining in
    let r : Exec Root Done = retire_single_pv_claim d.retire_write v in
    let o : Option Claim → Exec Root Done = owned_by d.race v legacy d.capacity in
    let (c₀, e₀, s₀) = bind_ok read_single_pv_claim (λ c. o c >> (b >> (p >> r))) root h in
    let root₁ = (read_single_pv_claim root).1 in
    let (u₁, e₁, s₁) = bind_ok (o c₀) (λ _. b >> (p >> r)) root₁ (rw s₀ at h) in
    let root₂ = (o c₀ root₁).1 in
    let (c₂, e₂, s₂) = bind_ok b (λ _. p >> r) root₂ (rw (s₀ ∙ s₁) at h) in
    let root₃ = (b root₂).1 in
    let (u₃, e₃, s₃) = bind_ok p (λ _. r) root₃ (rw (s₀ ∙ s₁ ∙ s₂) at h) in
    let (owner, inactive, held) = begin_ok d.begin_write v root₂ c₂ e₂ in
    let (emptied, kept) = purge_ok d.removed d.remaining root₃ e₃ in
    let (same, done) =
      retire_ok d.retire_write v c₂ (p root₃).1 (ap read_claim kept ∙ held)
        (rw (s₀ ∙ s₁ ∙ s₂ ∙ s₃) at h) in
    rw (s₀ ∙ s₁ ∙ s₂ ∙ s₃) (same ∙ emptied, done)

new_claim-IsRead :
    (v : Text) (size : ℤ)
    → is_valid_csi_identifier v ≡ true
    → ltb_ℤ (pos 0) size ≡ true
    → IsRead (new_claim v size)
new_claim-IsRead v size valid positive = record {
  shape = rw positive refl;
  volume = rw valid refl;
  phase = refl;
}

own_claim_ok :
    (v : Text) (c c' : Claim) (root : Root)
    → (own_claim v c root).0 ≡ ok c'
    → (c'.volume_id ≡ v) × (c'.state ≡ active) × (c' ≡ c) × ((own_claim v c root).1 ≡ root)
own_claim_ok v c c' root h = ground (arith, text_eq_iff c.volume_id v)

-- What a successful claim gives: the pool's marker records this volume as its active owner.
abbrev pub Granted : Text → Result Claim × Root → Type 0
Granted v (ok c, root) =
    (c.volume_id ≡ v) × (c.state ≡ active) × (status root.marker ≡ some (v, active))
Granted v (err e, root) = Unit

own_claim-Granted :
    (v : Text) (c : Claim) (root : Root)
    → read_claim root.marker ≡ ok (some c)
    → Granted v (own_claim v c root)
own_claim-Granted v c root e =
    ground (arith, text_eq_iff c.volume_id v, status-read root.marker c e)

reread-Granted : (v : Text) (root : Root) → Granted v ((read_single_pv_claim >>= reread v) root)
unfolding read_single_pv_claim
reread-Granted v root = go (read_claim root.marker) refl
  where
    go :
        (r : Result (Option Claim))
        → read_claim root.marker ≡ r
        → Granted v (continue (reread v) (r, root))
    go (err x) e = tt
    go (ok none) e = tt
    go (ok (some c)) e = own_claim-Granted v c root e

create_marker-Granted :
    (race : Race) (v : Text) (size : ℤ) (m : Marker) (root : Root)
    → is_valid_csi_identifier v ≡ true
    → ltb_ℤ (pos 0) size ≡ true
    → Granted v (create_marker race v (new_claim v size) m root)
create_marker-Granted race v size absent root valid positive = go race.write
  where
    go :
        (w : Result Done)
        → Granted v
            (continue (λ _. write_marker (new_claim v size) >> pure (new_claim v size)) (w, root))
    go (ok d) =
        (refl, refl, status-written (new_claim v size) (new_claim-IsRead v size valid positive))
    go (err x) = tt
create_marker-Granted race v size m root valid positive = reread-Granted v _

claim_from-Granted :
    (race : Race) (v : Text) (size : ℤ) (allow : Bool) (o : Option Claim) (root : Root)
    → is_valid_csi_identifier v ≡ true
    → ltb_ℤ (pos 0) size ≡ true
    → read_claim root.marker ≡ ok o
    → Granted v (claim_from race v size allow o root)
claim_from-Granted race v size allow (some c) root valid positive e = own_claim-Granted v c root e
claim_from-Granted race v size allow none root valid positive e =
    go (not allow && pool_has_unclaimed_data root)
  where
    go :
        (b : Bool)
        → Granted v (
            continue
              (λ _ s.
                create_marker race v
                  (new_claim v size)
                  (race.before_create s.marker)
                  (record s { marker = race.before_create s.marker }))
              (raise_if b pool_not_empty root))
    go true = tt
    go false = create_marker-Granted race v size _ _ valid positive

-- For a valid name and a positive size, a claim that returns, by creating the marker, by finding
-- its own, or by losing the race to a client with the same volume, has made this volume the active
-- owner that the marker records.
pub claim_grants :
    (race : Race) (v : Text) (size : ℤ) (allow : Bool) (root : Root)
    → is_valid_csi_identifier v ≡ true
    → ltb_ℤ (pos 0) size ≡ true
    → Granted v (claim_single_pv_volume race v size allow root)
unfolding claim_single_pv_volume read_single_pv_claim
claim_grants race v size allow root valid positive = go (read_claim root.marker) refl
  where
    go :
        (r : Result (Option Claim))
        → read_claim root.marker ≡ r
        → Granted v (continue (claim_from race v size allow) (r, root))
    go (err x) e = tt
    go (ok o) e = claim_from-Granted race v size allow o root valid positive e
