-- ===== src/Reclaim/Frame.antt =====
-- What the parts of a reclaim leave alone.
use kadalu.Prelude.{
  code_points, not, ◌&&◌, ◌≡◌, refl, ◌∙◌, ℕ, zero, suc, Bool, true, false, Option, none, some, Text,
}
use kadalu.Exec.{Result, ok, err, Exec, Done, lift, raise_if, continue, Error, value_error, ◌>>=◌}
use kadalu.Json.{Json, Fields, get, put}
use kadalu.Intent.{Files, finish_volume_creation, validate_committed_creation}
use kadalu.Intent.Expansion.{finish_volume_expansion, read_volume_expansion_intent}
use kadalu.Reclaim.{
  Disk, Volume, spend, tick, write_info, unlink_info, on_creations, on_expansions, read_document,
  settle_expansion, settle_target, settle_creation, ensure_tombstone, settled, same_value,
  deleting_metadata, is_string, drop_expansion, pending_creation, as_object, valid_metadata_size,
}

-- `m` touches neither the payloads nor stat.db.
pub record Quiet {A : Type 0} (m : Exec Disk A) : Type 0 where
  pub at : (d : Disk) → ((m d).1.tables ≡ d.tables) × ((m d).1.payloads ≡ d.payloads)

pub Quiet-then :
    {A B : Type 0} {m : Exec Disk A} {f : A → Exec Disk B}
    → Quiet m
    → ((a : A) → Quiet (f a))
    → Quiet (m >>= f)
Quiet-then {A} {B} {m} {f} qm qf = record { at = λ d. go d (m d) (qm.at d) }
  where
    go :
        (d : Disk) (r : Result A × Disk)
        → ((r.1.tables ≡ d.tables) × (r.1.payloads ≡ d.payloads))
        → ((continue f r).1.tables ≡ d.tables) × ((continue f r).1.payloads ≡ d.payloads)
    go d (ok a, e) (t, p) = let (t', p') = (qf a).at e in (t' ∙ t, p' ∙ p)
    go d (err x, e) h = h

pub Quiet-lift : {A : Type 0} (r : Result A) → Quiet (lift r)
Quiet-lift r = record { at = λ d. (refl, refl) }

pub tick-Quiet : Quiet tick
tick-Quiet = record { at = λ d. go d.budget d }
  where
    go :
        (b : ℕ) (d : Disk)
        → ((spend b d).1.tables ≡ d.tables) × ((spend b d).1.payloads ≡ d.payloads)
    go zero d = (refl, refl)
    go (suc b) d = (refl, refl)

pub raise_if-Quiet : (b : Bool) (e : Error) → Quiet (raise_if b e)
raise_if-Quiet true e = Quiet-lift (err e)
raise_if-Quiet false e = Quiet-lift (ok tt)

pub write_info-Quiet : (p : Text) (fs : Fields) → Quiet (write_info p fs)
write_info-Quiet p fs = Quiet-then tick-Quiet (λ _. record { at = λ d. (refl, refl) })

pub unlink_info-Quiet : (p : Text) → Quiet (unlink_info p)
unlink_info-Quiet p = Quiet-then tick-Quiet (λ _. record { at = λ d. (refl, refl) })

on_expansions-Quiet : {A : Type 0} (m : Exec Files A) → Quiet (on_expansions m)
on_expansions-Quiet m = record { at = λ d. (refl, refl) }

on_creations-Quiet : {A : Type 0} (m : Exec Files A) → Quiet (on_creations m)
on_creations-Quiet m = record { at = λ d. (refl, refl) }

pub ensure_tombstone-Quiet :
    (vol : Volume) (metadata : Fields) (o : Option Json) → Quiet (ensure_tombstone vol metadata o)
ensure_tombstone-Quiet vol metadata none =
    write_info-Quiet vol.info_path (deleting_metadata vol.volname metadata)
ensure_tombstone-Quiet vol metadata (some Json.null) =
    write_info-Quiet vol.info_path (deleting_metadata vol.volname metadata)
ensure_tombstone-Quiet vol metadata (some state) =
    raise_if-Quiet
      (not (
        is_string (some state) (code_points "deleting")
        && is_string (get "volume_id" metadata) vol.volname))
      value_error

read_document-Quiet : (p : Text) → Quiet (read_document p)
read_document-Quiet p = record { at = λ d. (refl, refl) }

module _ (hash : Text → Text) where
  drop_expansion-Quiet :
      (vol : Volume) (metadata intent : Fields) (to_size : Json)
      → Quiet (drop_expansion hash vol metadata intent to_size)
  drop_expansion-Quiet vol metadata intent to_size =
      Quiet-then (write_info-Quiet vol.info_path (put "size" to_size metadata)) (λ _.
        Quiet-then tick-Quiet (λ _.
          Quiet-then
            (on_expansions-Quiet
              (finish_volume_expansion hash vol.volname vol.voltype vol.volpath intent))
            (λ _. Quiet-lift (ok (put "size" to_size metadata)))))

  settle_target-Quiet :
      (vol : Volume) (metadata intent : Fields) (o : Option Json)
      → Quiet (settle_target hash vol metadata intent o)
  settle_target-Quiet vol metadata intent none = Quiet-lift (err value_error)
  settle_target-Quiet vol metadata intent (some to_size) =
      Quiet-then
        (raise_if-Quiet
          (not (same_value (get "size" metadata) (get "from_size" intent))
            && not (same_value (get "size" metadata) (some to_size)))
          value_error)
        (λ _. drop_expansion-Quiet vol metadata intent to_size)

  settle_expansion-Quiet :
      (vol : Volume) (metadata : Fields) (o : Option Fields)
      → Quiet (settle_expansion hash vol metadata o)
  settle_expansion-Quiet vol metadata none = Quiet-lift (ok metadata)
  settle_expansion-Quiet vol metadata (some intent) =
      settle_target-Quiet vol metadata intent (get "to_size" intent)

  settle_creation-Quiet :
      (vol : Volume) (metadata : Fields) (o : Option Fields)
      → Quiet (settle_creation hash vol metadata o)
  settle_creation-Quiet vol metadata none = Quiet-lift (ok tt)
  settle_creation-Quiet vol metadata (some intent) =
      Quiet-then (Quiet-lift (validate_committed_creation (Json.obj metadata) (Json.obj intent)))
        (λ _. Quiet-then tick-Quiet (λ _.
          on_creations-Quiet
            (finish_volume_creation hash vol.volname vol.voltype vol.volpath intent)))

  pub pending_creation-Quiet : (vol : Volume) → Quiet (pending_creation hash vol)
  pending_creation-Quiet vol = record { at = λ d. (refl, refl) }

abbrev pub IsQuietly : Disk → Disk → Type 0
IsQuietly d e = (e.tables ≡ d.tables) × (e.payloads ≡ d.payloads)

-- `m` keeps a relation between the disks before and after.
pub record Keeps (R : Disk → Disk → Type 0) {A : Type 0} (m : Exec Disk A) : Type 0 where
  pub at : (d : Disk) → R d (m d).1

-- Relations that a quiet prefix does not disturb.
pub record IsFramed (R : Disk → Disk → Type 0) : Type 0 where
  pub before : (d e f : Disk) → IsQuietly d e → R e f → R d f
  pub same : (d e : Disk) → IsQuietly d e → R d e

pub Keeps-then :
    {R : Disk → Disk → Type 0} {A B : Type 0} {m : Exec Disk A} {f : A → Exec Disk B}
    → IsFramed R
    → Quiet m
    → ((a : A) → Keeps R (f a))
    → Keeps R (m >>= f)
Keeps-then {R} {A} {B} {m} {f} framed qm k = record { at = λ d. go d (m d) (qm.at d) }
  where
    go : (d : Disk) (r : Result A × Disk) → IsQuietly d r.1 → R d (continue f r).1
    go d (ok a, e) q = framed.before d e _ q ((k a).at e)
    go d (err x, e) q = framed.same d e q

-- Whatever the intents are, settling them is quiet.
pub settled-Keeps :
    {R : Disk → Disk → Type 0} (hash : Text → Text) (vol : Volume) (k : Fields → ℕ → Exec Disk Done)
    → IsFramed R
    → ((metadata : Fields) (n : ℕ) → Keeps R (k metadata n))
    → Keeps R (settled hash vol k)
settled-Keeps hash vol k framed h =
    Keeps-then framed (read_document-Quiet vol.info_path) (λ document.
      Keeps-then framed
        (on_expansions-Quiet
          (read_volume_expansion_intent hash vol.volname vol.voltype vol.volpath))
        (λ expansion. Keeps-then framed (Quiet-lift (as_object document)) (λ metadata.
          Keeps-then framed (settle_expansion-Quiet hash vol metadata expansion) (λ current.
            Keeps-then framed (Quiet-lift (valid_metadata_size (get "size" current))) (λ size.
              Keeps-then framed (pending_creation-Quiet hash vol) (λ creation.
                Keeps-then framed (settle_creation-Quiet hash vol current creation)
                  (λ _. h current size)))))))
