-- ===== src/Reclaim/Ready.antt =====
-- When a delete may begin, or begin again, and when it is done.
use kadalu.Prelude.{
  ℕ, suc, ◌≡◌, refl, false, none, some, List, [], ◌∷◌, Text, text_eq, text_eq_refl, arith, ◌⊎◌, inl,
  code_points,
}
use kadalu.Prelude.Int.{pos}
use kadalu.Json.{Fields, get, get-put, str, obj, int}
use kadalu.Accounting.{Tables, without}
use kadalu.Accounting.Rows.{reserved}
use kadalu.Accounting.Laws.{reserved-without}
use kadalu.Intent.{Files, read_file, unlink, write_file}
use kadalu.Reclaim.Crash.{has_payload-drop_payload}
use kadalu.Exec.{Exec, Done}
use kadalu.Intent.{read_volume_creation_intent}
use kadalu.Intent.Expansion.{read_volume_expansion_intent}
use kadalu.Reclaim.{settled, Disk, Volume, deleting_metadata, has_payload, drop_payload}

pub record IsTombstone (vol : Volume) (metadata : Fields) : Type 0 where
  pub state : get "state" metadata ≡ some (str (code_points "deleting"))
  pub volume_id : get "volume_id" metadata ≡ some (str vol.volname)

-- No other volume's reservation differs.
abbrev pub IsOnly : Volume → Tables → Disk → Type 0
IsOnly vol t d =
    (v : Text)
    → text_eq vol.volname v ≡ false
    → reserved d.tables.pv_stats v ≡ reserved t.pv_stats v

-- A volume of `suc n` bytes that has metadata and no pending intent: a delete may begin, or begin
-- again. `t` is stat.db before the first one.
pub record IsReady (vol : Volume) (n : ℕ) (t : Tables) (d : Disk) : Type 0 where
  pub others : IsOnly vol t d
  pub metadata : Fields
  pub recorded : read_file vol.info_path d.infos ≡ some (obj metadata)
  pub sized : get "size" metadata ≡ some (int (pos (suc n)))
  pub stated : IsTombstone vol metadata ⊎ (get "state" metadata ≡ none)
  pub no_creation : read_file vol.volpath d.creations ≡ none
  pub no_expansion : read_file vol.volpath d.expansions ≡ none

pub record IsReclaimed (vol : Volume) (t : Tables) (d : Disk) : Type 0 where
  pub others : IsOnly vol t d
  pub payload : has_payload vol.volpath d.payloads ≡ false
  pub capacity : reserved d.tables.pv_stats vol.volname ≡ 0
  pub metadata : read_file vol.info_path d.infos ≡ none

pub read_file-unlink : (p : Text) (fs : Files) → read_file p (unlink p fs) ≡ none
read_file-unlink p [] = refl
read_file-unlink p ((q, v) ∷ fs) = ground (arith, read_file-unlink p fs)

module _ (vol : Volume) (n : ℕ) where
  -- The disk after the payload, its reservation and its metadata are gone.
  abbrev pub reclaimed : ℕ → Disk → Disk
  reclaimed b d = record d {
    payloads = drop_payload vol.volpath d.payloads;
    tables = record d.tables { pv_stats = without vol.volname d.tables.pv_stats };
    infos = unlink vol.info_path d.infos;
    budget = b;
  }

  pub released-IsOnly :
      (d : Disk) (t : Tables)
      → IsOnly vol t d
      → IsOnly vol t (record d {
        tables = record d.tables { pv_stats = without vol.volname d.tables.pv_stats };
      })
  released-IsOnly d t h v different = rw reserved-without (rw different (h v different))

  pub reclaimed-IsReclaimed :
      (b : ℕ) (d : Disk) (t : Tables) → IsOnly vol t d → IsReclaimed vol t (reclaimed b d)
  reclaimed-IsReclaimed b d t h = record {
    others = released-IsOnly d t h;
    payload = has_payload-drop_payload vol.volpath d.payloads;
    capacity = rw reserved-without (rw text_eq_refl refl);
    metadata = read_file-unlink vol.info_path d.infos;
  }

  -- Only the metadata files and the intents decide whether a delete may begin.
  pub still_ready :
      (d : Disk) (ps : List Text) (b : ℕ) {t : Tables}
      → IsReady vol n t d
      → IsReady vol n t (record d { payloads = ps; budget = b })
  still_ready d ps b ready = record {
    others = ready.others;
    metadata = ready.metadata;
    recorded = ready.recorded;
    sized = ready.sized;
    stated = ready.stated;
    no_creation = ready.no_creation;
    no_expansion = ready.no_expansion;
  }

  pub released_ready :
      (d : Disk) {t : Tables}
      → IsReady vol n t d
      → IsReady vol n t (record d {
        payloads = drop_payload vol.volpath d.payloads;
        tables = record d.tables { pv_stats = without vol.volname d.tables.pv_stats };
        budget = 0;
      })
  released_ready d {t} ready = record {
    others = released-IsOnly d t ready.others;
    metadata = ready.metadata;
    recorded = ready.recorded;
    sized = ready.sized;
    stated = ready.stated;
    no_creation = ready.no_creation;
    no_expansion = ready.no_expansion;
  }

  pub marked_ready :
      (b : ℕ) (d : Disk) {t : Tables} (ready : IsReady vol n t d)
      → IsReady vol n t (record d {
        infos =
            write_file vol.info_path (obj (deleting_metadata vol.volname ready.metadata)) d.infos;
        budget = b;
      })
  marked_ready b d ready = record {
    others = ready.others;
    metadata = deleting_metadata vol.volname ready.metadata;
    recorded = rw text_eq_refl refl;
    sized = rw get-put (rw get-put ready.sized);
    stated = inl (record { state = rw get-put (rw get-put refl); volume_id = rw get-put refl });
    no_creation = ready.no_creation;
    no_expansion = ready.no_expansion;
  }

-- Metadata of a positive size, whatever its state, and no pending intent.
pub record IsSized (vol : Volume) (n : ℕ) (d : Disk) : Type 0 where
  pub metadata : Fields
  pub recorded : read_file vol.info_path d.infos ≡ some (obj metadata)
  pub sized : get "size" metadata ≡ some (int (pos (suc n)))
  pub no_creation : read_file vol.volpath d.creations ≡ none
  pub no_expansion : read_file vol.volpath d.expansions ≡ none

pub settled-sized :
    (hash : Text → Text) (vol : Volume) (n : ℕ) (k : Fields → ℕ → Exec Disk Done) (d : Disk)
    (found : IsSized vol n d)
    → settled hash vol k d ≡ k found.metadata (suc n) d
unfolding read_volume_expansion_intent read_volume_creation_intent
settled-sized hash vol n k d found =
    rw found.recorded (rw found.no_expansion (rw found.sized (rw found.no_creation refl)))
