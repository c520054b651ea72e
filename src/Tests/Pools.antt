-- ===== src/Tests/Pools.antt =====
-- Two shared pools and a dedicated one, and the capacity of requests.
use kadalu.Prelude.{arith, ◌≡◌, refl, none, some, true, false, [], ◌∷◌, Text, code_points}
use kadalu.Prelude.Int.{pos}
use kadalu.Exec.{ok, err, os_error}
use kadalu.Json.{Json, Fields, end, field, cons, nil}
use kadalu.Accounting.{Tables}
use kadalu.Accounting.Rows.{AreValid}
use kadalu.Accounting.Refinement.{put, view}
use kadalu.Admission.{Scene}
use kadalu.Admission.Select.{Candidate, mount_single_pv_hosting_volume}
use kadalu.Admission.Select.Outcome.{IsDedicatedChoice, mount_single-IsDedicatedChoice}
use kadalu.Controller.{
  CapacityRange, CreateRequest, requested_capacity, reconcile_committed_capacity,
}
use kadalu.Controller.Capacity.{IsRequested, requested_capacity-IsRequested}
use kadalu.Controller.Repair.{reconcile_committed_capacity-put}
use kadalu.Controller.Retry.{
  ExistingVolume, existing_volume_is_compatible, IsSamePlace, compatible-requested,
}

abbrev same_hash : Text → Text
same_hash s = s

abbrev volume : Text
volume = code_points "pvc-1"

abbrev empty : Tables
empty = record { summary = []; pv_stats = [] }

abbrev nothing : Scene
nothing = record {
  scanned = ok (record { reservations = []; aliases = []; tombstones = [] });
  total_size = 100;
  uuid = volume;
  race = none;
}

abbrev down : Candidate
down = record {
  name = code_points "pool-1";
  doc = end;
  mounted = err os_error;
  stat = ok 100;
  opened = true;
  busy = false;
  grants = 1;
  scene = nothing;
  tables = empty;
  intents = [];
}

abbrev up : Candidate
up = record down { name = code_points "pool-2"; mounted = ok tt }

abbrev own : Candidate
own = record up {
  doc =
      field "single_pv_per_pool" (Json.bool true)
        (field "single_pv_claim_version" (Json.int (pos 1)) end);
}

mount_single-IsDedicatedChoice_example :
    IsDedicatedChoice 10 0 (up ∷ own ∷ []) (mount_single_pv_hosting_volume (up ∷ own ∷ []) 10 0)
mount_single-IsDedicatedChoice_example = mount_single-IsDedicatedChoice (up ∷ own ∷ []) 10 0

abbrev range : CapacityRange
range = record { required_bytes = pos 10; limit_bytes = pos 20 }

requested_capacity-IsRequested_example : IsRequested range (requested_capacity (some range) (pos 5))
requested_capacity-IsRequested_example = requested_capacity-IsRequested range (pos 5)

abbrev request : CreateRequest
request = record { capabilities = []; parameters = end; capacity_range = some range }

abbrev existing : ExistingVolume
existing = record {
  size = pos 10;
  voltype = code_points "subvol";
  hostvol = code_points "pool-1";
  hostvoltype = code_points "Replica3";
  node_affinity = none;
  single_pv_per_pool = false;
  ghost = none;
  gvolname = none;
  goptions = none;
}

compatible-requested_example :
    (existing_volume_is_compatible existing request (code_points "subvol") ≡ ok true
      → IsSamePlace existing request (code_points "subvol"))
    × (IsSamePlace existing request (code_points "subvol")
        → existing_volume_is_compatible existing request (code_points "subvol") ≡ ok true)
unfolding requested_capacity
compatible-requested_example =
    compatible-requested existing request range (code_points "subvol") (pos 5) refl refl

reconcile_committed_capacity-put_example :
    let (r, t') =
      reconcile_committed_capacity same_hash
        (code_points "pool-1")
        1
        (ok tt)
        (ok tt)
        1
        volume
        10
        empty in
    (r ≡ ok tt) × AreValid t'.pv_stats × ((j : Text) → view t' j ≡ put volume 10 (view empty) j)
reconcile_committed_capacity-put_example =
    reconcile_committed_capacity-put same_hash (code_points "pool-1") volume 1 0 9 empty tt
      (omega arith)

abbrev pool_info : Fields
pool_info = field "type" (Json.str (code_points "Replica1")) (
    field "bricks"
      (Json.arr (cons (Json.obj (field "kube_hostname" (Json.str (code_points "node-1")) end)) nil))
      end)

abbrev on_node : Fields
on_node = field "node_affinity" (Json.str (code_points "node-1")) end
