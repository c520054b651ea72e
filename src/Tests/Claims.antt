-- ===== src/Tests/Claims.antt =====
-- A dedicated pool claimed by one volume, and the calls of two.
use kadalu.Prelude.{
  ◌≡◌, refl, none, some, List, [], ◌∷◌, Text, code_points, text_eq_iff, false≢true, false,
}
use kadalu.Prelude.Int.{pos}
use kadalu.Exec.{ok, err, pool_claimed}
use kadalu.Identifier.Bytes.{utf8_char}
use kadalu.Identifier.{is_valid_csi_identifier, is_safe_path_component}
use kadalu.Json.{Json}
use kadalu.Claim.{
  document, absent, Root, active, retired, Race, Deletion, new_claim, read_claim,
  read_single_pv_claim, single_pv_claim_matches, begin_single_pv_delete, retire_single_pv_claim,
  purge_single_pv_pool, delete_single_pv_volume_locked, claim_single_pv_volume,
}
use kadalu.Claim.Lifecycle.{Operation, run_all, matches-owner, run_all-LaterMarker}
use kadalu.Claim.Later.{status, LaterMarker}
use kadalu.Claim.Delete.{delete_ok, delete-other, Granted, claim_grants}

abbrev owner : Text
owner = code_points "pvc-1"

abbrev other : Text
other = code_points "pvc-2"

abbrev claimed : Root
claimed = record { marker = document (Json.obj (new_claim owner (pos 10)).doc); entries = [] }

abbrev fresh : Root
fresh = record { marker = absent; entries = [] }

abbrev quiet : Race
quiet = record { before_create = λ m. m; before_reread = λ m. m; write = ok tt }

abbrev deletion : Deletion
deletion = record {
  race = quiet;
  capacity = ok 10;
  begin_write = ok tt;
  removed = ok tt;
  remaining = [];
  retire_write = ok tt;
}

-- Another volume tries to delete the pool, then the owner is checked.
abbrev attempts : List Operation
attempts = Operation.begin_delete (ok tt) other ∷ []

matches-owner_example : (owner ≡ owner) × (active ≡ active)
unfolding status read_claim read_single_pv_claim is_valid_csi_identifier is_safe_path_component
    utf8_char single_pv_claim_matches begin_single_pv_delete
matches-owner_example = matches-owner attempts claimed owner owner active refl refl

run_all-LaterMarker_example : LaterMarker claimed.marker (run_all attempts claimed).marker
run_all-LaterMarker_example = run_all-LaterMarker attempts claimed

delete_ok_example :
    let root' = (delete_single_pv_volume_locked deletion owner none claimed).1 in
    (root'.entries ≡ []) × (status root'.marker ≡ some (owner, retired))
unfolding status read_claim read_single_pv_claim is_valid_csi_identifier is_safe_path_component
    utf8_char delete_single_pv_volume_locked begin_single_pv_delete purge_single_pv_pool
    retire_single_pv_claim
delete_ok_example = delete_ok deletion owner none claimed refl

delete-other_example :
    delete_single_pv_volume_locked deletion other none claimed ≡ (err (pool_claimed owner), claimed)
unfolding status read_claim is_valid_csi_identifier is_safe_path_component utf8_char
delete-other_example =
    delete-other deletion other owner active none claimed refl
      (λ e. false≢true ((text_eq_iff owner other).1 e))

claim_grants_example : Granted owner (claim_single_pv_volume quiet owner (pos 10) false fresh)
unfolding is_valid_csi_identifier is_safe_path_component utf8_char
claim_grants_example = claim_grants quiet owner (pos 10) false fresh refl refl
