-- ===== src/Tests/Scans.antt =====
-- A pool with one volume, one pending create and a payload that a tombstone has released.
use kadalu.Prelude.{◌≡◌, refl, none, true, false, List, [], ◌∷◌, Text, code_points}
use kadalu.Prelude.Int.{pos}
use kadalu.Exec.{ok}
use kadalu.Identifier.{is_valid_csi_identifier, volume_name_component, is_safe_path_component}
use kadalu.Identifier.Bytes.{utf8_char}
use kadalu.Json.{end, field, obj, int, str}
use kadalu.Intent.{volume_creation_intent}
use kadalu.Admission.{Records}
use kadalu.Admission.Archives.{Mount}
use kadalu.Admission.Scan.{InfoFile, capacity_metadata_records}
use kadalu.Admission.Scan.Sound.{SoundRecords, scan-SoundRecords}

abbrev same_hash : Text → Text
same_hash s = s

-- Nothing stands at any path.
abbrev mount : Mount
mount = record {
  contained = λ path. true;
  info_contained = λ path. true;
  regular = λ path. true;
  exists = λ path. ok false;
}

abbrev volume : Text
volume = code_points "pvc-1"

abbrev pending : Text
pending = code_points "pvc-2"

abbrev gone : Text
gone = code_points "pvc-3"

abbrev pending_path : Text
pending_path = code_points "subvol/pv/c-/pvc-2"

abbrev files : List InfoFile
files =
    InfoFile.metadata_file (code_points "subvol/pv/c-/pvc-1")
      (obj (field "size" (int (pos 20)) end))
    ∷ InfoFile.create_intent pending_path (
        obj
          (volume_creation_intent pending (code_points "subvol") pending_path (int (pos 30)) none))
    ∷ InfoFile.metadata_file (code_points "subvol/pv/c-/pvc-3") (
        obj (
          field "size" (int (pos 5)) (
            field "state" (str (code_points "deleting")) (
              field "volume_id" (str gone)
                (field "path_prefix" (str (code_points "subvol/pv/c-")) end)))))
    ∷ []

abbrev records : Records
records = record {
  reservations = (volume, 20) ∷ (pending, 30) ∷ [];
  aliases = [];
  tombstones = gone ∷ [];
}

scanned : capacity_metadata_records same_hash mount files ≡ ok records
unfolding capacity_metadata_records is_valid_csi_identifier utf8_char volume_name_component
    is_safe_path_component
scanned = refl

scan-SoundRecords_example : SoundRecords (capacity_metadata_records same_hash mount files)
scan-SoundRecords_example = scan-SoundRecords same_hash mount files
