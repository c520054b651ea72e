-- ===== src/Tests/Mounts.antt =====
-- Mount tables, flags and the sidecars of published volumes.
use kadalu.Prelude.{
  ◌≡◌, refl, some, true, false, List, [], ◌∷◌, ◌&&◌, ◌||◌, Text, text_eq, code_points,
}
use kadalu.Json.{obj, str}
use kadalu.PosixPath.{normpath}
use kadalu.MountTable.{
  validated_mount_flags, target_path_is_mounted, has_exact_gluster_mount, read_mountinfo,
}
use kadalu.MountTable.Flags.{AsGiven, validated_mount_flags-AsGiven}
use kadalu.Publish.{state_fields, publish_state_matches, same_mount_identity_generation}
use kadalu.Publish.Identity.{publish_state_matches_lem}

abbrev flags : List Text
flags = code_points "noatime" ∷ code_points "gid=7" ∷ []

validated_mount_flags-AsGiven_example : AsGiven true flags (validated_mount_flags flags)
validated_mount_flags-AsGiven_example = validated_mount_flags-AsGiven true flags

abbrev volume : Text
volume = code_points "pvc-1"

abbrev subvol : Text
subvol = code_points "rawblock"

abbrev path : Text
path = code_points "rawblock/pv/c-/pvc-1"

abbrev pool : Text
pool = code_points "pool"

abbrev identity : Text
identity = code_points "generation-fingerprint"

publish_state_matches_lem_example :
    publish_state_matches
      (some (obj (state_fields volume subvol path pool identity)))
      (some (state_fields volume subvol path pool identity))
      false
    ≡ (text_eq volume volume
        && text_eq subvol subvol
        && text_eq path path
        && text_eq pool pool
        && (text_eq identity identity
            || (false
                && same_mount_identity_generation (some (str identity)) (some (str identity)))))
publish_state_matches_lem_example =
    publish_state_matches_lem volume volume subvol subvol path path pool pool identity identity
      false

-- A line of mountinfo, and one of mounts.
mounted :
    target_path_is_mounted
      (code_points "36 35 98:0 /mnt1 /mnt/a\\040b rw,noatime - ext3 /dev/root rw" ∷ [])
      (code_points "/mnt//a b")
    ≡ true
unfolding read_mountinfo normpath
mounted = refl

gluster :
    has_exact_gluster_mount
      (code_points "kadalu:pool:id:1 /mnt/pool fuse.glusterfs rw 0 0" ∷ [])
      pool
      (code_points "/mnt/pool")
      (some (code_points "id:1"))
    ≡ true
unfolding has_exact_gluster_mount normpath
gluster = refl
