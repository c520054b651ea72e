-- ===== src/Lib.antt =====
-- Kadalu: dynamic storage for Kubernetes over GlusterFS. A CSI driver (csi/) carves volumes out
-- of hosting volumes ("pools") that the operator declares; lib/ has what its parts share.
--
-- The parts, and how they interact:
--
-- - Identifier, Identifier/Paths: names of volumes and the paths of their payload, in
--   lib/kadalulib.py (is_safe_path_component, is_valid_csi_identifier, volume_name_component,
--   volume_name_from_component, get_volume_path), Identifier/Legacy (get_legacy_volume_path, and
--   _canonical_volume_paths of csi/volumeutils.py); PosixPath: the functions of Python's
--   posixpath that the code calls. Everything below names a volume by such a name.
-- - Accounting: class SizeAccounting of lib/kadalulib.py, the tables `summary` and `pv_stats` of
--   the file stat.db of one pool, with a connection and its transaction; Accounting/Client has
--   its direct users in csi/volumeutils.py (update_free_size, get_accounted_pv_size,
--   archive_pv_reservation).
-- - Claim: the ownership marker of a dedicated pool, an extended attribute, in csi/volumeutils.py
--   (read_single_pv_claim to purge_single_pv_pool, _delete_single_pv_volume_locked).
-- - Intent: the durable intents of creates, in csi/volumeutils.py (_volume_creation_intent to
--   finish_volume_creation, validate_committed_creation) and finish_committed_creation of
--   csi/controllerserver.py. Intent/Expansion: those of expansions (_expansion_intent to
--   prepare_volume_expansion, finish_volume_expansion).
-- - Admission: csi/volumeutils.py from _rebuild_committed_capacity to _admit_volume_creation:
--   under one write transaction the accounting is rebuilt from the metadata, the free space is
--   checked, the intent is written and the capacity reserved. Admission/Select is the choice
--   among pools (mount_and_select_hosting_volume, mount_single_pv_hosting_volume),
--   Admission/Release the end of an archive (release_archived_pv_reservation), Admission/Expand
--   the admission of an expansion (reserve_volume_expansion). Admission/Scan is the scan of the
--   metadata that a rebuild starts from (_capacity_metadata_records), with Admission/Identity
--   (_capacity_record_identity, _delete_tombstone_payload_path) and Admission/Archives
--   (archive_metadata_details, _legacy_archive_details); the other modules take what a scan
--   returns or raises.
-- - Reclaim, Reclaim/Archive, Reclaim/Pending: _delete_managed_volume of csi/volumeutils.py, with
--   _archive_volume, and _delete_pending_creation, as the sequences of their durable changes on
--   the payloads, the metadata files, the intents and stat.db of a pool.
-- - Hosting: the filters of hosting volumes in csi/volumeutils.py.
-- - Controller, Controller/Retry: the decisions of csi/controllerserver.py around those calls.
-- - Operator: the validation of storage resources in kadalu_operator/main.py: Operator/Request
--   (validate_volume_request) with Operator/Names (generated_resource_names_validation),
--   Operator/Bricks (options_validation, bricks_validation), Operator/External
--   (validate_ext_details), Operator/Tolerations (normalize_tolerations) and Operator/Labels (the
--   regular expressions of Kubernetes names).
-- - MountTable: procfs' mount tables and the mount flags of requests in csi/volumeutils.py
--   (_unescape_mount_field to _has_exact_gluster_mount, _validated_mount_flags, _remount_bind);
--   Publish: the sidecars of publish targets (_publish_state, _publish_state_matches).
-- - StorageAdd, StorageAdd/Parser: cli/kubectl_kadalu/storage_add_parser.py, the parser of the
--   command line of `storage-add`.
-- - Prelude, Exec, Json: shared notation and lemmas, exceptions and state, and JSON documents.
--   Tests: the theorems at concrete inputs.
--
-- How the model stands for the code: a Python `str` is the list of its code points (Text), an
-- `int` is a ℕ or a ℤ over the native numbers, an exception is an `Error`, and a method that
-- changes an object is an `Exec`: it takes the state and returns a result with the state behind
-- it, changed or not also when it raises. SQLite's tables are lists of rows in the order of their
-- rowids, and `busy` says that another connection holds the write lock. `grants` counts the
-- commits that SQLite grants to a connection before another process's lock makes one raise; a
-- size of 2^63 bytes or more raises OverflowError where it is bound (`bound`). What the kernel,
-- GlusterFS or another process does is an argument: how `os.statvfs`, a mount, a write of an
-- extended attribute or a removal ends, whether an entry vanishes under `shutil.rmtree`
-- (`vanishing`), what another client has put at a path or in a marker meanwhile, a fresh UUID,
-- the clock, the digest of xxhash (`hash`) and `ipaddress.ip_address` (`is_ip`), of which nothing
-- is assumed.
--
-- Bounds and fuel: the parser of `storage-add` runs on fuel, one unit for each pass of its loop;
-- a pass that does not repeat itself takes a token, so the tokens and one more bound it.
-- `lacks_room` compares over the integers what the code compares in doubles; the two agree for
-- free sizes below 2 ^ 48 bytes. `budget` of Reclaim is no bound of the model: it counts the
-- durable changes that succeed before an exception, a lock of stat.db included, or the end of the
-- process, and the theorems quantify over it. All other recursion is on the structure of a list.
--
-- Not modelled: the search for volumes, the creation of payloads, the commands that mount and
-- unmount, floating-point numbers in JSON, symbolic links (a path is compared as it is written,
-- and `Mount` and `contained` hold what the file system answers about its links), digits outside
-- ASCII in the counts of `storage-add`, and the parts that are input and output: the gRPC
-- handlers, the operator beyond its validations, the servers, the exporters, the other commands
-- of kubectl_kadalu.
pub mod Prelude
pub mod Exec
pub mod PosixPath
pub mod Identifier
pub mod Json
pub mod Intent
pub mod Claim
pub mod Accounting
pub mod Admission
pub mod Reclaim
pub mod Operator
pub mod MountTable
pub mod Publish
pub mod Hosting
pub mod Controller
pub mod StorageAdd
pub mod Tests
