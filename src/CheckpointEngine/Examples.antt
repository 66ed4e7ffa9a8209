-- ===== src/CheckpointEngine/Examples.antt =====
-- Concrete receivers, manifests and bootstraps (checkpoint_engine_manager.py).
use verl_multi_task.Common.{
  ℕ, String, ◌*◌, ◌≡◌, refl, true, false, Option, none, some, List, [], ◌∷◌, ◌++◌, pos, elem, ok,
  err, length, if◌then◌else◌, nat_key, string_key, String-discrete, ℕ_discrete, Option-discrete,
  List-discrete, Pair-discrete, ℤ-discrete, some-injective, arith, distinct,
}
use mathlib.Core.Logic.{◌↔◌}
use verl_multi_task.Common.Dict
use verl_multi_task.Contracts.{
  ReplicaKey, native_replica, OperationEvidence, released_without_gpu_uuids, weight_ready,
  evidence_now, ReplicaKind-discrete, EvidenceType-discrete, ReplicaKey-discrete,
  OperationEvidence-discrete,
}
use verl_multi_task.CheckpointEngine.{
  Replica, NativeMembers, CheckpointManager, register_pending, commit_pending, remote_failure,
  bad_evidence,
}
use verl_multi_task.CheckpointEngine.Manifest.{
  Entry, entry_key, list_shape, RawManifest, Manifest, manifest_mismatches, Shape-discrete,
  Entry-discrete, validate_manifest,
}
use verl_multi_task.CheckpointEngine.Manifest.Comparison.{names, manifest_mismatches-nil}
use verl_multi_task.CheckpointEngine.Manifest.Audit.{IsManifest, raw_manifest}
use verl_multi_task.CheckpointEngine.Validation.{
  ParameterValidation, validate_parameter_sync, all_workers,
}
use verl_multi_task.CheckpointEngine.Validation.Agreement.{
  AllReceived, validate_parameter_sync-AllReceived,
}
use verl_multi_task.CheckpointEngine.Bootstrap.{
  Remote, Settings, Failure, attempt, compensate, bootstrap_pending, bootstrap_target,
}
use verl_multi_task.CheckpointEngine.Bootstrap.Outcomes.{Ending, bootstrap-Ending, native_failure}
use verl_multi_task.CheckpointEngine.Membership.{Inv}
use verl_multi_task.CheckpointEngine.Membership.Serving.{serving}
use verl_multi_task.CheckpointEngine.History.{Call, register, bootstrap, commit, run, init}
use verl_multi_task.CheckpointEngine.History.Safety.{run-init-Inv}
use verl_multi_task.CheckpointEngine.History.Refinement.{Follows, run-init-Follows}

unfoldable pub without : List Replica → List Replica → List Replica
without gone [] = []
without gone (r ∷ rs) = let rest = without gone rs in if elem r gone then rest else r ∷ rest

elem-append :
    (r : Replica) (xs ys : List Replica)
    → elem r (xs ++ ys) ≡ (if elem r xs then true else elem r ys)
elem-append r [] ys = refl
elem-append r (x ∷ xs) ys = ground (arith, elem-append r xs ys)

elem-without :
    (r : Replica) (gone rs : List Replica)
    → elem r (without gone rs) ≡ (if elem r gone then false else elem r rs)
unfolding without
elem-without r gone [] = ground arith
elem-without r gone (x ∷ rs) = ground (arith, elem-without r gone rs)

pub appended :
    (receivers new after : List Replica) (r : Replica)
    → some (receivers ++ new) ≡ some after
    → elem r after ≡ (if elem r receivers then true else elem r new)
appended receivers new after r returned =
    ground (arith, some-injective returned, elem-append r receivers new)

pub dropped :
    (receivers gone after : List Replica) (r : Replica)
    → some (without gone receivers) ≡ some after
    → elem r after ≡ (if elem r gone then false else elem r receivers)
dropped receivers gone after r returned =
    ground (arith, some-injective returned, elem-without r gone receivers)

abbrev pub native : NativeMembers
native = record {
  add_replicas = λ receivers new. some (receivers ++ new);
  remove_replicas = λ receivers gone. some (without gone receivers);
  elem-add = appended;
  elem-remove = dropped;
}

abbrev entry : String → ℕ → Entry
entry name size = record {
  name = name;
  dtype = "bf16";
  sha256 = "abc";
  shape = list_shape (size ∷ 2 ∷ []);
  numel = size * 2;
}

abbrev manifest : List Entry → Manifest
manifest entries = record {
  parameters = entries;
  parameter_count = 2;
  total_numel = 10;
  global_steps = some 4;
}

-- the same two parameters, in two orders
abbrev source : Manifest
source = manifest (entry "b" 2 ∷ entry "a" 3 ∷ [])

abbrev received : Manifest
received = manifest (entry "a" 3 ∷ entry "b" 2 ∷ [])

abbrev pub key : ReplicaKey
key = record { task_session = "task-a"; replica_id = "native-0"; runtime_epoch = 0 }

abbrev pub settings : Settings
settings = record {
  is_naive = false;
  parameter_validation = true;
  source_validation = true;
  digest_of = λ entries. "digest";
}

-- a native target that wakes and gets version 4
abbrev pub answers : Remote
answers = record {
  workers_of = λ r. r ∷ [];
  kind_of = λ r. some native_replica;
  detached = true;
  placements = some (some "gpu-0" ∷ []);
  weights_woken = true;
  kv_released = false;
  topology_built = true;
  transferred = true;
  finalized = true;
  kv_resumed = true;
  health = some (some 4 ∷ []);
  manifests = some (some (raw_manifest received) ∷ []);
  sources = some (none ∷ some (raw_manifest source) ∷ []);
  ready_at = 9;
  finalized_late = false;
  slept = false;
  failed_at = 0;
}

abbrev evidence : OperationEvidence
evidence = record {
  operation_id = "restore-1";
  type = weight_ready;
  timestamp = 9;
  released_gpu_uuids = [];
}

abbrev calls : List Call
calls =
    register key (7 ∷ []) "restore-1"
    ∷ bootstrap answers key "restore-1" (pos 4)
    ∷ commit key evidence (pos 4)
    ∷ []

distinct_source : distinct (names source.parameters) ≡ true
unfolding String-discrete
distinct_source = refl

distinct_received : distinct (names received.parameters) ≡ true
unfolding String-discrete
distinct_received = refl

manifest_mismatches-nil_example :
    (manifest_mismatches source received 8 ≡ [])
    ↔ ((e : Entry) → elem e source.parameters ≡ elem e received.parameters)
manifest_mismatches-nil_example =
    manifest_mismatches-nil source received 7 distinct_source distinct_received

run-init-Inv_example : Inv (run native settings (init (5 ∷ [])) calls)
run-init-Inv_example = run-init-Inv native settings (5 ∷ []) calls

run-init-Follows_example :
    ((r : Replica) → serving (init (5 ∷ [])).effective r ≡ none)
    × Follows native settings (init (5 ∷ [])) calls
run-init-Follows_example = run-init-Follows native settings (5 ∷ []) calls

-- the run commits its target
committed : serving (run native settings (init (5 ∷ [])) calls).effective 7 ≡ some (key, 4)
unfolding run init serving String-discrete ℕ_discrete Option-discrete List-discrete Pair-discrete
    ReplicaKind-discrete EvidenceType-discrete ReplicaKey-discrete OperationEvidence-discrete
    Shape-discrete Entry-discrete ℤ-discrete commit_pending Dict.get Dict.put bootstrap_target
    register_pending validate_parameter_sync validate_manifest manifest_mismatches evidence_now
committed = refl

abbrev pending : CheckpointManager
pending = (register_pending (init (5 ∷ [])) key (7 ∷ []) "restore-1").1

abbrev result : ParameterValidation
result = record {
  version = some 4;
  worker_count = 1;
  parameter_count = 2;
  total_numel = 10;
  manifest_digest = "digest";
  source_manifest_digest = some "digest";
}

validated :
    validate_parameter_sync
      (λ entries. "digest")
      ((7 ∷ []) ∷ [])
      (some (some (raw_manifest received) ∷ []))
      (some 4)
      (some (some (raw_manifest source)))
    ≡ ok result
unfolding validate_parameter_sync String-discrete ℕ_discrete Option-discrete List-discrete
    Shape-discrete ℤ-discrete validate_manifest manifest_mismatches Dict.get Dict.put
validated = refl

abbrev raws : List (Option RawManifest)
raws = some (raw_manifest received) ∷ []

validate_parameter_sync-AllReceived_example :
    (s : Manifest) × (some (raw_manifest source) ≡ some (raw_manifest s))
    × IsManifest s
    × (s.global_steps ≡ some 4)
    × ((workers : List ℕ) × (all_workers ((7 ∷ []) ∷ []) ≡ ok workers)
        × (length raws ≡ length workers))
    × AllReceived s 4 raws
validate_parameter_sync-AllReceived_example =
    validate_parameter_sync-AllReceived (λ entries. "digest") ((7 ∷ []) ∷ [])
      (some (raw_manifest received) ∷ []) 4 (some (raw_manifest source)) result validated

confirmed :
    bootstrap_pending settings answers pending key (7 ∷ []) "restore-1" 4
    ≡ (ok evidence, record pending { ready = (key, ("restore-1", (4, evidence))) ∷ [] })
unfolding bootstrap_pending init Dict.put register_pending String-discrete ℕ_discrete
    Option-discrete List-discrete ReplicaKind-discrete EvidenceType-discrete Shape-discrete
    ℤ-discrete evidence_now validate_parameter_sync validate_manifest manifest_mismatches Dict.get
confirmed = refl

bootstrap-Ending_example :
    Ending settings answers pending key
      (7 ∷ [])
      "restore-1"
      4
      evidence
      (record pending { ready = (key, ("restore-1", (4, evidence))) ∷ [] })
bootstrap-Ending_example =
    bootstrap-Ending settings answers pending _ key (7 ∷ []) "restore-1" 4 evidence confirmed

-- the placements could not be read, and the target is asleep again
abbrev unplaced : Remote
unplaced = record answers { placements = none; slept = true }

abbrev failure : Failure
failure = record {
  topology_started = false;
  finalized = false;
  gpu_uuids = [];
  problem = remote_failure;
}

failed : attempt settings unplaced true (7 ∷ []) "restore-1" 4 ≡ err failure
unfolding attempt
failed = refl

native_failure_example :
    compensate unplaced true "restore-1" failure ≡ err (bad_evidence released_without_gpu_uuids)
native_failure_example =
    native_failure settings unplaced (7 ∷ []) "restore-1" 4 failure (unfold String-discrete in refl)
      failed
