-- ===== src/CheckpointEngine/Bootstrap.antt =====
-- `bootstrap_target`: the first weights of one hidden target (checkpoint_engine_manager.py).
-- What the remote calls answer is the argument `Remote`; a call that is not reached has no effect.
pub mod Outcomes
use verl_multi_task.Common.{
  ℕ, String, ◌≡◌, Bool, true, false, Option, none, some, List, [], ◌∷◌, map, ◌==◌, ℤ, pos,
  if◌then◌else◌, nonempty, is_nil, elem, Result, ok, err, ◌>>=◌, ◌>>◌, require, nat_key, string_key,
  option_key, ℕ_discrete,
}
use verl_multi_task.Common.Dict
use verl_multi_task.Contracts.{
  ReplicaKey, replica_key_key, ReplicaKind, native_replica, borrowed, replica_kind_key,
  EvidenceType, weight_ready, released_gpus, OperationEvidence, ContractError, evidence_now,
}
use verl_multi_task.CheckpointEngine.{
  Replica, CheckpointManager, CheckpointError, Outcome, as_version, empty_operation_id,
  naive_backend, conflicting_bootstrap, no_pending, foreign_pending, no_workers, mixed_kinds,
  unsupported_kind, remote_failure, no_gpu_id, unconfirmed_version, invalid_parameters,
  cleanup_unverified, bad_evidence,
}
use verl_multi_task.CheckpointEngine.Manifest.{Entry, RawManifest, ManifestError}
use verl_multi_task.CheckpointEngine.Validation.{validate_parameter_sync}

-- A Bool says whether a call returned; an Option is `none` when it raised.
pub record Remote : Type 0 where
  pub workers_of : Replica → List ℕ
  pub kind_of : Replica → Option ReplicaKind
  pub detached : Bool
  -- the gpu_uuid of every placement; `none` inside for one that is not a nonempty text
  pub placements : Option (List (Option String))
  pub weights_woken : Bool
  pub kv_released : Bool
  pub topology_built : Bool
  pub transferred : Bool
  pub finalized : Bool
  pub kv_resumed : Bool
  -- the global_steps that every server reports
  pub health : Option (List (Option ℕ))
  pub manifests : Option (List (Option RawManifest))
  -- the manifests that the actors expose as sources
  pub sources : Option (List (Option RawManifest))
  pub ready_at : ℕ
  -- the calls of the clean-up
  pub finalized_late : Bool
  pub slept : Bool
  pub failed_at : ℕ

-- the manager's constants
pub record Settings : Type 0 where
  pub is_naive : Bool
  pub parameter_validation : Bool
  pub source_validation : Bool
  pub digest_of : List Entry → String

-- where the `try` block failed, and with what
pub record Failure : Type 0 where
  pub topology_started : Bool
  pub finalized : Bool
  pub gpu_uuids : List String
  pub problem : CheckpointError

abbrev before : List String → CheckpointError → Failure
before gpus problem = record {
  topology_started = false;
  finalized = false;
  gpu_uuids = gpus;
  problem = problem;
}

abbrev started : List String → CheckpointError → Failure
started gpus problem = record {
  topology_started = true;
  finalized = false;
  gpu_uuids = gpus;
  problem = problem;
}

abbrev finished : List String → CheckpointError → Failure
finished gpus problem = record {
  topology_started = true;
  finalized = true;
  gpu_uuids = gpus;
  problem = problem;
}

-- `dict.fromkeys` over the ids that are nonempty texts, behind those seen before
unfoldable pub distinct_ids : List String → List (Option String) → List String
distinct_ids seen [] = []
distinct_ids seen (none ∷ ids) = distinct_ids seen ids
distinct_ids seen (some id ∷ ids) =
    let skipped = distinct_ids seen ids in
    let more = distinct_ids (id ∷ seen) ids in
    if nonempty id then (if elem id seen then skipped else id ∷ more) else skipped

-- a native target's GPU ids, and its weights woken
unfoldable pub wake_weights : Remote → Result Failure (List String)
unfolding distinct_ids
wake_weights r = elim r.placements [
  | none ↦ err (before [] remote_failure)
  | some ids ↦ do
    require (if is_nil (distinct_ids [] ids) then false else true) (before [] no_gpu_id)
    require r.weights_woken (before (distinct_ids [] ids) remote_failure)
    ok (distinct_ids [] ids)
]

abbrev pub all_report : ℕ → List (Option ℕ) → Bool
all_report version [] = true
all_report version (reported ∷ rest) =
    if reported == some version then all_report version rest else false

-- `_get_source_manifest`: the first one that is complete
unfoldable pub first_complete : List (Option RawManifest) → Result CheckpointError RawManifest
first_complete [] = err invalid_parameters
first_complete (none ∷ rest) = first_complete rest
first_complete (some raw ∷ rest) =
    let later = first_complete rest in if raw.complete then ok raw else later

unfoldable pub get_source_manifest : Settings → Remote → Result CheckpointError (Option RawManifest)
unfolding first_complete
get_source_manifest s r =
    if s.source_validation
    then (elim r.sources [
      | none ↦ err remote_failure
      | some answers ↦ do raw ← first_complete answers; ok (some raw)
    ])
    else ok none

-- the opt-in audit of the parameters
unfoldable pub audit : Settings → Remote → List Replica → ℕ → Result CheckpointError (Unit {0})
unfolding get_source_manifest
audit s r replicas version =
    if s.parameter_validation
    then (do
      source ← get_source_manifest s r
      elim (validate_parameter_sync s.digest_of (map r.workers_of replicas) r.manifests
          (some version) (elim source [ none ↦ none | some raw ↦ some (some raw) ])) [
            | err _ ↦ err invalid_parameters
            | ok _ ↦ ok tt
          ])
    else ok tt

-- a failure behind `finalized = True`
abbrev late : {A : Type 0} → List String → Result CheckpointError A → Result Failure A
late gpus (err problem) = err (finished gpus problem)
late gpus (ok value) = ok value

abbrev evidence_of : {A : Type 0} → Result ContractError A → Result CheckpointError A
evidence_of (err problem) = err (bad_evidence problem)
evidence_of (ok value) = ok value

-- the `try` block
unfoldable pub attempt :
    Settings → Remote → Bool → List Replica → String → ℕ → Result Failure OperationEvidence
unfolding wake_weights audit
attempt s r is_native replicas operation_id version = do
  gpus ← if is_native then wake_weights r else ok []
  require (if is_native then true else r.kv_released) (before gpus remote_failure)
  require r.topology_built (started gpus remote_failure)
  require r.transferred (started gpus remote_failure)
  require r.finalized (started gpus remote_failure)
  require r.kv_resumed (finished gpus remote_failure)
  reported ← elim r.health [ none ↦ err (finished gpus remote_failure) | some health ↦ ok health ]
  require (all_report version reported) (finished gpus unconfirmed_version)
  _ ← late gpus (audit s r replicas version)
  late gpus (evidence_of (evidence_now r.ready_at operation_id weight_ready []))

-- the `except` block: a failed native target is put back to sleep
unfoldable pub compensate :
    Remote → Bool → String → Failure → Result CheckpointError OperationEvidence
compensate r is_native operation_id f = do
  require
      (if (if f.topology_started then (if f.finalized then false else true) else false)
        then r.finalized_late
        else true)
      cleanup_unverified
  require (if is_native then r.slept else true) cleanup_unverified
  if is_native
      then evidence_of (evidence_now r.failed_at operation_id released_gpus f.gpu_uuids)
      else err f.problem

abbrev pub no_worker_of : Remote → List Replica → Bool
no_worker_of r [] = true
no_worker_of r (x ∷ xs) = if is_nil (r.workers_of x) then no_worker_of r xs else false

abbrev pub all_kind : Remote → Option ReplicaKind → List Replica → Bool
all_kind r kind [] = true
all_kind r kind (x ∷ xs) = if r.kind_of x == kind then all_kind r kind xs else false

-- the kind that all replicas share
unfoldable pub shared_kind : Remote → List Replica → Result CheckpointError Bool
shared_kind r [] = err mixed_kinds
shared_kind r (first ∷ rest) = do
  require (all_kind r (r.kind_of first) rest) mixed_kinds
  elim (r.kind_of first) [ none ↦ err unsupported_kind | some kind ↦ ok (kind == native_replica) ]

-- a target that waits for its first weights
unfoldable pub bootstrap_pending :
    Settings
    → Remote
    → CheckpointManager
    → ReplicaKey
    → List Replica
    → String
    → ℕ
    → Outcome OperationEvidence
unfolding attempt compensate shared_kind
bootstrap_pending s r m key replicas operation_id version =
    elim (do
      require (if no_worker_of r replicas then false else true) no_workers
      require r.detached remote_failure
      shared_kind r replicas) [
        | err problem ↦ (err problem, m)
        | ok is_native ↦ elim (attempt s r is_native replicas operation_id version) [
          | err failure ↦ (compensate r is_native operation_id failure, m)
          | ok evidence ↦ (
            ok evidence,
            record m { ready = Dict.put m.ready key (operation_id, (version, evidence)) },
          )
        ]
      ]

unfoldable pub bootstrap_target :
    Settings → Remote → CheckpointManager → ReplicaKey → String → ℤ → Outcome OperationEvidence
unfolding bootstrap_pending
bootstrap_target s r m key operation_id loaded_version =
    elim (do
      require (nonempty operation_id) empty_operation_id
      version ← as_version loaded_version
      require (if s.is_naive then false else true) naive_backend
      ok version) [
        | err problem ↦ (err problem, m)
        | ok version ↦ elim (Dict.get m.ready key) [
          | some receipt ↦ (
            do
              require (receipt.0 == operation_id) conflicting_bootstrap
              require (receipt.1.0 == version) conflicting_bootstrap
              ok receipt.1.1,
            m,
          )
          | none ↦ elim (Dict.get m.pending key) [
            | none ↦ (err no_pending, m)
            | some waiting ↦
                if waiting.1 == operation_id
                then bootstrap_pending s r m key waiting.0 operation_id version
                else (err foreign_pending, m)
          ]
        ]
      ]
