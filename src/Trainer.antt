-- ===== src/Trainer.antt =====
-- src/multi_task_scheduler/integration/verl/experimental_fully_async/trainer.py: the transactions that
-- change the receivers of the weights, each under the synchronization gate. A transaction is modelled
-- from the moment that the gate was granted to its owner (SyncGate.request and SyncGate.grant) to the
-- release; every change of the checkpoint manager is made by a holder of the gate, so what a
-- transaction awaits changes neither. The answers of the rollouter and the native trainer are arguments.
pub mod Reconcile
pub mod Publication
mod Examples
use verl_multi_task.Common.{
  ℕ, String, ◌≡◌, Bool, true, false, Option, none, some, List, [], ◌∷◌, ◌++◌, ◌==◌, pos,
  if◌then◌else◌, is_nil, is_some, Result, ok, err, string_key, option_key,
}
use verl_multi_task.Common.Dict
use verl_multi_task.Common.Dict.{Dict}
use verl_multi_task.Contracts.{
  ReplicaKey, replica_key_key, ReplicaKind, native_replica, borrowed, replica_kind_key,
  EvidenceType, weight_ready, service_committed, released_gpus, evidence_type_key,
  OperationEvidence, require_operation_evidence,
}
use verl_multi_task.TaskRunner.Lifecycle.{
  Value, none_value, other, evidence, Reply, returns, raises,
}
use verl_multi_task.SyncGate.{ReplicaSyncGate, GateOwner, is_active, block, release}
use verl_multi_task.CheckpointEngine.{
  Replica, NativeMembers, CheckpointManager, CheckpointError, Outcome, register_pending,
  discard_pending, commit_pending, remove_effective, mark_all_loaded_version,
}
use verl_multi_task.CheckpointEngine.Bootstrap.{Remote, Settings, shared_kind, bootstrap_target}

pub data TrainerError : Type 0 where
  fenced no_target not_effective no_runtime wrong_kind no_evidence rollouter_failed native_failed :
      TrainerError
  unverified_cleanup not_parked no_result : TrainerError
  manager_error : CheckpointError → TrainerError

pub record Trainer : Type 0 where
  pub gate : ReplicaSyncGate
  pub manager : CheckpointManager
  pub current_param_version : ℕ

-- What the rollouter answers to one transaction; a call that is not made leaves its answer unused.
pub record Answers : Type 0 where
  pub pending_target : Option ReplicaKey
  pub pending_replicas : Option (List Replica)
  pub commit_service : Reply
  pub finalize_release : Reply
  pub bootstrap : Remote

-- The state of a `try` block: the manager, and the local flags of the three transactions.
pub record Txn : Type 0 where
  pub manager : CheckpointManager
  pub mutated : Bool
  pub pending_registered : Bool
  pub e_committed : Bool

abbrev pub start : CheckpointManager → Txn
start m = record { manager = m; mutated = false; pending_registered = false; e_committed = false }

abbrev pub Step : Type 0 → Type 0
Step A = Result TrainerError A × Txn

abbrev pub bind : {A B : Type 0} → Step A → (A → Txn → Step B) → Step B
bind (err problem, s) after = (err problem, s)
bind (ok value, s) after = after value s

-- `lease.guard` around a method of the manager; `live` says whether the lease is active
abbrev pub on_manager : {A : Type 0} → Bool → Txn → (CheckpointManager → Outcome A) → Step A
on_manager false s call = (err fenced, s)
on_manager true s call = elim (call s.manager).0 [
  | err problem ↦ (err (manager_error problem), record s { manager = (call s.manager).1 })
  | ok value ↦ (ok value, record s { manager = (call s.manager).1 })
]

abbrev pub forget : CheckpointManager → ReplicaKey → Outcome (Unit {0})
forget m key = (ok tt, discard_pending m key)

-- `lease.guard` around a call of the rollouter
abbrev pub on_rollouter : Bool → Txn → Reply → Step Value
on_rollouter false s reply = (err fenced, s)
on_rollouter true s raises = (err rollouter_failed, s)
on_rollouter true s (returns value) = (ok value, s)

abbrev pub as_evidence : Value → Option OperationEvidence
as_evidence (evidence e) = some e
as_evidence value = none

-- `_require_evidence`
unfoldable pub require_evidence : Txn → Value → String → EvidenceType → Step OperationEvidence
require_evidence s value operation_id type =
    elim (require_operation_evidence (as_evidence value) operation_id type) [
      | err _ ↦ (err no_evidence, s)
      | ok e ↦ (ok e, s)
    ]

-- a value that the call must have
abbrev pub answered : {A : Type 0} → Txn → Option A → TrainerError → Step A
answered s none problem = (err problem, s)
answered s (some value) problem = (ok value, s)

abbrev pub mutating : Txn → Txn
mutating s = record s { mutated = true }

-- whether all replicas of a member are native
abbrev pub kind_of_member : Remote → Txn → List Replica → Step Bool
kind_of_member r s replicas = elim (shared_kind r replicas) [
  | err _ ↦ (err wrong_kind, s)
  | ok is_native ↦ (ok is_native, s)
]

-- a retained native replica is parked
abbrev pub park : Bool → Txn → ReplicaKey → List Replica → String → Bool → Step (Unit {0})
park live s target replicas operation_id true =
    on_manager live s (λ m. register_pending m target replicas operation_id)
park live s target replicas operation_id false = (ok tt, s)

module _ (n : NativeMembers) where
  -- the `try` block of `remove_and_commit`
  unfoldable pub remove_body : Bool → Answers → String → Txn → Step OperationEvidence
  unfolding require_evidence
  remove_body live a operation_id s = bind (answered s a.pending_target no_target) (λ target s.
      bind (answered s (Dict.get s.manager.effective target) not_effective) (λ member s.
        bind (kind_of_member a.bootstrap s member.0) (λ is_native s.
          bind (on_manager live s (λ m. remove_effective n m target)) (λ _ s.
            bind (park live (mutating s) target member.0 operation_id is_native) (λ _ s.
              bind (on_rollouter live s a.commit_service)
                (λ value s. require_evidence s value operation_id service_committed))))))

-- the `except` and `finally` blocks of an exit: a block that changed something fences the gate
unfoldable pub close :
    Trainer
    → GateOwner
    → String
    → Step OperationEvidence
    → Result TrainerError OperationEvidence × Trainer
close t owner reason (ok e, s) =
    (ok e, record t { manager = s.manager; gate = (release t.gate owner).1 })
close t owner reason (err problem, s) =
    let g = if s.mutated then (block t.gate owner reason).1 else t.gate in
    (err problem, record t { manager = s.manager; gate = (release g owner).1 })

unfoldable pub remove_and_commit :
    NativeMembers → Trainer → GateOwner → Answers → Result TrainerError OperationEvidence × Trainer
unfolding remove_body close
remove_and_commit n t owner a =
    close t owner "Exit service commit outcome unknown"
      (remove_body n (is_active t.gate owner) a owner.operation_id (start t.manager))
