-- ===== src/Trainer/Reconcile.antt =====
-- The recovery of a transaction that left the gate blocked: `_reconcile_blocked_publish` and
-- `_reconcile_blocked_exit` (trainer.py). The callback runs under the gate's lock, so the answers and
-- the manager that it sees are those of the moment that the lock is granted.
pub mod Returns
pub mod Verdicts
use verl_multi_task.Common.{
  ℕ, String, ◌≡◌, Bool, true, false, Option, none, some, List, ◌==◌, if◌then◌else◌, is_some, Result,
  ok, err, string_key, option_key,
}
use verl_multi_task.Common.Dict
use verl_multi_task.Contracts.{
  ReplicaKey, replica_key_key, service_committed, released_gpus, OperationEvidence,
}
use verl_multi_task.TaskRunner.Lifecycle.{Value, none_value}
use verl_multi_task.SyncGate.{
  ReplicaSyncGate, GateOwner, is_healthy, reconcile_begin, reconcile_end,
}
use verl_multi_task.CheckpointEngine.{Replica, NativeMembers, CheckpointManager, remove_effective}
use verl_multi_task.Trainer.{
  TrainerError, fenced, no_target, no_result, Trainer, Answers, Txn, start, Step, bind, on_manager,
  on_rollouter, require_evidence, park,
}
use verl_multi_task.Trainer.Publication.{is_released}

-- `_gate_fences`
unfoldable pub gate_fences : ReplicaSyncGate → String → Bool
gate_fences g operation_id =
    if is_healthy g then false else (g.blocked_operation_id == some operation_id)

module _ (n : NativeMembers) where
  -- what follows the answer of `commit_service_change` to a reconciled publication
  unfoldable pub reconcile_served :
      Answers → ReplicaKey → List Replica → Bool → String → Value → Txn → Step OperationEvidence
  unfolding require_evidence
  reconcile_served a target replicas restore_native operation_id none_value s =
      bind (on_manager true s (λ m. remove_effective n m target)) (λ _ s.
        bind (park true s target replicas operation_id restore_native) (λ _ s.
          bind (on_rollouter true s a.finalize_release)
            (λ value s. require_evidence s value operation_id released_gpus)))
  reconcile_served a target replicas restore_native operation_id value s =
      if is_released value
      then bind (on_manager true s (λ m. remove_effective n m target))
          (λ _ s. require_evidence s value operation_id released_gpus)
      else require_evidence s value operation_id service_committed

  -- the callback for a publication
  unfoldable pub reconcile_publish_body :
      Answers → ReplicaKey → List Replica → Bool → String → Txn → Step OperationEvidence
  unfolding reconcile_served
  reconcile_publish_body a target replicas restore_native operation_id s =
      bind (on_rollouter true s a.commit_service)
        (λ value s. reconcile_served a target replicas restore_native operation_id value s)

-- the callback for an exit
unfoldable pub reconcile_exit_body : Answers → String → Txn → Step OperationEvidence
unfolding require_evidence
reconcile_exit_body a operation_id s =
    bind (on_rollouter true s a.commit_service)
      (λ value s. require_evidence s value operation_id service_committed)

-- the end of `gate.reconcile` after its callback, and what the caller then returns
unfoldable pub recovered :
    Trainer
    → ReplicaSyncGate
    → Step OperationEvidence
    → Result TrainerError (Option OperationEvidence) × Trainer
recovered t g (err problem, s) =
    (err problem, record t { manager = s.manager; gate = (reconcile_end g false).1 })
recovered t g (ok e, s) =
    (ok (some e), record t { manager = s.manager; gate = (reconcile_end g true).1 })

-- `gate.reconcile` with a callback; without a callback's evidence the caller raises
unfoldable pub under_recovery :
    Trainer
    → String
    → ℕ
    → (Txn → Step OperationEvidence)
    → Result TrainerError (Option OperationEvidence) × Trainer
unfolding recovered
under_recovery t operation_id now body =
    let (granted, g) = reconcile_begin t.gate operation_id now in
    elim granted [
      | err _ ↦ (err fenced, record t { gate = g })
      | ok held ↦ elim held [
        | none ↦ (err no_result, record t { gate = g })
        | some owner ↦ recovered t g (body (start t.manager))
      ]
    ]

-- `_reconcile_blocked_publish`; `ok none` when there is nothing to reconcile
unfoldable pub reconcile_blocked_publish :
    NativeMembers
    → Trainer
    → String
    → ℕ
    → Answers
    → Bool
    → Result TrainerError (Option OperationEvidence) × Trainer
unfolding gate_fences reconcile_publish_body under_recovery
reconcile_blocked_publish n t operation_id now a restore_native =
    if gate_fences t.gate operation_id
    then elim a.pending_target [
      | none ↦ (err no_target, t)
      | some target ↦ elim (Dict.get t.manager.effective target) [
        | none ↦ (ok none, t)
        | some member ↦
            under_recovery t operation_id now
              (reconcile_publish_body n a target member.0 restore_native operation_id)
      ]
    ]
    else (ok none, t)

-- `_reconcile_blocked_exit`, and so `reconcile_exit`
unfoldable pub reconcile_blocked_exit :
    Trainer → String → ℕ → Answers → Result TrainerError (Option OperationEvidence) × Trainer
unfolding gate_fences reconcile_exit_body under_recovery
reconcile_blocked_exit t operation_id now a =
    if gate_fences t.gate operation_id
    then elim a.pending_target [
      | none ↦ (err no_target, t)
      | some target ↦
          if is_some (Dict.get t.manager.effective target)
          then (ok none, t)
          else under_recovery t operation_id now (reconcile_exit_body a operation_id)
    ]
    else (ok none, t)
