-- ===== src/Trainer/Examples.antt =====
-- Concrete transactions and reconciliations (trainer.py).
use verl_multi_task.Common.{
  ◌≡◌, refl, ◌⊎◌, true, none, some, [], ◌∷◌, ok, nat_key, string_key, option_key, String-discrete,
  Option-discrete, ℕ_discrete,
}
use verl_multi_task.Common.Dict
use verl_multi_task.Contracts.{
  ReplicaKey, replica_key_key, service_committed, OperationEvidence, require_operation_evidence,
  ReplicaKind-discrete, EvidenceType-discrete, ReplicaKey-discrete,
}
use verl_multi_task.TaskRunner.Lifecycle.{evidence, returns, raises}
use verl_multi_task.SyncGate.{
  ReplicaSyncGate, GateOwner, GateOwner-discrete, remove, block, release, is_active,
  reconcile_begin,
}
use verl_multi_task.CheckpointEngine.{CheckpointManager, remove_effective, register_pending}
use verl_multi_task.CheckpointEngine.Bootstrap.{shared_kind}
use verl_multi_task.CheckpointEngine.Examples.{native, without, key, settings, answers}
use verl_multi_task.Trainer.{Trainer, Answers, rollouter_failed, remove_and_commit}
use verl_multi_task.Trainer.Publication.Fencing.{Blocked, exits, perform, raised_is_fenced}
use verl_multi_task.Trainer.Reconcile.{
  gate_fences, reconcile_blocked_publish, reconcile_blocked_exit,
}
use verl_multi_task.Trainer.Reconcile.Verdicts.{Resolved, Reconciled, reconciliation_is_proved}

-- a native replica serves, and "remove-1" holds the gate
abbrev manager : CheckpointManager
manager = record {
  replicas = 7 ∷ [];
  effective = (key, (7 ∷ [], 3)) ∷ [];
  pending = [];
  ready = [];
}

abbrev owner : GateOwner
owner = record { operation_id = "remove-1"; kind = remove; epoch = 1; acquired_at = 0 }

abbrev held : ReplicaSyncGate
held = record {
  locked = true;
  owner = some owner;
  epoch = 1;
  blocked_reason = none;
  blocked_operation_id = none;
}

abbrev trainer : Trainer
trainer = record { gate = held; manager = manager; current_param_version = 4 }

-- the rollouter is lost when the service is to drop the replica
abbrev lost : Answers
lost = record {
  pending_target = some key;
  pending_replicas = none;
  commit_service = raises;
  finalize_release = raises;
  bootstrap = answers;
}

active : is_active trainer.gate owner ≡ true
unfolding is_active GateOwner-discrete Option-discrete String-discrete ℕ_discrete
active = refl

loses : (perform native settings trainer owner lost exits).0 ≡ some rollouter_failed
unfolding remove_and_commit shared_kind remove_effective register_pending is_active
    GateOwner-discrete Option-discrete String-discrete ℕ_discrete ReplicaKey-discrete
    ReplicaKind-discrete Dict.get Dict.remove without
loses = refl

raised_is_fenced_example :
    Blocked (perform native settings trainer owner lost exits).1.gate "remove-1"
    ⊎ (true ≡ true) × ((perform native settings trainer owner lost exits).1.manager ≡ manager)
raised_is_fenced_example =
    raised_is_fenced native settings trainer owner lost exits rollouter_failed active loses

-- what the lost exit left, and the answer to its retry
abbrev after : Trainer
after = (perform native settings trainer owner lost exits).1

abbrev proof : OperationEvidence
proof = record {
  operation_id = "remove-1";
  type = service_committed;
  timestamp = 9;
  released_gpu_uuids = [];
}

abbrev found : Answers
found = record lost { commit_service = returns (evidence proof) }

resolves : (reconcile_blocked_exit after "remove-1" 1 found).0 ≡ ok (some proof)
unfolding remove_and_commit shared_kind remove_effective register_pending block release is_active
    gate_fences reconcile_blocked_exit require_operation_evidence EvidenceType-discrete
    GateOwner-discrete Option-discrete String-discrete ℕ_discrete ReplicaKey-discrete
    ReplicaKind-discrete Dict.get Dict.remove without reconcile_begin
resolves = refl

reconciliation_is_proved_example :
    Reconciled "remove-1"
      (λ e m.
        (target : ReplicaKey) × (some key ≡ some target)
        × Resolved "remove-1" target after.manager e m)
      after
      (reconcile_blocked_publish native after "remove-1" 1 found true)
    × Reconciled "remove-1"
        (λ e m. (e.operation_id ≡ "remove-1") × (e.type ≡ service_committed) × (m ≡ after.manager))
        after
        (reconcile_blocked_exit after "remove-1" 1 found)
reconciliation_is_proved_example = reconciliation_is_proved native after "remove-1" 1 found true
