-- ===== src/TaskRunner/Examples.antt =====
-- Concrete operations of a task (task_runner.py).
use verl_multi_task.Common.{
  String, ◌≡◌, refl, true, false, none, some, [], ◌∷◌, is_some, ok, string_key, String-discrete,
  Option-discrete,
}
use verl_multi_task.Common.Dict
use verl_multi_task.Contracts.{
  OperationCommand, OperationRecord, OperationEvidence, OperationKind, EvidenceType, add, donate,
  accepted, exit_ready, service_committed, released_gpus, require_operation_evidence,
  OperationKind-discrete, EvidenceType-discrete, OperationStatus-discrete,
}
use verl_multi_task.Contracts.Lease.{Lease}
use verl_multi_task.Journal.{begin, command, query, finish, mark_running}
use verl_multi_task.TaskRunner.{TaskRunner, submit_operation}
use verl_multi_task.TaskRunner.Submission.{submit_replay}
use verl_multi_task.TaskRunner.Lifecycle.{
  Remote, none_value, evidence, returns, raises, bound, not_bound, succeeds, fails, exit_rejected,
  lifecycle,
}
use verl_multi_task.TaskRunner.Outcomes.{IsProof, IsClosed}
use verl_multi_task.TaskRunner.Execution.{execute_operation, is_unknown}
use verl_multi_task.TaskRunner.Endings.{is_ended, execute_ends}
use verl_multi_task.TaskRunner.Success.{is_succeeded, success_is_proved, failure-IsClosed}
use verl_multi_task.TaskRunner.Snapshots.{unknown_keeps_leases}

abbrev request : String → OperationKind → OperationCommand
request id kind = record {
  operation_id = id;
  kind = kind;
  target = record { task_session = "task-a"; replica_id = "native-0"; runtime_epoch = 0 };
  lease_id = "lease-1";
  force = none;
}

abbrev lease : Lease
lease = record {
  lease_id = "lease-1";
  first_claim = record {
    claim_id = "claim-1";
    source_lease_id = "source";
    donor_task_id = "task-a";
    donor_replica_rank = 0;
    pg_id = "pg";
    node_id = "node";
    gpu_uuid = "gpu-0";
    bundle_index = 0;
  };
  other_claims = [];
  expires_at = 0;
}

abbrev idle : TaskRunner
idle = record {
  task_session = some "task-a";
  control_ready = true;
  operation_threads = [];
  operation_leases = [];
  operation_journal = record { records = []; commands = []; active_by_task = [] };
}

abbrev donating : TaskRunner
donating = (submit_operation idle (request "donate-1" donate) none true "").1

abbrev adding : TaskRunner
adding = (submit_operation idle (request "add-1" add) (some lease) true "").1

abbrev plain : EvidenceType → OperationEvidence
plain type = record {
  operation_id = "donate-1";
  type = type;
  timestamp = 3;
  released_gpu_uuids = [];
}

abbrev released : OperationEvidence
released = record {
  operation_id = "donate-1";
  type = released_gpus;
  timestamp = 9;
  released_gpu_uuids = "gpu-0" ∷ [];
}

-- all goes well, but the first acknowledgement of the scheduler is lost
abbrev well : Remote
well = record {
  prepare_replica = returns none_value;
  publish = raises;
  query_release = returns none_value;
  reconcile_exit = returns none_value;
  prepare_exit = returns (evidence (plain exit_ready));
  pending_target = bound;
  remove_and_commit = returns (evidence (plain service_committed));
  finalize_release = returns (evidence released);
  acknowledged_first = false;
  acknowledged_second = true;
}

abbrev refused : Remote
refused = record well { prepare_exit = raises; pending_target = not_bound }

donate_known : is_some (query donating.operation_journal "donate-1") ≡ true
unfolding submit_operation query begin Dict.get Dict.put String-discrete Option-discrete
    OperationKind-discrete
donate_known = refl

donate_command : command donating.operation_journal "donate-1" ≡ ok (request "donate-1" donate)
unfolding submit_operation command begin Dict.get Dict.put String-discrete Option-discrete
    OperationKind-discrete query
donate_command = refl

donate_open : is_succeeded donating.operation_journal "donate-1" ≡ false
unfolding submit_operation query begin Dict.get Dict.put String-discrete Option-discrete
    OperationKind-discrete OperationStatus-discrete
donate_open = refl

donate_done :
    is_succeeded (execute_operation donating well "donate-1" "").operation_journal "donate-1" ≡ true
unfolding submit_operation execute_operation query command finish mark_running begin
    require_operation_evidence Dict.get Dict.put Dict.remove String-discrete Option-discrete
    OperationKind-discrete OperationStatus-discrete EvidenceType-discrete
donate_done = refl

add_unknown : is_unknown (execute_operation adding well "add-1" "lost") "add-1" ≡ true
unfolding submit_operation execute_operation query command finish mark_running begin
    require_operation_evidence Dict.get Dict.put Dict.remove String-discrete Option-discrete
    OperationKind-discrete OperationStatus-discrete EvidenceType-discrete
add_unknown = refl

rejected : (lifecycle refused (request "donate-1" donate) none false).0 ≡ fails exit_rejected
unfolding lifecycle
rejected = refl

abbrev entry : OperationRecord
entry = record { operation_id = "add-1"; status = accepted; result = none }

add_submitted :
    submit_operation idle (request "add-1" add) (some lease) true "" ≡ (ok entry, adding)
unfolding submit_operation query begin Dict.get Dict.put String-discrete Option-discrete
    OperationKind-discrete
add_submitted = refl

submit_replay_example :
    submit_operation adding (request "add-1" add) (some lease) false "" ≡ (ok entry, adding)
submit_replay_example =
    submit_replay idle adding (request "add-1" add) (some lease) entry true false "" ""
      add_submitted

execute_ends_example :
    (is_ended (execute_operation donating refused "donate-1" "").operation_journal "donate-1"
      ≡ true)
    × (Dict.get (execute_operation donating refused "donate-1" "").operation_threads "donate-1"
        ≡ none)
execute_ends_example = execute_ends donating refused "donate-1" "" donate_known

success_is_proved_example :
    (e : OperationEvidence) × (((lifecycle well
          (request "donate-1" donate)
          (Dict.get donating.operation_leases "donate-1")
          (is_unknown donating "donate-1")).0
        ≡ succeeds e)
      × IsProof donate "donate-1" e
          (lifecycle well
            (request "donate-1" donate)
            (Dict.get donating.operation_leases "donate-1")
            (is_unknown donating "donate-1")).1)
success_is_proved_example =
    success_is_proved donating well "donate-1" "" (request "donate-1" donate) donate_command
      donate_open donate_done

failure-IsClosed_example :
    IsClosed refused
      (request "donate-1" donate)
      none
      exit_rejected
      (lifecycle refused (request "donate-1" donate) none false).1
failure-IsClosed_example =
    failure-IsClosed refused (request "donate-1" donate) none false exit_rejected rejected

unknown_keeps_leases_example :
    (execute_operation adding well "add-1" "lost").operation_leases ≡ adding.operation_leases
unknown_keeps_leases_example = unknown_keeps_leases adding well "add-1" "lost" add_unknown
