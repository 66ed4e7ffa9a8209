-- ===== src/GroupScheduler.antt =====
-- src/multi_task_scheduler/scheduler/group_scheduler.py: the shared lease and command ledger.
-- A method returns its result and the scheduler that it leaves, also where it raises. Clock readings
-- and the TaskRunner's answer are arguments; an actor handle is the number that identifies it.
pub mod Reports
pub mod Leases
pub mod Submit
pub mod Advance
pub mod Events
pub mod Cases
pub mod Frame
pub mod Ledger
pub mod Ownership
pub mod Replay
mod Examples
use verl_multi_task.Common.{
  ℕ, String, Bool, true, false, Option, none, some, List, [], ◌∷◌, ◌++◌, Key, ◌==◌, if◌then◌else◌,
  nonempty, is_some, Result, ok, err, nat_key, string_key, pair_key, option_key, ℕ_discrete,
  String-discrete,
}
use verl_multi_task.Common.Dict
use verl_multi_task.Common.Dict.{Dict, Members}
use verl_multi_task.Contracts.{
  ReplicaKind, ReplicaKey, OperationCommand, OperationRecord, OperationEvidence, ContractError,
}
use verl_multi_task.Contracts.Lease.{Lease, LeaseError}

-- One constructor for each `raise`.
pub data SchedulerError : Type 0 where
  empty_task_id task_already_attached : SchedulerError
  report_without_session detached_session foreign_candidate duplicate_candidate : SchedulerError
  unknown_lease conflicting_replay lifecycle_complete expired_lease : SchedulerError
  stale_idle_report target_not_idle_native awaits_restore : SchedulerError
  target_not_owner target_not_donor handoff_already_ready : SchedulerError
  handoff_not_ready borrower_exists target_not_borrower claims_not_returned : SchedulerError
  no_task_runner not_a_record foreign_record dispatch_raised : SchedulerError
  conflicting_lease claim_id_taken bundle_taken gpu_taken : SchedulerError
  unknown_operation foreign_evidence conflicting_evidence invalid_restore_evidence : SchedulerError
  wrong_evidence reservation_lost gpus_not_covered rollback_without_handoff : SchedulerError
  rollback_target_mismatch : SchedulerError
  bad_lease : LeaseError → SchedulerError
  bad_key : ContractError → SchedulerError

pub record IdleReport : Type 0 where
  pub observed_at : ℕ
  pub candidates : List (ReplicaKey × ReplicaKind)

pub record GroupScheduler : Type 0 where
  pub task_runners : Dict String ℕ
  pub leases : Dict String Lease
  pub idle_reports : Dict String IdleReport
  pub operation_commands : Dict String OperationCommand
  pub borrower_targets : Dict String ReplicaKey
  pub release_evidence : Dict (String × String) OperationEvidence
  pub release_history : Dict String (List String)
  pub handoff_ready_leases : Members String
  pub claim_id_owner : Dict String String
  pub active_bundle_owner : Dict (String × ℕ) String
  pub active_gpu_owner : Dict String String

unfoldable pub init : GroupScheduler
init = record {
  task_runners = [];
  leases = [];
  idle_reports = [];
  operation_commands = [];
  borrower_targets = [];
  release_evidence = [];
  release_history = [];
  handoff_ready_leases = [];
  claim_id_owner = [];
  active_bundle_owner = [];
  active_gpu_owner = [];
}

abbrev pub Outcome : Type 0 → Type 0
Outcome A = Result SchedulerError A × GroupScheduler

unfoldable pub attach_task : GroupScheduler → String → ℕ → Outcome (Unit {0})
attach_task s task_id task_runner =
    if nonempty task_id
    then elim (Dict.get s.task_runners task_id) [
      | none ↦ (ok tt, record s { task_runners = Dict.put s.task_runners task_id task_runner })
      | some existing ↦
          if existing == task_runner
          then (ok tt, record s { task_runners = Dict.put s.task_runners task_id task_runner })
          else (err task_already_attached, s)
    ]
    else (err empty_task_id, s)

unfoldable pub detach_task : GroupScheduler → String → Outcome (Unit {0})
detach_task s task_id =
    if nonempty task_id
    then (
      ok tt,
      record s {
        task_runners = Dict.remove s.task_runners task_id;
        idle_reports = Dict.remove s.idle_reports task_id;
      },
    )
    else (err empty_task_id, s)

-- history[-1]
abbrev pub last : List String → Option String
last [] = none
last (x ∷ []) = some x
last (x ∷ y ∷ ys) = last (y ∷ ys)

-- d.get(lease_id, ()), and d.setdefault(lease_id, []), of what d holds
abbrev pub or_empty : Option (List String) → List String
or_empty none = []
or_empty (some h) = h

-- self.release_history.get(lease_id, ())
abbrev pub history_of : GroupScheduler → String → List String
history_of s lease_id = or_empty (Dict.get s.release_history lease_id)

-- self.release_history.setdefault(lease_id, []).append(operation_id)
abbrev pub append_history : GroupScheduler → String → String → Dict String (List String)
append_history s lease_id operation_id =
    Dict.put s.release_history lease_id (history_of s lease_id ++ operation_id ∷ [])
