-- ===== src/GroupScheduler/Submit.antt =====
-- `submit_operation` of group_scheduler.py: phase checks, staging of the intent, dispatch.
use verl_multi_task.Common.{
  ℕ, ◌-◌, String, Bool, false, Option, none, some, List, [], ◌∷◌, ◌==◌, if◌then◌else◌, leb, ltb,
  not, is_some, Result, ok, err, ◌>>=◌, ◌>>◌, require, nat_key, string_key, pair_key, option_key,
  pos,
}
use verl_multi_task.Common.Dict
use verl_multi_task.Contracts.{
  ReplicaKey, ReplicaKind, OperationCommand, OperationRecord, OperationKind, native_replica, add,
  donate, remove, restore, replica_key_key, operation_command_key, operation_kind_key,
  replica_kind_key,
}
use verl_multi_task.Contracts.Native.{native_replica_key}
use verl_multi_task.Contracts.Lease.{Lease, bundle_keys, gpu_uuids}
use verl_multi_task.GroupScheduler.{
  GroupScheduler, IdleReport, Outcome, SchedulerError, last, history_of, unknown_lease,
  conflicting_replay, lifecycle_complete, expired_lease, stale_idle_report, target_not_idle_native,
  awaits_restore, target_not_owner, target_not_donor, handoff_already_ready, handoff_not_ready,
  borrower_exists, target_not_borrower, claims_not_returned, no_task_runner, not_a_record,
  foreign_record, dispatch_raised, bad_key,
}

-- _IDLE_REPORT_MAX_AGE_S, in milliseconds: the clocks of the model tick once a millisecond
abbrev pub idle_report_max_age : ℕ
idle_report_max_age = 10000

-- the kind of the last command in the lease's release history
unfoldable pub last_kind : GroupScheduler → String → Option OperationKind
last_kind s lease_id = elim (last (history_of s lease_id)) [
  | none ↦ none
  | some o ↦ elim (Dict.get s.operation_commands o) [ none ↦ none | some c ↦ some c.kind ]
]

unfoldable pub matches_donor : ReplicaKey → Lease → Result SchedulerError Bool
matches_donor target l =
    elim (native_replica_key target.task_session (pos l.first_claim.donor_replica_rank) (pos 0)) [
      | err e ↦ err (bad_key e)
      | ok key ↦ ok (target == key)
    ]

-- `reported.get(target)`: a dict keeps the last of several entries
unfoldable pub reported : ReplicaKey → List (ReplicaKey × ReplicaKind) → Option ReplicaKind
reported target [] = none
reported target ((key, kind) ∷ rest) =
    let later = reported target rest in
    if is_some later then later else if key == target then some kind else none

unfoldable pub check_idle : Option IdleReport → ReplicaKey → ℕ → Result SchedulerError (Unit {0})
unfolding reported
check_idle none target monotonic = ok tt
check_idle (some report) target monotonic = do
  require (not (ltb idle_report_max_age (monotonic - report.observed_at))) stale_idle_report
  require (reported target report.candidates == some native_replica) target_not_idle_native
  ok tt

unfoldable pub check_donor : OperationCommand → Lease → Result SchedulerError (Unit {0})
unfolding matches_donor
check_donor c l = do
  require (c.target.task_session == l.first_claim.donor_task_id) target_not_owner
  same ← matches_donor c.target l
  require same target_not_donor
  ok tt

abbrev pub is_handoff_ready : GroupScheduler → String → Bool
is_handoff_ready s lease_id = is_some (Dict.get s.handoff_ready_leases lease_id)

-- the checks of one kind
unfoldable pub check_kind :
    GroupScheduler → OperationCommand → Lease → ℕ → OperationKind → Result SchedulerError (Unit {0})
unfolding check_idle check_donor
check_kind s c l monotonic donate = do
  check_idle (Dict.get s.idle_reports c.target.task_session) c.target monotonic
  require (not (last_kind s c.lease_id == some remove)) awaits_restore
  check_donor c l
  require (not (is_handoff_ready s c.lease_id)) handoff_already_ready
  ok tt
check_kind s c l monotonic add = do
  require (is_handoff_ready s c.lease_id) handoff_not_ready
  require (not (is_some (Dict.get s.borrower_targets c.lease_id))) borrower_exists
  ok tt
check_kind s c l monotonic remove = do
  require (is_handoff_ready s c.lease_id) handoff_not_ready
  require (Dict.get s.borrower_targets c.lease_id == some c.target) target_not_borrower
  ok tt
check_kind s c l monotonic restore = do
  check_donor c l
  require
      (if Dict.all_unowned s.active_gpu_owner (gpu_uuids l)
        then Dict.all_unowned s.active_bundle_owner (bundle_keys l)
        else false)
      claims_not_returned
  ok tt

-- `lease.expires_at and time.time() >= lease.expires_at`
abbrev pub is_expired : Lease → ℕ → Bool
is_expired l now = if l.expires_at == 0 then false else leb l.expires_at now

-- the checks of an operation id that the ledger does not know
unfoldable pub check_new :
    GroupScheduler → OperationCommand → Lease → ℕ → ℕ → Result SchedulerError (Unit {0})
unfolding last_kind check_kind
check_new s c l now monotonic = do
  require (not (last_kind s c.lease_id == some restore)) lifecycle_complete
  require (not (if is_expired l now then c.kind == add else false)) expired_lease
  check_kind s c l monotonic c.kind

-- The intent is recorded before the dispatch.
unfoldable pub stage_kind :
    GroupScheduler → OperationCommand → Lease → OperationKind → GroupScheduler
stage_kind s c l add =
    if is_some (Dict.get s.borrower_targets c.lease_id)
    then s
    else record s { borrower_targets = Dict.put s.borrower_targets c.lease_id c.target }
stage_kind s c l restore = record s {
  active_bundle_owner = Dict.put_all s.active_bundle_owner (bundle_keys l) c.lease_id;
  active_gpu_owner = Dict.put_all s.active_gpu_owner (gpu_uuids l) c.lease_id;
}
stage_kind s c l _ = s

unfoldable pub stage : GroupScheduler → OperationCommand → Lease → GroupScheduler
unfolding stage_kind
stage s c l =
    stage_kind (record s { operation_commands = Dict.put s.operation_commands c.operation_id c }) c
      l c.kind

-- What `ray.get(task_runner.submit_operation.remote(...))` does.
pub data Reply : Type 0 where
  replies : OperationRecord → Reply
  replies_other raises : Reply

unfoldable pub dispatch : OperationCommand → Reply → Result SchedulerError OperationRecord
dispatch c (replies r) = if r.operation_id == c.operation_id then ok r else err foreign_record
dispatch c replies_other = err not_a_record
dispatch c raises = err dispatch_raised

-- the checks, and the scheduler with the intent staged
unfoldable pub accept :
    GroupScheduler → OperationCommand → Lease → ℕ → ℕ → Result SchedulerError GroupScheduler
unfolding check_new stage
accept s c l now monotonic = elim (Dict.get s.operation_commands c.operation_id) [
  | some previous ↦ do
    require (previous == c) conflicting_replay
    require (is_some (Dict.get s.task_runners c.target.task_session)) no_task_runner
    ok s
  | none ↦ do
    check_new s c l now monotonic
    require (is_some (Dict.get s.task_runners c.target.task_session)) no_task_runner
    ok (stage s c l)
]

unfoldable pub submit_operation :
    GroupScheduler → OperationCommand → ℕ → ℕ → Reply → Outcome OperationRecord
unfolding accept dispatch
submit_operation s c now monotonic reply = elim (Dict.get s.leases c.lease_id) [
  | none ↦ (err unknown_lease, s)
  | some l ↦ elim (accept s c l now monotonic) [
    | err e ↦ (err e, s)
    | ok staged ↦ (dispatch c reply, staged)
  ]
]
