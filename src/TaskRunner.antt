-- ===== src/TaskRunner.antt =====
-- integration/verl/experimental_fully_async/task_runner.py: the control surface of a task. Threads run
-- operations beside the calls of the scheduler; the journal lock makes each definition here one step.
pub mod Lifecycle
pub mod Execution
pub mod Outcomes
pub mod Endings
pub mod Success
pub mod Snapshots
pub mod Submission
mod Examples
use verl_multi_task.Common.{
  ℕ, String, Bool, true, false, Option, none, some, List, [], ◌∷◌, ◌==◌, if◌then◌else◌, nonempty,
  is_some, not, Result, ok, err, ◌>>=◌, ◌>>◌, require, string_key, option_key, String-discrete,
  Option-discrete,
}
use verl_multi_task.Common.Dict
use verl_multi_task.Common.Dict.{Dict, Members}
use verl_multi_task.Contracts.{
  OperationCommand, OperationRecord, OperationKind, operation_kind_key, OperationKind-discrete,
  OperationStatus, operation_status_key, OperationStatus-discrete, add, failed, unknown,
}
use verl_multi_task.Contracts.Lease.{Lease}
use verl_multi_task.GroupScheduler.Leases.{Lease-discrete, lease_key}
use verl_multi_task.Journal.{OperationJournal, JournalError, begin, finish, query}

pub data TaskError : Type 0 where
  lease_mismatch add_without_lease not_ready other_session conflicting_snapshot launch_failed :
      TaskError
  empty_operation_id : TaskError
  journal_raised : JournalError → TaskError

-- `_operation_threads` is the set of the ids that have a thread.
pub record TaskRunner : Type 0 where
  pub task_session : Option String
  pub control_ready : Bool
  pub operation_threads : Members String
  pub operation_leases : Dict String Lease
  pub operation_journal : OperationJournal

abbrev pub Outcome : Type 0
Outcome = Result TaskError OperationRecord × TaskRunner

-- the checks of the lease snapshot, before the lock
unfoldable pub check_snapshot : OperationCommand → Option Lease → Result TaskError (Unit {0})
check_snapshot c lease = do
  require (elim lease [ none ↦ true | some l ↦ l.lease_id == c.lease_id ]) lease_mismatch
  require (if c.kind == add then is_some lease else true) add_without_lease
  ok tt

unfoldable pub check_session : TaskRunner → OperationCommand → Result TaskError (Unit {0})
check_session t c = do
  require (if t.control_ready then is_some t.task_session else false) not_ready
  require (t.task_session == some c.target.task_session) other_session
  ok tt

-- the lease snapshot of an ADD is stored once
unfoldable pub keep_lease :
    TaskRunner → OperationCommand → Option Lease → Result TaskError (Dict String Lease)
keep_lease t c none = ok t.operation_leases
keep_lease t c (some l) =
    if c.kind == add
    then elim (Dict.get t.operation_leases c.operation_id) [
      | none ↦ ok (Dict.put t.operation_leases c.operation_id l)
      | some previous ↦ if previous == l then ok t.operation_leases else err conflicting_snapshot
    ]
    else ok t.operation_leases

-- an operation that is UNKNOWN and has no thread is launched again
unfoldable pub is_reconciliation : TaskRunner → String → Option OperationRecord → Bool
is_reconciliation t operation_id none = false
is_reconciliation t operation_id (some existing) =
    if existing.status == unknown
    then not (is_some (Dict.get t.operation_threads operation_id))
    else false

-- the thread did not start: a fresh operation fails, an UNKNOWN one stays as it was
unfoldable pub launch_failure : TaskRunner → String → Bool → String → TaskRunner
launch_failure t operation_id reconciling why =
    let u = record t { operation_threads = Dict.remove t.operation_threads operation_id } in
    if reconciling then u else record u {
      operation_leases = Dict.remove u.operation_leases operation_id;
      operation_journal = (finish u.operation_journal operation_id failed (some why)).1;
    }

-- `starts`: whether `worker.start()` returned
unfoldable pub launch : TaskRunner → String → Bool → Bool → String → OperationRecord → Outcome
unfolding launch_failure
launch t operation_id reconciling starts why snapshot =
    if starts
    then (
      ok snapshot,
      record t { operation_threads = Dict.put t.operation_threads operation_id tt },
    )
    else (err launch_failed, launch_failure t operation_id reconciling why)

-- from the record that `begin` returned on
unfoldable pub submit_begun :
    TaskRunner
    → OperationCommand
    → Option Lease
    → Option OperationRecord
    → OperationRecord
    → Bool
    → String
    → Outcome
unfolding keep_lease is_reconciliation launch
submit_begun t c lease existing r starts why = elim (keep_lease t c lease) [
  | err e ↦ (err e, t)
  | ok leases ↦
      let u = record t { operation_leases = leases } in
      let reconciling = is_reconciliation u c.operation_id existing in
      if (if is_some existing then reconciling else true)
      then launch u c.operation_id reconciling starts why r
      else (ok r, u)
]

unfoldable pub submit_operation :
    TaskRunner → OperationCommand → Option Lease → Bool → String → Outcome
unfolding check_snapshot check_session submit_begun
submit_operation t c lease starts why = elim (check_snapshot c lease >> check_session t c) [
  | err e ↦ (err e, t)
  | ok _ ↦
      let begun = begin t.operation_journal c in
      let u = record t { operation_journal = begun.1 } in
      elim begun.0 [
        | err e ↦ (err (journal_raised e), u)
        | ok r ↦ submit_begun u c lease (query t.operation_journal c.operation_id) r starts why
      ]
]

unfoldable pub query_operation : TaskRunner → String → Result TaskError OperationRecord
query_operation t operation_id =
    if nonempty operation_id
    then ok (elim (query t.operation_journal operation_id) [
      | some r ↦ r
      | none ↦ record { operation_id = operation_id; status = unknown; result = none }
    ])
    else err empty_operation_id
