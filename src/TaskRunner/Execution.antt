-- ===== src/TaskRunner/Execution.antt =====
-- `_execute_operation` of task_runner.py: its accesses to the journal, around the lifecycle. Other
-- calls may come between `start` and `conclude`; `execute_operation` is an execution without any.
use verl_multi_task.Common.{
  String, Bool, false, none, some, ◌==◌, if◌then◌else◌, Result, ok, err, string_key,
}
use verl_multi_task.Common.Dict
use verl_multi_task.Contracts.{
  OperationCommand, OperationStatus, operation_status_key, succeeded, failed, unknown, EvidenceType,
  weight_ready, exit_ready, service_committed, released_gpus,
}
use verl_multi_task.Journal.{
  OperationJournal, JournalError, is_terminal, query, command, finish, mark_running, reopen_unknown,
}
use verl_multi_task.TaskRunner.{TaskRunner}
use verl_multi_task.TaskRunner.Lifecycle.{Remote, Verdict, succeeds, fails, aborts, lifecycle}

abbrev pub with_journal : TaskRunner → OperationJournal → TaskRunner
with_journal t j = record t { operation_journal = j }

-- `current is not None and current.status is OperationStatus.UNKNOWN`
unfoldable pub is_unknown : TaskRunner → String → Bool
is_unknown t operation_id = elim (query t.operation_journal operation_id) [
  | none ↦ false
  | some current ↦ current.status == unknown
]

-- The first block under the lock: the command, and whether the operation was UNKNOWN.
unfoldable pub start :
    TaskRunner → String → Result JournalError (OperationCommand × Bool) × TaskRunner
unfolding is_unknown
start t operation_id = elim (command t.operation_journal operation_id) [
  | err e ↦ (err e, t)
  | ok c ↦
      let reconciling = is_unknown t operation_id in
      let opened =
        if reconciling
        then reopen_unknown t.operation_journal operation_id
        else mark_running t.operation_journal operation_id none in
      elim opened.0 [
        | err e ↦ (err e, with_journal t opened.1)
        | ok _ ↦ (ok (c, reconciling), with_journal t opened.1)
      ]
]

-- `EvidenceType.value`
abbrev pub type_text : EvidenceType → String
type_text weight_ready = "WEIGHT_READY"
type_text exit_ready = "EXIT_READY"
type_text service_committed = "SERVICE_COMMITTED"
type_text released_gpus = "RELEASED"

-- the `except` block: an operation that did not end is UNKNOWN
unfoldable pub abandon : TaskRunner → String → String → TaskRunner
abandon t operation_id why = elim (query t.operation_journal operation_id) [
  | none ↦ t
  | some current ↦
      if is_terminal current.status
      then t
      else with_journal t (finish t.operation_journal operation_id unknown (some why)).1
]

-- `_finish` inside the `try`
unfoldable pub record_end : TaskRunner → String → OperationStatus → String → String → TaskRunner
unfolding abandon
record_end t operation_id status result why =
    let ended = finish t.operation_journal operation_id status (some result) in
    let u = with_journal t ended.1 in elim ended.0 [ ok _ ↦ u | err _ ↦ abandon u operation_id why ]

unfoldable pub settle_verdict : TaskRunner → String → Verdict → String → TaskRunner
unfolding record_end
settle_verdict t operation_id (succeeds e) why =
    record_end t operation_id succeeded (type_text e.type) why
settle_verdict t operation_id (fails f) why = record_end t operation_id failed why why
settle_verdict t operation_id aborts why = abandon t operation_id why

-- the `finally` block: the lease snapshot of an UNKNOWN operation is kept
unfoldable pub clean_up : TaskRunner → String → TaskRunner
unfolding is_unknown
clean_up t operation_id =
    let u = record t { operation_threads = Dict.remove t.operation_threads operation_id } in
    if is_unknown u operation_id
    then u
    else record u { operation_leases = Dict.remove u.operation_leases operation_id }

unfoldable pub conclude : TaskRunner → String → Verdict → String → TaskRunner
unfolding settle_verdict clean_up
conclude t operation_id verdict why =
    clean_up (settle_verdict t operation_id verdict why) operation_id

-- A whole execution. `why` is the text of the failure or of the exception.
unfoldable pub execute_operation : TaskRunner → Remote → String → String → TaskRunner
unfolding start conclude lifecycle
execute_operation t r operation_id why =
    let started = start t operation_id in
    elim started.0 [
      | err _ ↦ conclude started.1 operation_id aborts why
      | ok (c, reconciling) ↦
          conclude started.1 operation_id
            (lifecycle r c (Dict.get started.1.operation_leases operation_id) reconciling).0 why
    ]
