-- ===== src/Journal.antt =====
-- src/multi_task_scheduler/orchestration/operation_journal.py: the TaskRunner's journal of operations.
-- A call returns its result and the journal that it leaves, also where it raises.
pub mod Preservation
pub mod Invariant
pub mod Uniqueness
mod Examples
use verl_multi_task.Common.{
  String, Bool, true, false, Option, none, some, List, [], ◌∷◌, ◌==◌, if◌then◌else◌, Result, ok,
  err, string_key, option_key, String-discrete, Option-discrete,
}
use verl_multi_task.Common.Dict
use verl_multi_task.Common.Dict.{Dict}
use verl_multi_task.Contracts.{
  OperationCommand, OperationRecord, OperationStatus, accepted, running, succeeded, failed, unknown,
  operation_command_key, operation_status_key, OperationCommand-discrete, OperationStatus-discrete,
}

pub data JournalError : Type 0 where
  conflicting_replay another_active terminal_running only_unknown : JournalError
  finish_requires_terminal conflicting_terminal missing_operation : JournalError

abbrev pub is_terminal : OperationStatus → Bool
is_terminal succeeded = true
is_terminal failed = true
is_terminal unknown = true
is_terminal _ = false

abbrev pub is_resolved : OperationStatus → Bool
is_resolved succeeded = true
is_resolved failed = true
is_resolved _ = false

pub record OperationJournal : Type 0 where
  pub records : Dict String OperationRecord
  pub commands : Dict String OperationCommand
  pub active_by_task : Dict String String

abbrev pub Outcome : Type 0
Outcome = Result JournalError OperationRecord × OperationJournal

pub init : OperationJournal
init = record { records = []; commands = []; active_by_task = [] }

abbrev pub session_of : OperationCommand → String
session_of c = c.target.task_session

abbrev pub fresh : OperationCommand → OperationRecord
fresh c = record { operation_id = c.operation_id; status = accepted; result = none }

-- the end of `begin`: a fresh record under the command's id
unfoldable pub register : OperationJournal → OperationCommand → Outcome
register j c = (
  ok (fresh c),
  record j {
    records = Dict.put j.records c.operation_id (fresh c);
    commands = Dict.put j.commands c.operation_id c;
    active_by_task = Dict.put j.active_by_task (session_of c) c.operation_id;
  },
)

-- `begin` of an operation that the journal does not know, by the session's active operation
unfoldable pub begin_new : OperationJournal → OperationCommand → Option String → Outcome
unfolding register
begin_new j c none = register j c
begin_new j c (some active_id) = elim (Dict.get j.records active_id) [
  | none ↦ (err missing_operation, j)
  | some active ↦
      if is_resolved active.status
      then register (record j { active_by_task = Dict.remove j.active_by_task (session_of c) }) c
      else (err another_active, j)
]

unfoldable pub begin : OperationJournal → OperationCommand → Outcome
unfolding begin_new
begin j c = elim (Dict.get j.records c.operation_id) [
  | none ↦ begin_new j c (Dict.get j.active_by_task (session_of c))
  | some existing ↦ elim (Dict.get j.commands c.operation_id) [
    | none ↦ (err missing_operation, j)
    | some known ↦ if known == c then (ok existing, j) else (err conflicting_replay, j)
  ]
]

unfoldable pub query : OperationJournal → String → Option OperationRecord
query j operation_id = Dict.get j.records operation_id

unfoldable pub command : OperationJournal → String → Result JournalError OperationCommand
command j operation_id = elim (Dict.get j.commands operation_id) [
  | none ↦ err missing_operation
  | some c ↦ ok c
]

abbrev pub or_else : Option String → Option String → Option String
or_else none old = old
or_else (some new) old = some new

-- writes a record and returns it
abbrev pub store : OperationJournal → String → OperationRecord → Outcome
store j operation_id r = (ok r, record j { records = Dict.put j.records operation_id r })

unfoldable pub mark_running : OperationJournal → String → Option String → Outcome
mark_running j operation_id result = elim (Dict.get j.records operation_id) [
  | none ↦ (err missing_operation, j)
  | some r ↦
      if is_terminal r.status
      then (err terminal_running, j)
      else store j operation_id (record r { status = running; result = or_else result r.result })
]

unfoldable pub reopen_unknown : OperationJournal → String → Outcome
reopen_unknown j operation_id = elim (Dict.get j.records operation_id) [
  | none ↦ (err missing_operation, j)
  | some r ↦
      if r.status == unknown
      then store j operation_id (record r { status = running; result = none })
      else (err only_unknown, j)
]

-- the end of `finish`: the session's slot is freed when the operation is resolved
unfoldable pub settle : OperationJournal → String → OperationStatus → OperationRecord → Outcome
settle j operation_id status r = elim (Dict.get j.commands operation_id) [
  | none ↦ (err missing_operation, j)
  | some c ↦
      if is_resolved status
      then (if Dict.get j.active_by_task (session_of c) == some operation_id
          then (ok r, record j { active_by_task = Dict.remove j.active_by_task (session_of c) })
          else (ok r, j))
      else (ok r, j)
]

unfoldable pub finish : OperationJournal → String → OperationStatus → Option String → Outcome
unfolding settle
finish j operation_id status result =
    if is_terminal status
    then elim (Dict.get j.records operation_id) [
      | none ↦ (err missing_operation, j)
      | some r ↦
          if is_terminal r.status
          then (if r.status == status
              then (if r.result == result then (ok r, j) else (err conflicting_terminal, j))
              else (err conflicting_terminal, j))
          else (let r' : OperationRecord = record r { status = status; result = result } in
              settle (record j { records = Dict.put j.records operation_id r' }) operation_id status
                r')
    ]
    else (err finish_requires_terminal, j)

-- The calls that change a journal.
pub data Call : Type 0 where
  begins : OperationCommand → Call
  marks_running : String → Option String → Call
  reopens : String → Call
  finishes : String → OperationStatus → Option String → Call

unfoldable pub call : OperationJournal → Call → Outcome
unfolding begin mark_running reopen_unknown finish
call j (begins c) = begin j c
call j (marks_running operation_id result) = mark_running j operation_id result
call j (reopens operation_id) = reopen_unknown j operation_id
call j (finishes operation_id status result) = finish j operation_id status result

-- A caller that catches what a call raises goes on with the journal as it was left.
unfoldable pub run : OperationJournal → List Call → OperationJournal
run j [] = j
run j (c ∷ cs) = run (call j c).1 cs
