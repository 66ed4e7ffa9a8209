-- ===== src/TaskRunner/Endings.antt =====
-- The status that an execution leaves in the journal (task_runner.py).
use verl_multi_task.Common.{
  String, ◌≡◌, refl, ap, ◌∙◌, inl, inr, Bool, true, false, Option, none, some, is_some, ok, err,
  string_key, option_key, arith, Option-cases, Result-cases,
}
use verl_multi_task.Common.Dict
use verl_multi_task.Contracts.{
  OperationCommand, OperationStatus, operation_status_key, succeeded, failed, unknown, running,
}
use verl_multi_task.Journal.{
  OperationJournal, JournalError, is_terminal, query, finish, settle, mark_running, reopen_unknown,
}
use verl_multi_task.TaskRunner.{TaskRunner}
use verl_multi_task.TaskRunner.Lifecycle.{Remote, Verdict, succeeds, fails, aborts, lifecycle}
use verl_multi_task.TaskRunner.Execution.{
  start, abandon, record_end, settle_verdict, clean_up, conclude, execute_operation, with_journal,
}

-- the journal knows the operation, and its status is SUCCEEDED, FAILED or UNKNOWN
abbrev pub is_ended : OperationJournal → String → Bool
is_ended j o = elim (query j o) [ none ↦ false | some x ↦ is_terminal x.status ]

finish-ended :
    (j : OperationJournal) (o : String) (status : OperationStatus) (result : Option String)
    → is_terminal status ≡ true
    → is_some (query j o) ≡ true
    → is_ended (finish j o status result).1 o ≡ true
unfolding finish settle query
finish-ended j o status result terminal known = elim (Option-cases (Dict.get j.records o)) [
  | inl new ↦ ground arith
  | inr (x, old) ↦
      ground (arith, Dict.get-put j.records o o (record x { status = status; result = result }))
]

abandon-ended :
    (t : TaskRunner) (o why : String)
    → is_some (query t.operation_journal o) ≡ true
    → is_ended (abandon t o why).operation_journal o ≡ true
unfolding abandon
abandon-ended t o why known = ground (arith, finish-ended t.operation_journal o unknown (some why))

ended-known : (j : OperationJournal) (o : String) → is_ended j o ≡ true → is_some (query j o) ≡ true
ended-known j o h = ground arith

record_end-ended :
    (t : TaskRunner) (o : String) (status : OperationStatus) (result why : String)
    → is_terminal status ≡ true
    → is_some (query t.operation_journal o) ≡ true
    → is_ended (record_end t o status result why).operation_journal o ≡ true
unfolding record_end
record_end-ended t o status result why terminal known =
    let ended = finish t.operation_journal o status (some result) in
    let done = finish-ended t.operation_journal o status (some result) terminal known in
    ground (arith, done, abandon-ended (with_journal t ended.1) o why (ended-known ended.1 o done))

settle_verdict-ended :
    (t : TaskRunner) (o : String) (v : Verdict) (why : String)
    → is_some (query t.operation_journal o) ≡ true
    → is_ended (settle_verdict t o v why).operation_journal o ≡ true
unfolding settle_verdict
settle_verdict-ended t o (succeeds e) why known = record_end-ended t o succeeded _ why refl known
settle_verdict-ended t o (fails f) why known = record_end-ended t o failed why why refl known
settle_verdict-ended t o aborts why known = abandon-ended t o why known

pub clean_up-journal :
    (t : TaskRunner) (o : String) → (clean_up t o).operation_journal ≡ t.operation_journal
unfolding clean_up
clean_up-journal t o = ground arith

clean_up-threads :
    (t : TaskRunner) (o : String) → Dict.get (clean_up t o).operation_threads o ≡ none
unfolding clean_up
clean_up-threads t o = ground (arith, Dict.get-remove t.operation_threads o o)

conclude-ended :
    (t : TaskRunner) (o : String) (v : Verdict) (why : String)
    → is_some (query t.operation_journal o) ≡ true
    → (is_ended (conclude t o v why).operation_journal o ≡ true)
      × (Dict.get (conclude t o v why).operation_threads o ≡ none)
unfolding conclude
conclude-ended t o v why known =
    let u = settle_verdict t o v why in
    (
      ap (λ (j : OperationJournal). is_ended j o) (clean_up-journal u o)
          ∙ settle_verdict-ended t o v why known,
      clean_up-threads u o,
    )

-- the records behind the first block
reopen-put :
    (j : OperationJournal) (o : String)
    → is_some (query j o) ≡ true
    → is_some (query (reopen_unknown j o).1 o) ≡ true
unfolding reopen_unknown query
reopen-put j o known = elim (Option-cases (Dict.get j.records o)) [
  | inl new ↦ ground arith
  | inr (x, old) ↦
      ground (arith, Dict.get-put j.records o o (record x { status = running; result = none }))
]

mark-put :
    (j : OperationJournal) (o : String)
    → is_some (query j o) ≡ true
    → is_some (query (mark_running j o none).1 o) ≡ true
unfolding mark_running query
mark-put j o known = elim (Option-cases (Dict.get j.records o)) [
  | inl new ↦ ground arith
  | inr (x, old) ↦ ground (arith, Dict.get-put j.records o o (record x { status = running }))
]

start-known :
    (t : TaskRunner) (o : String)
    → is_some (query t.operation_journal o) ≡ true
    → is_some (query (start t o).1.operation_journal o) ≡ true
unfolding start
start-known t o known =
    ground (arith, reopen-put t.operation_journal o known, mark-put t.operation_journal o known)

pub execute-refused :
    (t : TaskRunner) (r : Remote) (o why : String) (e : JournalError)
    → (start t o).0 ≡ err e
    → execute_operation t r o why ≡ conclude (start t o).1 o aborts why
unfolding execute_operation
execute-refused t r o why e h = ground arith

pub execute-started :
    (t : TaskRunner) (r : Remote) (o why : String) (c : OperationCommand) (again : Bool)
    → (start t o).0 ≡ ok (c, again)
    → execute_operation t r o why
      ≡ conclude
          (start t o).1
          o
          (lifecycle r c (Dict.get (start t o).1.operation_leases o) again).0
          why
unfolding execute_operation
execute-started t r o why c again h = ground arith

-- An execution ends: whatever the remote calls answer or raise, afterwards an operation that the
-- journal knew is SUCCEEDED, FAILED or UNKNOWN, and has no thread.
pub execute_ends :
    (t : TaskRunner) (r : Remote) (o why : String)
    → is_some (query t.operation_journal o) ≡ true
    → (is_ended (execute_operation t r o why).operation_journal o ≡ true)
      × (Dict.get (execute_operation t r o why).operation_threads o ≡ none)
execute_ends t r o why known = elim (Result-cases (start t o).0) [
  | inl (e, bad) ↦
      rw (execute-refused t r o why e bad)
        (conclude-ended (start t o).1 o aborts why (start-known t o known))
  | inr ((c, again), good) ↦
      rw (execute-started t r o why c again good)
        (conclude-ended (start t o).1 o _ why (start-known t o known))
]
