-- ===== src/TaskRunner/Success.antt =====
-- The evidence behind a SUCCEEDED or FAILED operation (task_runner.py).
use verl_multi_task.Common.{
  String, ◌≡◌, refl, ap, subst, sym, ◌∙◌, inl, inr, Bool, true, false, Option, none, some, ◌==◌, ok,
  string_key, option_key, arith, Option-cases, Result-cases,
}
use verl_multi_task.Common.Dict
use verl_multi_task.Contracts.{
  OperationCommand, OperationEvidence, OperationStatus, operation_status_key,
  OperationStatus-discrete, succeeded, failed, unknown, running,
}
use verl_multi_task.Contracts.Lease.{Lease}
use verl_multi_task.Journal.{
  OperationJournal, query, command, finish, settle, mark_running, reopen_unknown,
}
use verl_multi_task.TaskRunner.{TaskRunner}
use verl_multi_task.TaskRunner.Lifecycle.{
  Remote, Verdict, succeeds, fails, aborts, Failure, Run, lifecycle,
}
use verl_multi_task.TaskRunner.Execution.{
  start, is_unknown, abandon, record_end, settle_verdict, conclude, execute_operation, with_journal,
}
use verl_multi_task.TaskRunner.Outcomes.{
  IsProof, lifecycle_of-IsProof, IsClosed, lifecycle_of-IsClosed,
}
use verl_multi_task.TaskRunner.Endings.{clean_up-journal, execute-refused, execute-started}

abbrev pub is_succeeded : OperationJournal → String → Bool
is_succeeded j o = elim (query j o) [ none ↦ false | some x ↦ x.status == succeeded ]

finish-unsucceeded :
    (j : OperationJournal) (o : String) (status : OperationStatus) (result : Option String)
    → (status == succeeded) ≡ false
    → is_succeeded j o ≡ false
    → is_succeeded (finish j o status result).1 o ≡ false
unfolding finish settle query
finish-unsucceeded j o status result other before = elim (Option-cases (Dict.get j.records o)) [
  | inl new ↦ ground arith
  | inr (x, old) ↦
      ground (arith, Dict.get-put j.records o o (record x { status = status; result = result }))
]

abandon-unsucceeded :
    (t : TaskRunner) (o why : String)
    → is_succeeded t.operation_journal o ≡ false
    → is_succeeded (abandon t o why).operation_journal o ≡ false
unfolding abandon
abandon-unsucceeded t o why before =
    ground (arith, finish-unsucceeded t.operation_journal o unknown (some why))

record_end-unsucceeded :
    (t : TaskRunner) (o result why : String)
    → is_succeeded t.operation_journal o ≡ false
    → is_succeeded (record_end t o failed result why).operation_journal o ≡ false
unfolding record_end OperationStatus-discrete
record_end-unsucceeded t o result why before =
    let done = finish-unsucceeded t.operation_journal o failed (some result) refl before in
    ground (
      arith,
      done,
      abandon-unsucceeded (with_journal t (finish t.operation_journal o failed (some result)).1) o
          why done,
    )

-- Only the verdict of success writes SUCCEEDED.
conclude-succeeded :
    (t : TaskRunner) (o : String) (v : Verdict) (why : String)
    → is_succeeded t.operation_journal o ≡ false
    → is_succeeded (conclude t o v why).operation_journal o ≡ true
    → (e : OperationEvidence) × (v ≡ succeeds e)
unfolding conclude settle_verdict
conclude-succeeded t o (succeeds e) why before after = (e, refl)
conclude-succeeded t o (fails f) why before after = ground (
  arith,
  clean_up-journal (record_end t o failed why why) o,
  record_end-unsucceeded t o why why before,
)
conclude-succeeded t o aborts why before after =
    ground (arith, clean_up-journal (abandon t o why) o, abandon-unsucceeded t o why before)

start-unsucceeded :
    (t : TaskRunner) (o : String)
    → is_succeeded t.operation_journal o ≡ false
    → is_succeeded (start t o).1.operation_journal o ≡ false
unfolding start mark_running reopen_unknown query
start-unsucceeded t o before = elim (Option-cases (Dict.get t.operation_journal.records o)) [
  | inl new ↦ ground arith
  | inr (x, old) ↦ ground (
    arith,
    Dict.get-put t.operation_journal.records o o (record x { status = running }),
    Dict.get-put t.operation_journal.records o o (record x { status = running; result = none }),
  )
]

-- the first block hands on the operation's own command and lease
start-ok :
    (t : TaskRunner) (o : String) (c d : OperationCommand) (again : Bool)
    → command t.operation_journal o ≡ ok c
    → (start t o).0 ≡ ok (d, again)
    → (d ≡ c) × (again ≡ is_unknown t o) × ((start t o).1.operation_leases ≡ t.operation_leases)
unfolding start
start-ok t o c d again known h = ground arith

lifecycle-IsProof :
    (r : Remote) (c : OperationCommand) (lease : Option Lease) (again : Bool)
    (e : OperationEvidence)
    → (lifecycle r c lease again).0 ≡ succeeds e
    → IsProof c.kind c.operation_id e (lifecycle r c lease again).1
unfolding lifecycle
lifecycle-IsProof r c lease again e h =
    let ack = (lifecycle r c lease again).1 in
    lifecycle_of-IsProof r c lease again c.kind e ack (ap (λ (v : Verdict). (v, ack)) h)

-- what was run is the lifecycle of the operation's own command and lease
start-lifecycle :
    (t : TaskRunner) (r : Remote) (o : String) (c d : OperationCommand) (again : Bool)
    → command t.operation_journal o ≡ ok c
    → (start t o).0 ≡ ok (d, again)
    → lifecycle r d (Dict.get (start t o).1.operation_leases o) again
      ≡ lifecycle r c (Dict.get t.operation_leases o) (is_unknown t o)
start-lifecycle t r o c d again known h =
    let (command_same, again_same, leases_same) = start-ok t o c d again known h in
    cc (command_same, again_same, leases_same)

-- An execution that turns an operation to SUCCEEDED has evidence of this operation: ADD and RESTORE
-- that the service was committed, DONATE and REMOVE that the GPUs were released; and, but for ADD,
-- the scheduler acknowledged that evidence.
pub success_is_proved :
    (t : TaskRunner) (r : Remote) (o why : String) (c : OperationCommand)
    → command t.operation_journal o ≡ ok c
    → is_succeeded t.operation_journal o ≡ false
    → is_succeeded (execute_operation t r o why).operation_journal o ≡ true
    → (e : OperationEvidence) × (((lifecycle r c (Dict.get t.operation_leases o) (is_unknown t o)).0
          ≡ succeeds e)
        × IsProof c.kind c.operation_id e
            (lifecycle r c (Dict.get t.operation_leases o) (is_unknown t o)).1)
success_is_proved t r o why c known before after = elim (Result-cases (start t o).0) [
  | inl (e, bad) ↦ ground (
    arith,
    conclude-succeeded (start t o).1 o aborts why (start-unsucceeded t o before) (
        subst (λ (u : TaskRunner). is_succeeded u.operation_journal o ≡ true)
          (execute-refused t r o why e bad) after),
  )
  | inr ((d, again), good) ↦
      let v = (lifecycle r d (Dict.get (start t o).1.operation_leases o) again).0 in
      let ended = conclude-succeeded (start t o).1 o v why (start-unsucceeded t o before) (
        subst (λ (u : TaskRunner). is_succeeded u.operation_journal o ≡ true)
          (execute-started t r o why d again good) after) in
      let same =
        ap (λ (x : Run). x.0) (sym (start-lifecycle t r o c d again known good)) ∙ ended.1 in
      (ended.0, (same, lifecycle-IsProof r c _ _ ended.0 same))
]

-- An execution ends with a verdict of failure only in three cases: the lease of an ADD gave no
-- placement; an exit was refused and the rollouter answered that no target is bound to the operation;
-- or the scheduler acknowledged evidence of this operation that the GPUs were released.
pub failure-IsClosed :
    (r : Remote) (c : OperationCommand) (lease : Option Lease) (again : Bool) (f : Failure)
    → (lifecycle r c lease again).0 ≡ fails f
    → IsClosed r c lease f (lifecycle r c lease again).1
unfolding lifecycle
failure-IsClosed r c lease again f h =
    let ack = (lifecycle r c lease again).1 in
    lifecycle_of-IsClosed r c lease again c.kind f ack (ap (λ (v : Verdict). (v, ack)) h)
