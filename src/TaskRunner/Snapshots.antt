-- ===== src/TaskRunner/Snapshots.antt =====
-- The lease snapshots that an execution keeps (task_runner.py).
use verl_multi_task.Common.{
  String, ◌≡◌, ◌∙◌, inl, inr, true, some, string_key, option_key, arith, Result-cases,
}
use verl_multi_task.Common.Dict
use verl_multi_task.Contracts.{operation_status_key, succeeded, failed}
use verl_multi_task.Journal.{finish}
use verl_multi_task.TaskRunner.{TaskRunner}
use verl_multi_task.TaskRunner.Lifecycle.{Remote, Verdict, succeeds, fails, aborts, lifecycle}
use verl_multi_task.TaskRunner.Execution.{
  start, is_unknown, abandon, record_end, settle_verdict, clean_up, conclude, execute_operation,
  with_journal, type_text,
}

abandon-leases :
    (t : TaskRunner) (o why : String) → (abandon t o why).operation_leases ≡ t.operation_leases
unfolding abandon
abandon-leases t o why = ground arith

settle_verdict-leases :
    (t : TaskRunner) (o : String) (v : Verdict) (why : String)
    → (settle_verdict t o v why).operation_leases ≡ t.operation_leases
unfolding settle_verdict record_end
settle_verdict-leases t o (succeeds e) why =
    let ended = finish t.operation_journal o succeeded (some (type_text e.type)) in
    ground (arith, abandon-leases (with_journal t ended.1) o why)
settle_verdict-leases t o (fails f) why =
    let ended = finish t.operation_journal o failed (some why) in
    ground (arith, abandon-leases (with_journal t ended.1) o why)
settle_verdict-leases t o aborts why = abandon-leases t o why

clean_up-leases :
    (t : TaskRunner) (o : String)
    → is_unknown (clean_up t o) o ≡ true
    → (clean_up t o).operation_leases ≡ t.operation_leases
unfolding clean_up
clean_up-leases t o open' = ground arith

start-leases : (t : TaskRunner) (o : String) → (start t o).1.operation_leases ≡ t.operation_leases
unfolding start
start-leases t o = ground arith

conclude-leases :
    (t : TaskRunner) (o : String) (v : Verdict) (why : String)
    → is_unknown (conclude t o v why) o ≡ true
    → (conclude t o v why).operation_leases ≡ t.operation_leases
unfolding conclude
conclude-leases t o v why open' =
    clean_up-leases (settle_verdict t o v why) o open' ∙ settle_verdict-leases t o v why

-- An execution that leaves its operation UNKNOWN keeps all lease snapshots, so that the operation can
-- be run again.
pub unknown_keeps_leases :
    (t : TaskRunner) (r : Remote) (o why : String)
    → is_unknown (execute_operation t r o why) o ≡ true
    → (execute_operation t r o why).operation_leases ≡ t.operation_leases
unfolding execute_operation
unknown_keeps_leases t r o why open' = elim (Result-cases (start t o).0) [
  | inl (e, bad) ↦ ground (arith, conclude-leases (start t o).1 o aborts why, start-leases t o)
  | inr ((c, again), good) ↦ ground (
    arith,
    conclude-leases (start t o).1 o
        (lifecycle r c (Dict.get (start t o).1.operation_leases o) again).0 why,
    start-leases t o,
  )
]
