-- ===== src/Journal/Examples.antt =====
-- Concrete histories of the journal (operation_journal.py).
use verl_multi_task.Common.{
  String, ◌≡◌, refl, none, some, List, [], ◌∷◌, ok, err, string_key, String-discrete,
  Option-discrete,
}
use verl_multi_task.Common.Dict
use verl_multi_task.Contracts.{
  OperationCommand, OperationRecord, OperationStatus, add, accepted, running, succeeded,
  OperationCommand-discrete,
}
use verl_multi_task.Journal.{
  terminal_running, Call, begins, marks_running, finishes, init, begin, call, run,
}
use verl_multi_task.Journal.Invariant.{init-Inv}
use verl_multi_task.Journal.Preservation.{run-Inv}
use verl_multi_task.Journal.Uniqueness.{
  after, one_unfinished, error_keeps_journal, resolved_is_final,
}

abbrev command : String → OperationCommand
command id = record {
  operation_id = id;
  kind = add;
  target = record { task_session = "task-a"; replica_id = "extra"; runtime_epoch = 1 };
  lease_id = "lease-1";
  force = none;
}

abbrev entry : String → OperationStatus → OperationRecord
entry id status = record { operation_id = id; status = status; result = none }

abbrev started : List Call
started = begins (command "add-1") ∷ marks_running "add-1" none ∷ []

abbrev finished : List Call
finished =
    begins (command "add-1") ∷ finishes "add-1" succeeded none ∷ begins (command "add-2") ∷ []

started_record : Dict.get (after started).records "add-1" ≡ some (entry "add-1" running)
unfolding init run call Dict.get Dict.put String-discrete
started_record = refl

started-command : Dict.get (after started).commands "add-1" ≡ some (command "add-1")
unfolding init run call Dict.get Dict.put String-discrete
started-command = refl

finished_record : Dict.get (after finished).records "add-1" ≡ some (entry "add-1" succeeded)
unfolding init run call Dict.get Dict.put Dict.remove String-discrete Option-discrete
    OperationCommand-discrete
finished_record = refl

unknown_add : Dict.get (after started).records "add-2" ≡ none
unfolding init run call Dict.get Dict.put String-discrete
unknown_add = refl

first_begin :
    begin init (command "add-1") ≡ (ok (entry "add-1" accepted), (begin init (command "add-1")).1)
unfolding init begin Dict.get
first_begin = refl

running_again :
    call (after finished) (marks_running "add-1" none) ≡ (err terminal_running, after finished)
unfolding init run call Dict.get Dict.put Dict.remove String-discrete Option-discrete
    OperationCommand-discrete
running_again = refl

one_unfinished_example : (command "add-1").operation_id ≡ (command "add-1").operation_id
one_unfinished_example =
    one_unfinished started "add-1" "add-1" (entry "add-1" running) (entry "add-1" running)
      (command "add-1") (command "add-1") started_record started-command refl started_record
      started-command refl refl

resolved_is_final_example :
    Dict.get (call (after finished) (marks_running "add-1" none)).1.records "add-1"
    ≡ some (entry "add-1" succeeded)
resolved_is_final_example =
    resolved_is_final (after finished) (marks_running "add-1" none) "add-1"
      (entry "add-1" succeeded) finished_record refl

error_keeps_journal_example : after finished ≡ after finished
error_keeps_journal_example =
    error_keeps_journal (after finished) (after finished) (marks_running "add-1" none)
      terminal_running (run-Inv init finished init-Inv) running_again
