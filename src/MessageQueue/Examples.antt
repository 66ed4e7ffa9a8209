-- ===== src/MessageQueue/Examples.antt =====
-- Concrete histories of the queue actor (message_queue.py).
use verl_multi_task.Common.{
  ◌≤◌, String, ◌≡◌, refl, Bool, true, false, Option, none, some, List, [], ◌∷◌, ok, err,
  if◌then◌else◌, is_some, string_key, String-discrete,
}
use verl_multi_task.Common.Dict
use verl_multi_task.MessageQueue.{
  MessageQueue, Sample, Row, Effects, Write, CompletionEvidence, written, not_executed,
  not_committed, unresolved_enqueue, unchanged, put_sample_once, run,
}
use verl_multi_task.MessageQueue.ExactlyOnce.{enqueued_once, occurrences}
use verl_multi_task.MessageQueue.Evidence.{evidence_final, unresolved_stays_closed}

abbrev empty_queue : MessageQueue
empty_queue = record { task_session = "task-a"; ledger = []; next_completion_seq = 0 }

abbrev sample : String → Sample
sample digest = record { sample_id = some "sample-1"; digest = digest }

abbrev effects : Write → Option Bool → Write → Effects
effects insert native_put update = record {
  insert = insert;
  native_put = native_put;
  update = update;
}

-- the put is retried after a failed update, and again after a failed insert
abbrev history : List (Option Sample × Effects)
history =
    (some (sample "d"), effects written (some true) not_executed)
    ∷ (some (sample "d"), effects written (some true) written)
    ∷ (some (sample "e"), effects not_committed none written)
    ∷ (none, effects written (some true) written)
    ∷ []

abbrev evidence : CompletionEvidence
evidence = record {
  task_session = "task-a";
  logical_sample_id = "sample-1";
  payload_digest = "d";
  enqueue_seq = 0;
  dropped_oldest = false;
}

abbrev completed : MessageQueue
completed =
    (put_sample_once empty_queue (some (sample "d")) (effects written (some true) written)).queue

abbrev open_row : Row
open_row = record { payload_digest = "d"; enqueue_seq = 0; dropped_oldest = none }

abbrev unresolved : MessageQueue
unresolved = record {
  task_session = "task-a";
  ledger = ("sample-1", open_row) ∷ [];
  next_completion_seq = 1;
}

completed_evidence :
    (put_sample_once empty_queue (some (sample "d")) (effects written (some true) written)).result
    ≡ ok evidence
unfolding put_sample_once Dict.get String-discrete
completed_evidence = refl

enqueued_once_example :
    occurrences "sample-1" (run empty_queue history).1
    ≤ (if is_some (Dict.get empty_queue.ledger "sample-1") then 0 else 1)
enqueued_once_example = enqueued_once empty_queue history "sample-1"

evidence_final_example :
    put_sample_once (run completed history).0 (some (sample "d")) (effects written none written)
    ≡ unchanged (run completed history).0 (ok evidence)
evidence_final_example =
    evidence_final empty_queue (sample "d") (effects written (some true) written)
      (effects written none written) evidence history completed_evidence

unresolved_stays_closed_example :
    put_sample_once
      (run unresolved history).0
      (some (sample "d"))
      (effects written (some true) written)
    ≡ unchanged (run unresolved history).0 (err unresolved_enqueue)
unfolding Dict.get String-discrete
unresolved_stays_closed_example =
    unresolved_stays_closed unresolved (sample "d") "sample-1" (effects written (some true) written)
      open_row history refl refl refl refl
