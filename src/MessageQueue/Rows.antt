-- ===== src/MessageQueue/Rows.antt =====
-- The rows and the session of the ledger across calls for other samples (message_queue.py).
use verl_multi_task.Common.{
  ℕ, ◌+◌, String, ◌≡◌, refl, ◌∙◌, inl, inr, Bool, true, false, Option, none, some, List, [], ◌∷◌,
  string_key, arith, Result-cases,
}
use verl_multi_task.Common.Dict
use verl_multi_task.Common.Dict.{Dict}
use verl_multi_task.MessageQueue.{
  MessageQueue, Sample, Row, Write, Effects, decode_identity, lookup_completion, with_row, finalize,
  admit, put_known, put_sample_once, put_sample, run,
}

abbrev pub row_of : String → ℕ → Option Bool → Row
row_of digest seq dropped = record {
  payload_digest = digest;
  enqueue_seq = seq;
  dropped_oldest = dropped;
}

pub finalize_other :
    (q : MessageQueue) (id digest : String) (seq : ℕ) (dropped : Bool) (update : Write) (j : String)
    → ¬ (id ≡ j)
    → Dict.get (finalize q id digest seq dropped update).queue.ledger j ≡ Dict.get q.ledger j
unfolding finalize
finalize_other q id digest seq dropped update j apart =
    ground (arith, Dict.get-put q.ledger id j (row_of digest seq (some dropped)))

pub admit_other :
    (q : MessageQueue) (id digest : String) (effects : Effects) (j : String)
    → ¬ (id ≡ j)
    → Dict.get (admit q id digest effects).queue.ledger j ≡ Dict.get q.ledger j
unfolding admit
admit_other q id digest effects j apart =
    let seq = q.next_completion_seq in
    let r : MessageQueue = record (with_row q id (row_of digest seq none)) {
      next_completion_seq = seq + 1;
    } in
    ground (
      arith,
      Dict.get-put q.ledger id j (row_of digest seq none),
      finalize_other r id digest seq true effects.update j,
      finalize_other r id digest seq false effects.update j,
    )

pub put_known_keeps :
    (q : MessageQueue) (id digest : String) (effects : Effects) (j : String) (row : Row)
    → Dict.get q.ledger j ≡ some row
    → Dict.get (put_known q id digest effects).queue.ledger j ≡ some row
unfolding put_known lookup_completion
put_known_keeps q id digest effects j row known = ground (arith, admit_other q id digest effects j)

pub put_sample_keeps :
    (q : MessageQueue) (sample : Option Sample) (effects : Effects) (j : String) (row : Row)
    → Dict.get q.ledger j ≡ some row
    → Dict.get (put_sample q sample effects).queue.ledger j ≡ some row
unfolding put_sample put_sample_once
put_sample_keeps q none effects j row known = known
put_sample_keeps q (some sample) effects j row known =
    elim (Result-cases (decode_identity sample)) [
      | inl (e, bad) ↦ rw (bad, put_sample_once) known
      | inr ((id, digest), good) ↦
          rw (good, put_sample_once) (put_known_keeps q id digest effects j row known)
    ]

-- A row that the ledger holds is never written again, whatever is called.
pub run_keeps :
    (calls : List (Option Sample × Effects)) (q : MessageQueue) (j : String) (row : Row)
    → Dict.get q.ledger j ≡ some row
    → Dict.get (run q calls).0.ledger j ≡ some row
unfolding run
run_keeps [] q j row known = known
run_keeps ((sample, effects) ∷ rest) q j row known =
    run_keeps rest (put_sample q sample effects).queue j row
      (put_sample_keeps q sample effects j row known)

pub finalize_session :
    (q : MessageQueue) (id digest : String) (seq : ℕ) (dropped : Bool) (update : Write)
    → (finalize q id digest seq dropped update).queue.task_session ≡ q.task_session
unfolding finalize
finalize_session q id digest seq dropped update = ground arith

pub admit_session :
    (q : MessageQueue) (id digest : String) (effects : Effects)
    → (admit q id digest effects).queue.task_session ≡ q.task_session
unfolding admit
admit_session q id digest effects =
    let seq = q.next_completion_seq in
    let r : MessageQueue = record (with_row q id (row_of digest seq none)) {
      next_completion_seq = seq + 1;
    } in
    ground (
      arith,
      finalize_session r id digest seq true effects.update,
      finalize_session r id digest seq false effects.update,
    )

pub put_sample_session :
    (q : MessageQueue) (sample : Option Sample) (effects : Effects)
    → (put_sample q sample effects).queue.task_session ≡ q.task_session
unfolding put_sample put_sample_once put_known
put_sample_session q none effects = refl
put_sample_session q (some sample) effects = elim (Result-cases (decode_identity sample)) [
  | inl (e, bad) ↦ rw (bad, put_sample_once) refl
  | inr ((id, digest), good) ↦
      rw (good, put_sample_once)
        (unfold lookup_completion in ground (arith, admit_session q id digest effects))
]

pub run_session :
    (calls : List (Option Sample × Effects)) (q : MessageQueue)
    → (run q calls).0.task_session ≡ q.task_session
unfolding run
run_session [] q = refl
run_session ((sample, effects) ∷ rest) q =
    run_session rest (put_sample q sample effects).queue ∙ put_sample_session q sample effects
