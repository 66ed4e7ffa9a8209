-- ===== src/MessageQueue.antt =====
-- src/multi_task_scheduler/integration/verl/experimental_fully_async/message_queue.py: exactly-once
-- admission of completed samples, by a ledger keyed by the logical sample id.
-- The native queue, the SQLite connection and the serializer are not part of the repository. What a
-- call of theirs did is an argument (`Effects`); a sample is what the method reads of it. The lock
-- makes each call of `put_sample_once` one step. A call also returns the native enqueues that it made.
mod Rows
pub mod ExactlyOnce
pub mod Evidence
mod Examples
use verl_multi_task.Common.{
  ℕ, ◌+◌, String, Bool, true, false, Option, none, some, List, [], ◌∷◌, ◌++◌, ◌==◌, if◌then◌else◌,
  nonempty, not, Result, ok, err, string_key, String-discrete,
}
use verl_multi_task.Common.Dict
use verl_multi_task.Common.Dict.{Dict}

pub record CompletionEvidence : Type 0 where
  pub task_session : String
  pub logical_sample_id : String
  pub payload_digest : String
  pub enqueue_seq : ℕ
  pub dropped_oldest : Bool

pub data QueueError : Type 0 where
  empty_evidence_field no_sample_id unresolved_enqueue duplicate_completion : QueueError
  insert_failed native_put_raised evidence_not_finalized empty_task_session not_a_sample :
      QueueError

unfoldable pub completion_evidence :
    String → String → String → ℕ → Bool → Result QueueError CompletionEvidence
completion_evidence session id digest seq dropped =
    if (if nonempty session then (if nonempty id then nonempty digest else false) else false)
    then ok (record {
      task_session = session;
      logical_sample_id = id;
      payload_digest = digest;
      enqueue_seq = seq;
      dropped_oldest = dropped;
    })
    else err empty_evidence_field

-- A sample as the queue reads it: its id, if it has one of type `str`, and the digest of its payload.
pub record Sample : Type 0 where
  pub sample_id : Option String
  pub digest : String

-- A row of the table; `dropped_oldest` is NULL while the enqueue is unresolved.
pub record Row : Type 0 where
  pub payload_digest : String
  pub enqueue_seq : ℕ
  pub dropped_oldest : Option Bool

pub record MessageQueue : Type 0 where
  pub task_session : String
  pub ledger : Dict String Row
  pub next_completion_seq : ℕ

-- A statement and its commit: both done; the statement failed; or the statement was executed on the
-- connection, which therefore sees it, and the commit failed.
pub data Write : Type 0 where
  written not_executed not_committed : Write

-- What the libraries did in one call: the INSERT, the native put (its answer, or none if it raised,
-- which includes cancellation), and the UPDATE.
pub record Effects : Type 0 where
  pub insert : Write
  pub native_put : Option Bool
  pub update : Write

pub record Outcome (A : Type 0) : Type 0 where
  pub result : Result QueueError A
  pub queue : MessageQueue
  -- the logical ids for which the native `put_sample` was called
  pub enqueued : List String

unfoldable pub create : String → Result QueueError MessageQueue
create session =
    if nonempty session
    then ok (record { task_session = session; ledger = []; next_completion_seq = 0 })
    else err empty_task_session

unfoldable pub decode_identity : Sample → Result QueueError (String × String)
decode_identity s = elim s.sample_id [
  | none ↦ err no_sample_id
  | some id ↦ if nonempty id then ok (id, s.digest) else err no_sample_id
]

-- `_lookup_completion`, of the row that the SELECT finds
unfoldable pub read_row :
    String → String → Option Row → Result QueueError (Option CompletionEvidence)
unfolding completion_evidence
read_row session id none = ok none
read_row session id (some row) = elim row.dropped_oldest [
  | none ↦ err unresolved_enqueue
  | some dropped ↦
      elim (completion_evidence session id row.payload_digest row.enqueue_seq dropped) [
        | err e ↦ err e
        | ok evidence ↦ ok (some evidence)
      ]
]

unfoldable pub lookup_completion :
    MessageQueue → String → Result QueueError (Option CompletionEvidence)
unfolding read_row
lookup_completion q id = read_row q.task_session id (Dict.get q.ledger id)

abbrev pub with_row : MessageQueue → String → Row → MessageQueue
with_row q id row = record q { ledger = Dict.put q.ledger id row }

-- the UPDATE, and the evidence that is returned
unfoldable pub finalize :
    MessageQueue → String → String → ℕ → Bool → Write → Outcome CompletionEvidence
unfolding completion_evidence
finalize q id digest seq dropped update =
    let row : Row = record {
      payload_digest = digest;
      enqueue_seq = seq;
      dropped_oldest = some dropped;
    } in
    let evidence = completion_evidence q.task_session id digest seq dropped in
    elim update [
      | written ↦ record { result = evidence; queue = with_row q id row; enqueued = id ∷ [] }
      | not_executed ↦ record { result = err evidence_not_finalized; queue = q; enqueued = id ∷ [] }
      | not_committed ↦ record {
        result = err evidence_not_finalized;
        queue = with_row q id row;
        enqueued = id ∷ [];
      }
    ]

-- an id that the ledger does not know: reserve its row, enqueue natively, finalize
unfoldable pub admit : MessageQueue → String → String → Effects → Outcome CompletionEvidence
unfolding finalize
admit q id digest effects =
    let seq = q.next_completion_seq in
    let row : Row = record { payload_digest = digest; enqueue_seq = seq; dropped_oldest = none } in
    elim effects.insert [
      | not_executed ↦ record { result = err insert_failed; queue = q; enqueued = [] }
      | not_committed ↦ record {
        result = err insert_failed;
        queue = with_row q id row;
        enqueued = [];
      }
      | written ↦
          let r = record (with_row q id row) { next_completion_seq = seq + 1 } in
          elim effects.native_put [
            | none ↦ record { result = err native_put_raised; queue = r; enqueued = id ∷ [] }
            | some answer ↦ finalize r id digest seq (not answer) effects.update
          ]
    ]

abbrev pub unchanged :
    MessageQueue → Result QueueError CompletionEvidence → Outcome CompletionEvidence
unchanged q result = record { result = result; queue = q; enqueued = [] }

unfoldable pub put_known : MessageQueue → String → String → Effects → Outcome CompletionEvidence
unfolding lookup_completion admit
put_known q id digest effects = elim (lookup_completion q id) [
  | err e ↦ unchanged q (err e)
  | ok none ↦ admit q id digest effects
  | ok (some existing) ↦
      if existing.payload_digest == digest
      then unchanged q (ok existing)
      else unchanged q (err duplicate_completion)
]

unfoldable pub put_sample_once : MessageQueue → Option Sample → Effects → Outcome CompletionEvidence
unfolding decode_identity put_known
put_sample_once q none effects = unchanged q (err not_a_sample)
put_sample_once q (some sample) effects = elim (decode_identity sample) [
  | err e ↦ unchanged q (err e)
  | ok (id, digest) ↦ put_known q id digest effects
]

-- `put_sample`: the termination signal goes to the native queue as it is
unfoldable pub put_sample : MessageQueue → Option Sample → Effects → Outcome Bool
unfolding put_sample_once
put_sample q none effects = record {
  result = (elim effects.native_put [ none ↦ err native_put_raised | some answer ↦ ok answer ]);
  queue = q;
  enqueued = [];
}
put_sample q (some sample) effects =
    let out = put_sample_once q (some sample) effects in
    record {
      result = (elim out.result [ err e ↦ err e | ok e ↦ ok (not e.dropped_oldest) ]);
      queue = out.queue;
      enqueued = out.enqueued;
    }

-- A history of calls, each with what the libraries did: the queue and all native enqueues, in order.
unfoldable pub run : MessageQueue → List (Option Sample × Effects) → MessageQueue × List String
unfolding put_sample
run q [] = (q, [])
run q ((sample, effects) ∷ rest) =
    let out = put_sample q sample effects in
    let (r, later) = run out.queue rest in (r, out.enqueued ++ later)
