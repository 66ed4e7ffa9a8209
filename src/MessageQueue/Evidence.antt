-- ===== src/MessageQueue/Evidence.antt =====
-- Completed and unresolved rows over a history of calls (message_queue.py).
use verl_multi_task.Common.{
  String, ◌≡◌, refl, ◌∙◌, inl, inr, true, Option, none, some, List, nonempty, not, ok, err,
  string_key, arith, Option-cases, Result-cases,
}
use verl_multi_task.Common.Dict
use verl_multi_task.Common.Dict.{Dict}
use verl_multi_task.MessageQueue.{
  MessageQueue, CompletionEvidence, QueueError, Sample, Row, Effects, Outcome, unresolved_enqueue,
  completion_evidence, decode_identity, read_row, lookup_completion, finalize, admit, unchanged,
  put_known, put_sample_once, run,
}
use verl_multi_task.MessageQueue.Rows.{row_of, run_keeps, run_session}

-- what a returned evidence leaves in the ledger
record Stored (q : MessageQueue) (id digest : String) (e : CompletionEvidence) (row : Row)
    : Type 0 where
  held : Dict.get q.ledger id ≡ some row
  read : read_row q.task_session id (some row) ≡ ok (some e)
  same : row.payload_digest ≡ digest
  payload : e.payload_digest ≡ digest

admit-Stored :
    (q : MessageQueue) (id digest : String) (effects : Effects) (e : CompletionEvidence)
    → (admit q id digest effects).result ≡ ok e
    → (row : Row) × Stored (admit q id digest effects).queue id digest e row
unfolding admit finalize
admit-Stored q id digest effects e h = elim (Option-cases effects.native_put) [
  | inl raised ↦ absurd (ground arith)
  | inr (answer, done) ↦
      let seq = q.next_completion_seq in
      let row : Row = row_of digest seq (some (not answer)) in
      let first = Dict.put q.ledger id (row_of digest seq none) in
      (
        row,
        record {
          held = ground (arith, Dict.get-put first id id row);
          read = unfold read_row in ground arith;
          same = refl;
          payload = unfold completion_evidence in ground arith;
        },
      )
]

abbrev Stores : Outcome CompletionEvidence → String → String → CompletionEvidence → Type 0
Stores out id digest e = out.result ≡ ok e → (row : Row) × Stored out.queue id digest e row

put_known_new :
    (q : MessageQueue) (id digest : String) (effects : Effects)
    → Dict.get q.ledger id ≡ none
    → put_known q id digest effects ≡ admit q id digest effects
unfolding put_known lookup_completion
put_known_new q id digest effects new = ground arith

put_known_again :
    (q : MessageQueue) (id digest : String) (effects : Effects) (row : Row) (e : CompletionEvidence)
    → Dict.get q.ledger id ≡ some row
    → (put_known q id digest effects).result ≡ ok e
    → (put_known q id digest effects).queue ≡ q
      × (read_row q.task_session id (some row) ≡ ok (some e))
      × (row.payload_digest ≡ digest)
      × (e.payload_digest ≡ digest)
unfolding put_known lookup_completion completion_evidence
put_known_again q id digest effects row e held h = ground arith

put_known_stored :
    (q : MessageQueue) (id digest : String) (effects : Effects) (e : CompletionEvidence)
    → Stores (put_known q id digest effects) id digest e
put_known_stored q id digest effects e = elim (Option-cases (Dict.get q.ledger id)) [
  | inl new ↦ rw (put_known_new q id digest effects new) (λ h. admit-Stored q id digest effects e h)
  | inr (row, held) ↦ λ h.
      let (same, read, digests, payload) = put_known_again q id digest effects row e held h in
      (row, rw same (record { held = held; read = read; same = digests; payload = payload }))
]

Stored-replay :
    (q : MessageQueue) (id digest : String) (effects : Effects) (e : CompletionEvidence) (row : Row)
    → Stored q id digest e row
    → put_known q id digest effects ≡ unchanged q (ok e)
unfolding put_known lookup_completion
Stored-replay q id digest effects e row s = ground arith

run-Stored :
    (q : MessageQueue) (calls : List (Option Sample × Effects)) (id digest : String)
    (e : CompletionEvidence) (row : Row)
    → Stored q id digest e row
    → Stored (run q calls).0 id digest e row
run-Stored q calls id digest e row s = record {
  held = run_keeps calls q id row s.held;
  read = rw (run_session calls q) s.read;
  same = s.same;
  payload = s.payload;
}

put_decoded :
    (q : MessageQueue) (sample : Sample) (id digest : String) (effects : Effects)
    → decode_identity sample ≡ ok (id, digest)
    → put_sample_once q (some sample) effects ≡ put_known q id digest effects
unfolding put_sample_once
put_decoded q sample id digest effects good = rw (good, put_sample_once)

put_undecoded :
    (q : MessageQueue) (sample : Sample) (effects : Effects) (x : QueueError)
    (e : CompletionEvidence)
    → decode_identity sample ≡ err x
    → ¬ ((put_sample_once q (some sample) effects).result ≡ ok e)
unfolding put_sample_once
put_undecoded q sample effects x e bad h = ground arith

-- After `put_sample_once` returned evidence for a sample, and any further calls, putting the
-- same sample once more returns the same evidence, leaves the ledger as it is and enqueues
-- nothing.
pub evidence_final :
    (q : MessageQueue) (sample : Sample) (effects effects' : Effects) (e : CompletionEvidence)
    (calls : List (Option Sample × Effects))
    → (put_sample_once q (some sample) effects).result ≡ ok e
    → put_sample_once
        (run (put_sample_once q (some sample) effects).queue calls).0
        (some sample)
        effects'
      ≡ unchanged (run (put_sample_once q (some sample) effects).queue calls).0 (ok e)
evidence_final q sample effects effects' e calls h = elim (Result-cases (decode_identity sample)) [
  | inl (x, bad) ↦ absurd (put_undecoded q sample effects x e bad h)
  | inr ((id, digest), good) ↦
      let known = put_decoded q sample id digest effects good in
      let (row, s) = put_known_stored q id digest effects e (rw known at h) in
      let r = (put_known q id digest effects).queue in
      rw known (
        put_decoded _ sample id digest effects' good
        ∙ Stored-replay _ id digest effects' e row (run-Stored r calls id digest e row s))
]

-- While the ledger has an unresolved row for a nonempty id, then after any further calls,
-- putting a sample of that id raises, leaves the ledger as it is and enqueues nothing.
pub unresolved_stays_closed :
    (q : MessageQueue) (sample : Sample) (id : String) (effects : Effects) (row : Row)
    (calls : List (Option Sample × Effects))
    → sample.sample_id ≡ some id
    → nonempty id ≡ true
    → Dict.get q.ledger id ≡ some row
    → row.dropped_oldest ≡ none
    → put_sample_once (run q calls).0 (some sample) effects
      ≡ unchanged (run q calls).0 (err unresolved_enqueue)
unfolding put_sample_once decode_identity put_known lookup_completion
unresolved_stays_closed q sample id effects row calls named good held open' =
    ground (arith, run_keeps calls q id row held)
