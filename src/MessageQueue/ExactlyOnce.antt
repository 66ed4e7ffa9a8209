-- ===== src/MessageQueue/ExactlyOnce.antt =====
-- Counting the native enqueues of a logical sample over a history of calls (message_queue.py).
use verl_multi_task.Common.{
  ℕ, suc, ◌+◌, ◌≤◌, String, ◌≡◌, inl, inr, Bool, true, false, Option, none, some, List, [], ◌∷◌,
  ◌++◌, ◌==◌, if◌then◌else◌, is_some, ok, string_key, arith, Result-cases,
}
use verl_multi_task.Common.Dict
use verl_multi_task.Common.Dict.{Dict}
use verl_multi_task.MessageQueue.{
  MessageQueue, Sample, Row, Write, Effects, decode_identity, lookup_completion, with_row, finalize,
  admit, put_known, put_sample_once, put_sample, run,
}

-- how often an id stands in a list of enqueues
abbrev pub occurrences : String → List String → ℕ
occurrences id [] = 0
occurrences id (x ∷ xs) = if x == id then suc (occurrences id xs) else occurrences id xs

occurrences-append :
    (id : String) (xs ys : List String)
    → occurrences id (xs ++ ys) ≡ occurrences id xs + occurrences id ys
occurrences-append id [] ys = omega arith
occurrences-append id (x ∷ xs) ys = ground (arith, occurrences-append id xs ys)

-- 1 while the ledger does not know the id
abbrev room : MessageQueue → String → ℕ
room q id = if is_some (Dict.get q.ledger id) then 0 else 1

finalize_known :
    (q : MessageQueue) (id digest : String) (seq : ℕ) (dropped : Bool) (update : Write) (j : String)
    → is_some (Dict.get q.ledger id) ≡ true
    → (is_some (Dict.get (finalize q id digest seq dropped update).queue.ledger j)
        ≡ is_some (Dict.get q.ledger j))
      × ((finalize q id digest seq dropped update).enqueued ≡ id ∷ [])
unfolding finalize
finalize_known q id digest seq dropped update j known = ground (
  arith,
  Dict.get-put q.ledger id j
      (record { payload_digest = digest; enqueue_seq = seq; dropped_oldest = some dropped }),
)

-- An id that is enqueued uses up its room, and none is ever given back.
admit-room :
    (q : MessageQueue) (id digest : String) (effects : Effects) (j : String)
    → Dict.get q.ledger id ≡ none
    → occurrences j (admit q id digest effects).enqueued + room (admit q id digest effects).queue j
      ≤ room q j
unfolding admit
admit-room q id digest effects j new =
    let seq = q.next_completion_seq in
    let row : Row = record { payload_digest = digest; enqueue_seq = seq; dropped_oldest = none } in
    let r : MessageQueue = record (with_row q id row) { next_completion_seq = seq + 1 } in
    ground (
      arith,
      Dict.get-put q.ledger id j row,
      Dict.get-put q.ledger id id row,
      finalize_known r id digest seq true effects.update j,
      finalize_known r id digest seq false effects.update j,
    )

lookup_missing :
    (q : MessageQueue) (id : String)
    → lookup_completion q id ≡ ok none
    → Dict.get q.ledger id ≡ none
unfolding lookup_completion
lookup_missing q id h = ground arith

put_known-room :
    (q : MessageQueue) (id digest : String) (effects : Effects) (j : String)
    → occurrences j (put_known q id digest effects).enqueued
        + room (put_known q id digest effects).queue j
      ≤ room q j
unfolding put_known
put_known-room q id digest effects j =
    ground (arith, lookup_missing q id, admit-room q id digest effects j)

put_sample-room :
    (q : MessageQueue) (sample : Option Sample) (effects : Effects) (j : String)
    → occurrences j (put_sample q sample effects).enqueued
        + room (put_sample q sample effects).queue j
      ≤ room q j
unfolding put_sample put_sample_once
put_sample-room q none effects j = omega arith
put_sample-room q (some sample) effects j = elim (Result-cases (decode_identity sample)) [
  | inl (e, bad) ↦ rw (bad, put_sample_once) (omega arith)
  | inr ((id, digest), good) ↦ rw (good, put_sample_once) (put_known-room q id digest effects j)
]

run-room :
    (q : MessageQueue) (calls : List (Option Sample × Effects)) (j : String)
    → occurrences j (run q calls).1 + room (run q calls).0 j ≤ room q j
unfolding run
run-room q [] j = omega arith
run-room q ((sample, effects) ∷ rest) j =
    let out = put_sample q sample effects in
    omega (
      arith,
      occurrences-append j out.enqueued (run out.queue rest).1,
      put_sample-room q sample effects j,
      run-room out.queue rest j,
    )

-- Over any history of calls, whichever of them fail and at whichever statement, the native queue is
-- asked at most once to take a given logical sample, and never if the ledger already knew it.
pub enqueued_once :
    (q : MessageQueue) (calls : List (Option Sample × Effects)) (id : String)
    → occurrences id (run q calls).1 ≤ (if is_some (Dict.get q.ledger id) then 0 else 1)
enqueued_once q calls id = omega (arith, run-room q calls id)
