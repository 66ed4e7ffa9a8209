-- ===== src/Journal/Uniqueness.antt =====
-- Unfinished, replayed and resolved operations (operation_journal.py).
use verl_multi_task.Common.{
  String, ◌≡◌, ap, inl, inr, true, false, none, some, List, ok, err, string_key, option_key, arith,
  Option-cases,
}
use verl_multi_task.Common.Dict
use verl_multi_task.Contracts.{
  OperationCommand, OperationRecord, running, operation_command_key, operation_status_key,
}
use verl_multi_task.Journal.{
  OperationJournal, Call, begins, marks_running, reopens, finishes, is_resolved, session_of, init,
  register, begin_new, begin, call, run, another_active, fresh, or_else, JournalError,
}
use verl_multi_task.Journal.Invariant.{Inv, init-Inv}
use verl_multi_task.Journal.Preservation.{run-Inv}

-- the journal after some calls, from a fresh one
abbrev pub after : List Call → OperationJournal
after cs = run init cs

-- Whatever calls a fresh journal has served, two operations of one task session that are both
-- unfinished (accepted, running or unknown) are the same operation.
pub one_unfinished :
    (cs : List Call) (o p : String) (r q : OperationRecord) (c d : OperationCommand)
    → Dict.get (after cs).records o ≡ some r
    → Dict.get (after cs).commands o ≡ some c
    → is_resolved r.status ≡ false
    → Dict.get (after cs).records p ≡ some q
    → Dict.get (after cs).commands p ≡ some d
    → is_resolved q.status ≡ false
    → session_of c ≡ session_of d
    → o ≡ p
one_unfinished cs o p r q c d ho hc hr hp hd hq same =
    let v = run-Inv init cs init-Inv in cc (v.exclusive o r c ho hc hr, v.exclusive p q d hp hd hq)

-- In a well-formed journal, while an operation of the command's session is unfinished, `begin`
-- of a command with a new id raises and leaves the journal as it was.
pub begin_while_unfinished :
    (j : OperationJournal) (c d : OperationCommand) (o : String) (r : OperationRecord)
    → Inv j
    → Dict.get j.records o ≡ some r
    → Dict.get j.commands o ≡ some d
    → is_resolved r.status ≡ false
    → session_of d ≡ session_of c
    → Dict.get j.records c.operation_id ≡ none
    → begin j c ≡ (err another_active, j)
unfolding begin begin_new
begin_while_unfinished j c d o r v ho hd hr same new =
    ground (arith, v.exclusive o r d ho hd hr, ap (Dict.get j.active_by_task) same)

-- `begin` may be replayed: after it returned a record, the same command returns that record again and
-- changes nothing.
pub begin_replay :
    (j k : OperationJournal) (c : OperationCommand) (r : OperationRecord)
    → begin j c ≡ (ok r, k)
    → begin k c ≡ (ok r, k)
unfolding begin begin_new register
begin_replay j k c r h = ground (
  arith,
  Dict.get-put j.records c.operation_id c.operation_id (fresh c),
  Dict.get-put j.commands c.operation_id c.operation_id c,
)

-- A call of a well-formed journal that raises leaves the journal as it was.
pub error_keeps_journal :
    (j k : OperationJournal) (c : Call) (e : JournalError) → Inv j → call j c ≡ (err e, k) → k ≡ j
unfolding call
error_keeps_journal j k (begins c) e v h = ground arith
error_keeps_journal j k (marks_running o result) e v h = ground arith
error_keeps_journal j k (reopens o) e v h = ground arith
error_keeps_journal j k (finishes o s result) e v h = ground (arith, v.paired o)

-- A call leaves the record of each resolved operation (succeeded or failed) as it is.
pub resolved_is_final :
    (j : OperationJournal) (c : Call) (o : String) (r : OperationRecord)
    → Dict.get j.records o ≡ some r
    → is_resolved r.status ≡ true
    → Dict.get (call j c).1.records o ≡ some r
unfolding call
resolved_is_final j (begins c) o r known done =
    ground (arith, Dict.get-put j.records c.operation_id o (fresh c))
resolved_is_final j (marks_running p result) o r known done =
    elim (Option-cases (Dict.get j.records p)) [
      | inl missing ↦ ground arith
      | inr (q, held) ↦ ground (
        arith,
        Dict.get-put j.records p o
            (record q { status = running; result = or_else result q.result }),
      )
    ]
resolved_is_final j (reopens p) o r known done = elim (Option-cases (Dict.get j.records p)) [
  | inl missing ↦ ground arith
  | inr (q, held) ↦
      ground (arith, Dict.get-put j.records p o (record q { status = running; result = none }))
]
resolved_is_final j (finishes p s result) o r known done =
    elim (Option-cases (Dict.get j.records p)) [
      | inl missing ↦ ground arith
      | inr (q, held) ↦
          ground (arith, Dict.get-put j.records p o (record q { status = s; result = result }))
    ]
