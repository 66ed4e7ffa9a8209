-- ===== src/Journal/Preservation.antt =====
-- The invariant of the journal under every call (operation_journal.py).
use verl_multi_task.Common.{
  String, ◌≡◌, refl, inl, inr, Option, some, List, [], ◌∷◌, ◌==◌, string_key, option_key, arith,
  Option-cases, Bool-cases,
}
use verl_multi_task.Common.Dict
use verl_multi_task.Common.Dict.{Dict}
use verl_multi_task.Contracts.{
  OperationRecord, OperationStatus, unknown, operation_command_key, operation_status_key,
}
use verl_multi_task.Journal.{
  OperationJournal, Call, begins, marks_running, reopens, finishes, is_resolved, is_terminal,
  session_of, mark_running, reopen_unknown, settle, finish, call, run,
}
use verl_multi_task.Journal.Invariant.{
  free_slot-Inv, resolved_slot_free, put_record-Inv, begin-Inv, Inv,
}

mark_running-Inv :
    (j : OperationJournal) (o : String) (result : Option String)
    → Inv j
    → Inv (mark_running j o result).1
unfolding mark_running
mark_running-Inv j o result v = elim (Option-cases (Dict.get j.records o)) [
  | inl missing ↦ rw (missing, mark_running) v
  | inr (r, known) ↦
      rw (known, mark_running)
        (elim (Bool-cases (is_terminal r.status)) [
          | inl over ↦ rw over v
          | inr open' ↦
              rw open' (put_record-Inv j o r _ v known (v.named o r known) (λ _. ground arith))
        ])
]

reopen_unknown-Inv : (j : OperationJournal) (o : String) → Inv j → Inv (reopen_unknown j o).1
unfolding reopen_unknown
reopen_unknown-Inv j o v = elim (Option-cases (Dict.get j.records o)) [
  | inl missing ↦ rw (missing, reopen_unknown) v
  | inr (r, known) ↦
      rw (known, reopen_unknown)
        (elim (Bool-cases (r.status == unknown)) [
          | inl open' ↦
              rw open' (put_record-Inv j o r _ v known (v.named o r known) (λ _. ground arith))
          | inr other ↦ rw other v
        ])
]

pub settle-Inv :
    (j : OperationJournal) (o : String) (s : OperationStatus) (r : OperationRecord)
    → Inv j
    → Dict.get j.records o ≡ some r
    → r.status ≡ s
    → Inv (settle j o s r).1
unfolding settle
settle-Inv j o s r v known same = elim (Option-cases (Dict.get j.commands o)) [
  | inl missing ↦ rw (missing, settle) v
  | inr (c, sent) ↦
      rw (sent, settle)
        (elim (Bool-cases (is_resolved s)) [
          | inr more ↦ rw more v
          | inl done ↦
              rw done (elim (Bool-cases (Dict.get j.active_by_task (session_of c) == some o)) [
                | inl held ↦ rw held (
                    free_slot-Inv j (session_of c) v (
                      resolved_slot_free j (session_of c) o r v (ground arith) known
                        (ground arith)))
                | inr other ↦ rw other v
              ])
        ])
]

finish-Inv :
    (j : OperationJournal) (o : String) (s : OperationStatus) (result : Option String)
    → Inv j
    → Inv (finish j o s result).1
unfolding finish
finish-Inv j o s result v = elim (Bool-cases (is_terminal s)) [
  | inr open' ↦ rw open' v
  | inl over ↦ rw over (elim (Option-cases (Dict.get j.records o)) [
    | inl missing ↦ rw (missing, finish) v
    | inr (r, known) ↦
        rw (known, finish)
          (elim (Bool-cases (is_terminal r.status)) [
            | inl again ↦ rw again (ground arith)
            | inr first ↦
                let r' : OperationRecord = record r { status = s; result = result } in
                rw first (
                  settle-Inv _ o s r'
                    (put_record-Inv j o r r' v known (v.named o r known) (λ _. ground arith))
                    (ground (arith, Dict.get-put j.records o o r')) refl)
          ])
  ])
]

call-Inv : (j : OperationJournal) (c : Call) → Inv j → Inv (call j c).1
unfolding call
call-Inv j (begins c) v = begin-Inv j c v
call-Inv j (marks_running o result) v = mark_running-Inv j o result v
call-Inv j (reopens o) v = reopen_unknown-Inv j o v
call-Inv j (finishes o s result) v = finish-Inv j o s result v

pub run-Inv : (j : OperationJournal) (cs : List Call) → Inv j → Inv (run j cs)
unfolding run
run-Inv j [] v = v
run-Inv j (c ∷ cs) v = run-Inv (call j c).1 cs (call-Inv j c v)
