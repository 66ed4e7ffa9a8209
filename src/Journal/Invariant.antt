-- ===== src/Journal/Invariant.antt =====
-- Unfinished operations of a task session (operation_journal.py).
use verl_multi_task.Common.{
  String, ◌≡◌, refl, ap, inl, inr, true, false, Option, none, some, string_key, option_key, arith,
  Option-cases, Bool-cases, is_some,
}
use verl_multi_task.Common.Dict
use verl_multi_task.Common.Dict.{Dict}
use verl_multi_task.Contracts.{
  OperationCommand, OperationRecord, operation_command_key, operation_status_key,
}
use verl_multi_task.Journal.{
  OperationJournal, is_resolved, fresh, session_of, init, register, begin_new, begin,
}

-- Records stand under their ids, beside their commands, and an unfinished operation holds the slot of
-- its task session.
pub record Inv (j : OperationJournal) : Type 0 where
  pub named :
      (o : String) (r : OperationRecord) → Dict.get j.records o ≡ some r → r.operation_id ≡ o
  pub command_named :
      (o : String) (c : OperationCommand) → Dict.get j.commands o ≡ some c → c.operation_id ≡ o
  pub paired : (o : String) → is_some (Dict.get j.records o) ≡ is_some (Dict.get j.commands o)
  pub recorded :
      (t o : String) → Dict.get j.active_by_task t ≡ some o → is_some (Dict.get j.records o) ≡ true
  pub exclusive :
      (o : String) (r : OperationRecord) (c : OperationCommand)
      → Dict.get j.records o ≡ some r
      → Dict.get j.commands o ≡ some c
      → is_resolved r.status ≡ false
      → Dict.get j.active_by_task (session_of c) ≡ some o

pub init-Inv : Inv init
unfolding init Dict.get
init-Inv = record {
  named = λ o r h. cc;
  command_named = λ o c h. cc;
  paired = λ o. refl;
  recorded = λ t o h. cc;
  exclusive = λ o r c h k u. cc;
}

-- A new record takes the slot of its session, which no unfinished operation holds.
pub register-Inv :
    (j : OperationJournal) (c : OperationCommand)
    → Inv j
    → ((o : String) (r : OperationRecord) (d : OperationCommand)
        → Dict.get j.records o ≡ some r
        → Dict.get j.commands o ≡ some d
        → is_resolved r.status ≡ false
        → ¬ (session_of d ≡ session_of c))
    → Inv (register j c).1
unfolding register
register-Inv j c v free = record {
  named = λ o r h. ground (arith, Dict.get-put j.records c.operation_id o (fresh c), v.named o r);
  command_named =
      λ o d h. ground (arith, Dict.get-put j.commands c.operation_id o c, v.command_named o d);
  paired = λ o. ground (
    arith,
    Dict.get-put j.records c.operation_id o (fresh c),
    Dict.get-put j.commands c.operation_id o c,
    v.paired o,
  );
  recorded = λ t o h. ground (
    arith,
    Dict.get-put j.records c.operation_id o (fresh c),
    Dict.get-put j.active_by_task (session_of c) t c.operation_id,
    v.recorded t o,
  );
  exclusive = λ o r d h k u. ground (
    arith,
    Dict.get-put j.records c.operation_id o (fresh c),
    Dict.get-put j.commands c.operation_id o c,
    Dict.get-put j.active_by_task (session_of c) (session_of d) c.operation_id,
    v.exclusive o r d,
    free o r d,
  );
}

-- A session's slot may be freed when no unfinished operation holds it.
pub free_slot-Inv :
    (j : OperationJournal) (t : String)
    → Inv j
    → ((o : String) (r : OperationRecord) (d : OperationCommand)
        → Dict.get j.records o ≡ some r
        → Dict.get j.commands o ≡ some d
        → is_resolved r.status ≡ false
        → ¬ (session_of d ≡ t))
    → Inv (record j { active_by_task = Dict.remove j.active_by_task t })
free_slot-Inv j t v free = record {
  named = v.named;
  command_named = v.command_named;
  paired = v.paired;
  recorded = λ u o h. ground (arith, Dict.get-remove j.active_by_task t u, v.recorded u o);
  exclusive = λ o r d h k u.
      ground
        (arith, Dict.get-remove j.active_by_task t (session_of d), v.exclusive o r d, free o r d);
}

-- The slot of a session whose active operation is resolved is held by no unfinished operation.
pub resolved_slot_free :
    (j : OperationJournal) (t a : String) (active : OperationRecord)
    → Inv j
    → Dict.get j.active_by_task t ≡ some a
    → Dict.get j.records a ≡ some active
    → is_resolved active.status ≡ true
    → (o : String) (r : OperationRecord) (d : OperationCommand) → Dict.get j.records o ≡ some r
    → Dict.get j.commands o ≡ some d
    → is_resolved r.status ≡ false
    → ¬ (session_of d ≡ t)
resolved_slot_free j t a active v held known done o r d h k u same =
    ground (arith, v.exclusive o r d h k u, ap (Dict.get j.active_by_task) same)

-- A record may be overwritten unless that reopens a resolved operation.
pub put_record-Inv :
    (j : OperationJournal) (o : String) (r r' : OperationRecord)
    → Inv j
    → Dict.get j.records o ≡ some r
    → r'.operation_id ≡ o
    → (is_resolved r'.status ≡ false → is_resolved r.status ≡ false)
    → Inv (record j { records = Dict.put j.records o r' })
put_record-Inv j o r r' v known same keeps = record {
  named = λ p q h. ground (arith, Dict.get-put j.records o p r', v.named p q);
  command_named = v.command_named;
  paired = λ p. ground (arith, Dict.get-put j.records o p r', v.paired p);
  recorded = λ t p h. ground (arith, Dict.get-put j.records o p r', v.recorded t p);
  exclusive = λ p q d h k u.
      ground (arith, Dict.get-put j.records o p r', v.exclusive p q d, v.exclusive o r d);
}

pub begin_new-Inv :
    (j : OperationJournal) (c : OperationCommand) (a : Option String)
    → Inv j
    → Dict.get j.active_by_task (session_of c) ≡ a
    → Inv (begin_new j c a).1
unfolding begin_new
begin_new-Inv j c none v e =
    register-Inv j c v λ o r d h k u same.
      ground (arith, v.exclusive o r d h k u, ap (Dict.get j.active_by_task) same)
begin_new-Inv j c (some a) v e = elim (Option-cases (Dict.get j.records a)) [
  | inl missing ↦ rw (missing, begin_new) v
  | inr (active, known) ↦
      rw (known, begin_new)
        (elim (Bool-cases (is_resolved active.status)) [
          | inl done ↦
              let free = resolved_slot_free j (session_of c) a active v e known done in
              rw done (register-Inv _ c (free_slot-Inv j (session_of c) v free) free)
          | inr busy ↦ rw busy v
        ])
]

pub begin-Inv : (j : OperationJournal) (c : OperationCommand) → Inv j → Inv (begin j c).1
unfolding begin
begin-Inv j c v = elim (Option-cases (Dict.get j.records c.operation_id)) [
  | inl new ↦ rw (new, begin) (begin_new-Inv j c _ v refl)
  | inr (r, known) ↦ rw (known, begin) (ground arith)
]
