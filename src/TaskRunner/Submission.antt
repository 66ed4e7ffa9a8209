-- ===== src/TaskRunner/Submission.antt =====
-- Replays of a submission (task_runner.py).
use verl_multi_task.Common.{
  String, ◌≡◌, refl, ◌∙◌, ◌⊎◌, inl, inr, Bool, false, Option, none, some, ok, ◌>>◌, string_key,
  option_key, arith, Option-cases, Result-cases,
}
use verl_multi_task.Common.Dict
use verl_multi_task.Contracts.{
  OperationCommand, OperationRecord, operation_kind_key, operation_status_key,
}
use verl_multi_task.Contracts.Lease.{Lease}
use verl_multi_task.GroupScheduler.Leases.{lease_key}
use verl_multi_task.Journal.{OperationJournal, begin, begin_new, register, query, fresh}
use verl_multi_task.Journal.Uniqueness.{begin_replay}
use verl_multi_task.TaskRunner.{
  TaskRunner, check_snapshot, check_session, keep_lease, is_reconciliation, submit_begun,
  submit_operation,
}

-- a begun operation is known afterwards
begin-known :
    (j k : OperationJournal) (c : OperationCommand) (r : OperationRecord)
    → begin j c ≡ (ok r, k)
    → query k c.operation_id ≡ some r
unfolding begin begin_new register query
begin-known j k c r h =
    ground (arith, Dict.get-put j.records c.operation_id c.operation_id (fresh c))

-- it was new, or it was known before
begun-alternatives :
    (j k : OperationJournal) (c : OperationCommand) (r : OperationRecord)
    → begin j c ≡ (ok r, k)
    → (query j c.operation_id ≡ none) ⊎ (query j c.operation_id ≡ some r)
unfolding begin begin_new register query
begun-alternatives j k c r h = elim (Option-cases (Dict.get j.records c.operation_id)) [
  | inl new ↦ inl new
  | inr (x, known) ↦ inr (known ∙ ground arith)
]

-- `setdefault` again
keep_lease-again :
    (t u : TaskRunner) (c : OperationCommand) (lease : Option Lease)
    → keep_lease t c lease ≡ ok u.operation_leases
    → keep_lease u c lease ≡ ok u.operation_leases
unfolding keep_lease
keep_lease-again t u c none h = refl
keep_lease-again t u c (some l) h =
    ground (arith, Dict.get-put t.operation_leases c.operation_id c.operation_id l)

-- What a submission that returned leaves of the state that it began with.
begun-state :
    (t u : TaskRunner) (c : OperationCommand) (lease : Option Lease)
    (existing : Option OperationRecord) (r x : OperationRecord) (starts : Bool) (why : String)
    → submit_begun t c lease existing r starts why ≡ (ok x, u)
    → (x ≡ r)
      × (u.operation_journal ≡ t.operation_journal)
      × (u.task_session ≡ t.task_session)
      × (u.control_ready ≡ t.control_ready)
      × (keep_lease t c lease ≡ ok u.operation_leases)
unfolding submit_begun
begun-state t u c lease existing r x starts why h = ground arith

-- After it, the operation has a thread or needs none.
begun-launched :
    (t u : TaskRunner) (c : OperationCommand) (lease : Option Lease)
    (existing : Option OperationRecord) (r x : OperationRecord) (starts : Bool) (why : String)
    → (existing ≡ none) ⊎ (existing ≡ some r)
    → submit_begun t c lease existing r starts why ≡ (ok x, u)
    → is_reconciliation u c.operation_id (some r) ≡ false
unfolding submit_begun
begun-launched t u c lease none r x starts why known h =
    ground (arith, Dict.get-put t.operation_threads c.operation_id c.operation_id tt)
begun-launched t u c lease (some e) r x starts why known h =
    ground (arith, Dict.get-put t.operation_threads c.operation_id c.operation_id tt)

-- An exact replay at that point launches nothing.
begun-again :
    (t : TaskRunner) (c : OperationCommand) (lease : Option Lease) (r : OperationRecord)
    (starts : Bool) (why : String)
    → keep_lease t c lease ≡ ok t.operation_leases
    → is_reconciliation t c.operation_id (some r) ≡ false
    → submit_begun t c lease (some r) r starts why ≡ (ok r, t)
unfolding submit_begun
begun-again t c lease r starts why kept idle = ground arith

submit-again :
    (t : TaskRunner) (c : OperationCommand) (lease : Option Lease) (r : OperationRecord)
    (starts : Bool) (why : String)
    → (check_snapshot c lease >> check_session t c) ≡ ok tt
    → begin t.operation_journal c ≡ (ok r, t.operation_journal)
    → query t.operation_journal c.operation_id ≡ some r
    → keep_lease t c lease ≡ ok t.operation_leases
    → is_reconciliation t c.operation_id (some r) ≡ false
    → submit_operation t c lease starts why ≡ (ok r, t)
unfolding submit_operation
submit-again t c lease r starts why checked begun known kept idle =
    ground (arith, begun-again t c lease r starts why kept idle)

-- the same, after the submission that began in `t` returned
begun-replay :
    (t u : TaskRunner) (c : OperationCommand) (lease : Option Lease) (r x : OperationRecord)
    (j : OperationJournal) (starts starts' : Bool) (why why' : String)
    → (check_snapshot c lease >> check_session t c) ≡ ok tt
    → begin t.operation_journal c ≡ (ok r, j)
    → submit_begun
        (record t { operation_journal = j })
        c
        lease
        (query t.operation_journal c.operation_id)
        r
        starts
        why
      ≡ (ok x, u)
    → submit_operation u c lease starts' why' ≡ (ok x, u)
unfolding check_session
begun-replay t u c lease r x j starts starts' why why' checked begun h =
    let before : TaskRunner = record t { operation_journal = j } in
    let known = query t.operation_journal c.operation_id in
    let state = begun-state before u c lease known r x starts why h in
    let launched =
      begun-launched before u c lease known r x starts why
        (begun-alternatives t.operation_journal j c r begun) h in
    ground (
      arith,
      submit-again u c lease r starts' why',
      begin_replay t.operation_journal j c r begun,
      begin-known t.operation_journal j c r begun,
      keep_lease-again before u c lease state.4,
      state,
      launched,
    )

-- An exact replay of a submission that returned gives the same record again and changes nothing: it
-- starts no second thread.
pub submit_replay :
    (t u : TaskRunner) (c : OperationCommand) (lease : Option Lease) (r : OperationRecord)
    (starts starts' : Bool) (why why' : String)
    → submit_operation t c lease starts why ≡ (ok r, u)
    → submit_operation u c lease starts' why' ≡ (ok r, u)
unfolding submit_operation
submit_replay t u c lease r starts starts' why why' h =
    elim (Result-cases (check_snapshot c lease >> check_session t c)) [
      | inl (e, bad) ↦ ground arith
      | inr (w, checked) ↦ elim (Result-cases (begin t.operation_journal c).0) [
        | inl (e, bad) ↦ ground arith
        | inr (x, begun) ↦
            begun-replay t u c lease x r (begin t.operation_journal c).1 starts starts' why why'
              checked (ground arith) (ground arith)
      ]
    ]
