-- ===== src/GroupScheduler/Cases.antt =====
-- How a submission and a piece of evidence can change the scheduler (group_scheduler.py).
use verl_multi_task.Common.{
  ℕ, String, ◌≡◌, refl, ◌⊎◌, inl, inr, true, false, none, some, ◌==◌, is_some, ok, nat_key,
  string_key, pair_key, option_key, arith, Bool-cases, Option-cases, Result-cases,
}
use verl_multi_task.Common.Dict
use verl_multi_task.Contracts.{
  OperationCommand, OperationEvidence, OperationKind, EvidenceType, add, donate, remove, restore,
  service_committed, released_gpus, weight_ready, exit_ready, operation_command_key,
  operation_evidence_key, evidence_type_key,
}
use verl_multi_task.Contracts.Lease.{Lease}
use verl_multi_task.GroupScheduler.{GroupScheduler}
use verl_multi_task.GroupScheduler.Submit.{
  Reply, check_new, check_kind, stage, accept, submit_operation,
}
use verl_multi_task.GroupScheduler.Advance.{
  covers, has_reservation, after_rollback, after_restore, after_add_rollback, after_donate,
  after_remove, check_add_rollback, advance_restore, advance_add, advance_release, advance_new,
  advance_known, advance_lease,
}

pub check_new-kind :
    (s : GroupScheduler) (c : OperationCommand) (l : Lease) (now monotonic : ℕ)
    → check_new s c l now monotonic ≡ ok tt
    → check_kind s c l monotonic c.kind ≡ ok tt
unfolding check_new
check_new-kind s c l now monotonic h = ground arith

-- An accepted command is a replay, which changes nothing, or a new one that passed its checks.
pub accept_cases :
    (s t : GroupScheduler) (c : OperationCommand) (l : Lease) (now monotonic : ℕ)
    → accept s c l now monotonic ≡ ok t
    → (Dict.get s.operation_commands c.operation_id ≡ some c) × (t ≡ s)
      ⊎ (Dict.get s.operation_commands c.operation_id ≡ none)
        × (check_new s c l now monotonic ≡ ok tt)
        × (t ≡ stage s c l)
unfolding accept
accept_cases s t c l now monotonic h = ground arith

-- A submission keeps `P` if staging a checked command does.
pub submit_cases {ℓ} :
    (P : GroupScheduler → Type ℓ) (s : GroupScheduler) (c : OperationCommand) (now monotonic : ℕ)
    (reply : Reply)
    → P s
    → ((l : Lease)
        → Dict.get s.leases c.lease_id ≡ some l
        → Dict.get s.operation_commands c.operation_id ≡ none
        → check_new s c l now monotonic ≡ ok tt
        → P (stage s c l))
    → P (submit_operation s c now monotonic reply).1
unfolding submit_operation
submit_cases P s c now monotonic reply same staged =
    elim (Option-cases (Dict.get s.leases c.lease_id)) [
      | inl unknown ↦ rw (unknown, submit_operation) same
      | inr (l, known) ↦
          rw (known, submit_operation)
            (elim (Result-cases (accept s c l now monotonic)) [
              | inl (e, bad) ↦ rw (bad, submit_operation) same
              | inr (t, good) ↦
                  rw (good, submit_operation)
                    (elim (accept_cases s t c l now monotonic good) [
                      | inl (_, e) ↦ rw e same
                      | inr (new, checked, e) ↦ rw e (staged l known new checked)
                    ])
            ])
    ]

-- The effects of evidence for a command `c` of the lease `l`, whose id is `i`.
pub data Effect (s : GroupScheduler) (c : OperationCommand) (i : String) (l : Lease)
    (e : OperationEvidence) : GroupScheduler → Type 0 where
  unchanged : Effect s c i l e s
  rolled_back :
      c.kind ≡ restore
      → has_reservation s i l ≡ true
      → covers e l ≡ true
      → Effect s c i l e (after_rollback s i l e)
  restored :
      c.kind ≡ restore → has_reservation s i l ≡ true → Effect s c i l e (after_restore s i l e)
  add_rolled_back :
      c.kind ≡ add
      → is_some (Dict.get s.handoff_ready_leases c.lease_id) ≡ true
      → covers e l ≡ true
      → Effect s c i l e (after_add_rollback s i l e)
  donated : c.kind ≡ donate → covers e l ≡ true → Effect s c i l e (after_donate s i e)
  removed : c.kind ≡ remove → covers e l ≡ true → Effect s c i l e (after_remove s i l e)

module _ (s : GroupScheduler) (c : OperationCommand) (i : String) (l : Lease)
    (e : OperationEvidence) where
  advance_restore-Effect :
      (t : EvidenceType) → c.kind ≡ restore → Effect s c i l e (advance_restore s i l e t).1
  unfolding advance_restore
  advance_restore-Effect weight_ready k = unchanged
  advance_restore-Effect exit_ready k = unchanged
  advance_restore-Effect service_committed k = elim (Bool-cases (has_reservation s i l)) [
    | inl held ↦ rw held (restored k held)
    | inr lost ↦ rw lost unchanged
  ]
  advance_restore-Effect released_gpus k = elim (Bool-cases (has_reservation s i l)) [
    | inr lost ↦ rw lost unchanged
    | inl held ↦ rw held (elim (Bool-cases (covers e l)) [
      | inl all ↦ rw all (rolled_back k held all)
      | inr part ↦ rw part unchanged
    ])
  ]

  advance_add-Effect : c.kind ≡ add → Effect s c i l e (advance_add s c i l e).1
  unfolding advance_add
  advance_add-Effect k = elim (Result-cases (check_add_rollback s c i l e)) [
    | inl (x, bad) ↦ rw (bad, advance_add) unchanged
    | inr (_, good) ↦
        rw (good, advance_add)
          (add_rolled_back k (unfold check_add_rollback in ground arith)
            (unfold check_add_rollback in ground arith))
  ]

  advance_donate-Effect : c.kind ≡ donate → Effect s c i l e (advance_release s i l e true).1
  unfolding advance_release
  advance_donate-Effect k = elim (Bool-cases (e.type == released_gpus)) [
    | inr other ↦ rw other unchanged
    | inl right ↦ rw right (elim (Bool-cases (covers e l)) [
      | inl all ↦ rw all (donated k all)
      | inr part ↦ rw part unchanged
    ])
  ]

  advance_remove-Effect : c.kind ≡ remove → Effect s c i l e (advance_release s i l e false).1
  unfolding advance_release
  advance_remove-Effect k = elim (Bool-cases (e.type == released_gpus)) [
    | inr other ↦ rw other unchanged
    | inl right ↦ rw right (elim (Bool-cases (covers e l)) [
      | inl all ↦ rw all (removed k all)
      | inr part ↦ rw part unchanged
    ])
  ]

  advance_new-Effect :
      (k : OperationKind) → c.kind ≡ k → Effect s c i l e (advance_new s c i l e k).1
  unfolding advance_new
  advance_new-Effect restore k = advance_restore-Effect e.type k
  advance_new-Effect add k = advance_add-Effect k
  advance_new-Effect donate k = advance_donate-Effect k
  advance_new-Effect remove k = advance_remove-Effect k

  advance_known-Effect : Effect s c i l e (advance_known s c i l e).1
  unfolding advance_known
  advance_known-Effect = elim (Option-cases (Dict.get s.release_evidence (i, e.operation_id))) [
    | inl new ↦ rw (new, advance_known) (advance_new-Effect c.kind refl)
    | inr (x, known) ↦
        rw (known, advance_known)
          (elim (Bool-cases (x == e)) [
            | inl same ↦ rw same unchanged
            | inr differs ↦ rw differs unchanged
          ])
  ]

-- Evidence keeps `P` if each of its effects does.
pub advance_cases {ℓ} :
    (P : GroupScheduler → Type ℓ) (s : GroupScheduler) (i : String) (e : OperationEvidence)
    → P s
    → ((l : Lease) (c : OperationCommand) (t : GroupScheduler)
        → Dict.get s.leases i ≡ some l
        → Dict.get s.operation_commands e.operation_id ≡ some c
        → c.lease_id ≡ i
        → Effect s c i l e t
        → P t)
    → P (advance_lease s i e).1
unfolding advance_lease
advance_cases P s i e same effect = elim (Option-cases (Dict.get s.leases i)) [
  | inl unknown ↦ rw (unknown, advance_lease) same
  | inr (l, known) ↦
      rw (known, advance_lease)
        (elim (Option-cases (Dict.get s.operation_commands e.operation_id)) [
          | inl unknown ↦ rw (unknown, advance_lease) same
          | inr (c, sent) ↦
              rw (sent, advance_lease)
                (elim (Bool-cases (c.lease_id == i)) [
                  | inr foreign ↦ rw foreign same
                  | inl ours ↦
                      rw ours
                        (effect l c _ known sent (ground arith) (advance_known-Effect s c i l e))
                ])
        ])
]
