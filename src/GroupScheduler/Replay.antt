-- ===== src/GroupScheduler/Replay.antt =====
-- Errors and replays at the scheduler (group_scheduler.py).
use verl_multi_task.Common.{
  String, ◌≡◌, inl, inr, true, some, ◌==◌, ok, err, nat_key, string_key, pair_key, option_key,
  arith, Bool-cases, Option-cases,
}
use verl_multi_task.Common.Dict
use verl_multi_task.Contracts.{
  OperationCommand, OperationEvidence, OperationKind, EvidenceType, add, donate, remove, restore,
  released_gpus, service_committed, weight_ready, exit_ready, operation_evidence_key,
  evidence_type_key,
}
use verl_multi_task.Contracts.Lease.{Lease}
use verl_multi_task.Contracts.Lease.Normal.{IsLease, detach-IsLease}
use verl_multi_task.GroupScheduler.{GroupScheduler, SchedulerError}
use verl_multi_task.GroupScheduler.Leases.{open_lease, open_new, record_lease, lease_key}
use verl_multi_task.GroupScheduler.Advance.{
  Progress, replayed, advance_restore, advance_add, advance_release, advance_new, advance_known,
  advance_lease, free_claims,
}

module _ (s t : GroupScheduler) (c : OperationCommand) (i : String) (l : Lease)
    (e : OperationEvidence) where
  restore_error :
      (type : EvidenceType) (x : SchedulerError) → advance_restore s i l e type ≡ (err x, t) → t ≡ s
  unfolding advance_restore
  restore_error weight_ready x h = ground arith
  restore_error exit_ready x h = ground arith
  restore_error service_committed x h = ground arith
  restore_error released_gpus x h = ground arith

  new_error :
      (k : OperationKind) (x : SchedulerError) → advance_new s c i l e k ≡ (err x, t) → t ≡ s
  unfolding advance_new advance_add advance_release
  new_error restore x h = restore_error e.type x h
  new_error add x h = ground arith
  new_error donate x h = ground arith
  new_error remove x h = ground arith

-- Evidence that is refused, whatever the reason, leaves the scheduler as it was.
pub advance_error_unchanged :
    (s t : GroupScheduler) (i : String) (e : OperationEvidence) (x : SchedulerError)
    → advance_lease s i e ≡ (err x, t)
    → t ≡ s
unfolding advance_lease advance_known
advance_error_unchanged s t i e x h = elim (Option-cases (Dict.get s.leases i)) [
  | inl unknown ↦ ground arith
  | inr (l, known) ↦ elim (Option-cases (Dict.get s.operation_commands e.operation_id)) [
    | inl unknown ↦ ground arith
    | inr (c, sent) ↦ ground (arith, new_error s t c i l e c.kind x)
  ]
]

-- What a successful progression leaves for its own replay.
record Done (s t : GroupScheduler) (i : String) (e : OperationEvidence) : Type 0 where
  leases : t.leases ≡ s.leases
  commands : t.operation_commands ≡ s.operation_commands
  evidence : Dict.get t.release_evidence (i, e.operation_id) ≡ some e

module _ (s t : GroupScheduler) (c : OperationCommand) (i : String) (l : Lease)
    (e : OperationEvidence) where
  restore-Done :
      (type : EvidenceType) (p : Progress)
      → advance_restore s i l e type ≡ (ok p, t)
      → Done s t i e × (replayed restore type ≡ ok p)
  unfolding advance_restore replayed free_claims
  restore-Done weight_ready p h = ground arith
  restore-Done exit_ready p h = ground arith
  restore-Done service_committed p h =
      ground (arith, Dict.get-put s.release_evidence (i, e.operation_id) (i, e.operation_id) e)
  restore-Done released_gpus p h =
      ground (arith, Dict.get-put s.release_evidence (i, e.operation_id) (i, e.operation_id) e)

  new-Done :
      (k : OperationKind) (p : Progress)
      → advance_new s c i l e k ≡ (ok p, t)
      → Done s t i e × (replayed k e.type ≡ ok p)
  unfolding advance_new advance_add advance_release replayed free_claims
  new-Done restore p h = restore-Done e.type p h
  new-Done add p h =
      ground (arith, Dict.get-put s.release_evidence (i, e.operation_id) (i, e.operation_id) e)
  new-Done donate p h =
      ground (arith, Dict.get-put s.release_evidence (i, e.operation_id) (i, e.operation_id) e)
  new-Done remove p h =
      ground (arith, Dict.get-put s.release_evidence (i, e.operation_id) (i, e.operation_id) e)

  known-Done :
      (p : Progress)
      → advance_known s c i l e ≡ (ok p, t)
      → Done s t i e × (replayed c.kind e.type ≡ ok p)
  unfolding advance_known
  known-Done p h = elim (Option-cases (Dict.get s.release_evidence (i, e.operation_id))) [
    | inl new ↦ new-Done c.kind p (ground arith)
    | inr (x, known) ↦ ground arith
  ]

  replay-Done :
      (p : Progress)
      → Dict.get s.leases i ≡ some l
      → Dict.get s.operation_commands e.operation_id ≡ some c
      → (c.lease_id == i) ≡ true
      → Done s t i e
      → replayed c.kind e.type ≡ ok p
      → advance_lease t i e ≡ (ok p, t)
  unfolding advance_lease advance_known
  replay-Done p known sent ours done answer = ground arith

-- Evidence may be delivered again: after it was accepted, the same evidence gets the same answer and
-- changes nothing, whichever operation it completes or rolls back.
pub advance_replay :
    (s t : GroupScheduler) (i : String) (e : OperationEvidence) (p : Progress)
    → advance_lease s i e ≡ (ok p, t)
    → advance_lease t i e ≡ (ok p, t)
unfolding advance_lease
advance_replay s t i e p h = elim (Option-cases (Dict.get s.leases i)) [
  | inl unknown ↦ absurd (ground arith)
  | inr (l, known) ↦ elim (Option-cases (Dict.get s.operation_commands e.operation_id)) [
    | inl unknown ↦ absurd (ground arith)
    | inr (c, sent) ↦ elim (Bool-cases (c.lease_id == i)) [
      | inr foreign ↦ absurd (ground arith)
      | inl ours ↦
          let (done, answer) = known-Done s t c i l e p (ground arith) in
          replay-Done s t c i l e p known sent ours done answer
    ]
  ]
]

-- After `open_lease` of a valid lease returned, the lease is the one stored under its id, and
-- the same call returns it again and changes nothing.
open_replay :
    (s t : GroupScheduler) (l m : Lease)
    → IsLease l
    → open_lease s l ≡ (ok m, t)
    → (m ≡ l) × (Dict.get t.leases l.lease_id ≡ some l) × (open_lease t l ≡ (ok m, t))
unfolding open_lease open_new record_lease
open_replay s t l m valid h = elim (Option-cases (Dict.get s.leases l.lease_id)) [
  | inl new ↦ ground (arith, detach-IsLease l valid, Dict.get-put s.leases l.lease_id l.lease_id l)
  | inr (x, known) ↦ ground (arith, detach-IsLease l valid)
]

-- A call of `open_lease` with a valid lease that raises leaves the scheduler as it was.
pub open_error_unchanged :
    (s t : GroupScheduler) (l : Lease) (x : SchedulerError)
    → IsLease l
    → open_lease s l ≡ (err x, t)
    → t ≡ s
unfolding open_lease open_new
open_error_unchanged s t l x valid h = ground (arith, detach-IsLease l valid)
