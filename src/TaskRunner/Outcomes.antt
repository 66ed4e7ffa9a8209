-- ===== src/TaskRunner/Outcomes.antt =====
-- What stands behind the status that an execution leaves (task_runner.py).
use verl_multi_task.Common.{
  String, ◌≡◌, refl, ◌⊎◌, inl, inr, if◌then◌else◌, err, Result-cases, Bool, true, false, Option,
  none, some, string_key, option_key, arith,
}
use verl_multi_task.Contracts.{
  OperationCommand, OperationEvidence, OperationKind, add, donate, remove, restore,
  operation_status_key, evidence_type_key, service_committed, released_gpus,
  require_operation_evidence,
}
use verl_multi_task.Contracts.Lease.{Lease}
use verl_multi_task.TaskRunner.Lifecycle.{
  Remote, raises, not_bound, SpecError, build_borrowed_spec, succeeds, fails, Failure,
  placement_invalid, exit_rejected, Value, run_add, run_release, run_exit, run_exit_again,
  run_restore, lifecycle_of,
}

-- The evidence that an end of an operation of a kind rests on.
abbrev pub IsProof : OperationKind → String → OperationEvidence → Option OperationEvidence → Type 0
IsProof add o e ack = (e.operation_id ≡ o) × (e.type ≡ service_committed) × (ack ≡ none)
IsProof restore o e ack = (e.operation_id ≡ o) × (e.type ≡ service_committed) × (ack ≡ some e)
IsProof donate o e ack = (e.operation_id ≡ o) × (e.type ≡ released_gpus) × (ack ≡ some e)
IsProof remove o e ack = (e.operation_id ≡ o) × (e.type ≡ released_gpus) × (ack ≡ some e)

run_release-proved :
    (r : Remote) (c : OperationCommand) (v : Value) (e : OperationEvidence)
    (ack : Option OperationEvidence)
    → run_release r c v ≡ (succeeds e, ack)
    → (e.operation_id ≡ c.operation_id) × (e.type ≡ released_gpus) × (ack ≡ some e)
unfolding run_release require_operation_evidence
run_release-proved r c v e ack h = ground arith

run_exit-proved :
    (r : Remote) (c : OperationCommand) (e : OperationEvidence) (ack : Option OperationEvidence)
    → run_exit r c ≡ (succeeds e, ack)
    → (e.operation_id ≡ c.operation_id) × (e.type ≡ released_gpus) × (ack ≡ some e)
unfolding run_exit require_operation_evidence
run_exit-proved r c e ack h = grind (arith, run_release-proved r c)

run_exit_again-proved :
    (r : Remote) (c : OperationCommand) (e : OperationEvidence) (ack : Option OperationEvidence)
    → run_exit_again r c ≡ (succeeds e, ack)
    → (e.operation_id ≡ c.operation_id) × (e.type ≡ released_gpus) × (ack ≡ some e)
unfolding run_exit_again require_operation_evidence
run_exit_again-proved r c e ack h = grind (arith, run_release-proved r c, run_exit-proved r c)

pub lifecycle_of-IsProof :
    (r : Remote) (c : OperationCommand) (lease : Option Lease) (reconciling : Bool)
    (kind : OperationKind) (e : OperationEvidence) (ack : Option OperationEvidence)
    → lifecycle_of r c lease reconciling kind ≡ (succeeds e, ack)
    → IsProof kind c.operation_id e ack
unfolding lifecycle_of require_operation_evidence
lifecycle_of-IsProof r c none reconciling add e ack h = ground arith
lifecycle_of-IsProof r c (some l) reconciling add e ack h = ground arith
lifecycle_of-IsProof r c lease true donate e ack h = run_exit_again-proved r c e ack h
lifecycle_of-IsProof r c lease false donate e ack h = run_exit-proved r c e ack h
lifecycle_of-IsProof r c lease true remove e ack h = run_exit_again-proved r c e ack h
lifecycle_of-IsProof r c lease false remove e ack h = run_exit-proved r c e ack h
lifecycle_of-IsProof r c lease reconciling restore e ack h = ground arith

-- the lease of an ADD gives no placement
abbrev pub Unplaced : OperationCommand → Option Lease → Type 0
Unplaced c lease =
    (l : Lease) × (problem : SpecError) × (lease ≡ some l) × (build_borrowed_spec c l ≡ err problem)

-- an exit was refused, and the rollouter says that it bound no target to the operation
abbrev pub Unbound : Remote → Type 0
Unbound r = (r.prepare_exit ≡ raises) × (r.pending_target ≡ not_bound)

-- What closes an operation as FAILED: nothing was begun, or all that was begun was released and the
-- scheduler acknowledged it.
abbrev pub IsClosed :
    Remote → OperationCommand → Option Lease → Failure → Option OperationEvidence → Type 0
IsClosed r c lease f none =
    (f ≡ placement_invalid) × Unplaced c lease ⊎ (f ≡ exit_rejected) × Unbound r
IsClosed r c lease f (some e) =
    (e.operation_id ≡ c.operation_id)
    × (e.type ≡ released_gpus)
    × ((if r.acknowledged_first then true else r.acknowledged_second) ≡ true)

run_release-fails :
    (r : Remote) (c : OperationCommand) (v : Value) (f : Failure) (ack : Option OperationEvidence)
    → ¬ (run_release r c v ≡ (fails f, ack))
unfolding run_release require_operation_evidence
run_release-fails r c v f ack h = ground arith

run_exit-fails :
    (r : Remote) (c : OperationCommand) (f : Failure) (ack : Option OperationEvidence)
    → run_exit r c ≡ (fails f, ack)
    → (f ≡ exit_rejected) × (ack ≡ none) × Unbound r
unfolding run_exit require_operation_evidence
run_exit-fails r c f ack h = grind (arith, run_release-fails r c)

run_exit_again-fails :
    (r : Remote) (c : OperationCommand) (f : Failure) (ack : Option OperationEvidence)
    → run_exit_again r c ≡ (fails f, ack)
    → (f ≡ exit_rejected) × (ack ≡ none) × Unbound r
unfolding run_exit_again require_operation_evidence
run_exit_again-fails r c f ack h = grind (arith, run_release-fails r c, run_exit-fails r c)

exit-IsClosed :
    (r : Remote) (c : OperationCommand) (lease : Option Lease) (f : Failure)
    (ack : Option OperationEvidence)
    → (f ≡ exit_rejected) × (ack ≡ none) × Unbound r
    → IsClosed r c lease f ack
exit-IsClosed r c lease f none (rejected, quiet, unbound) = inr (rejected, unbound)
exit-IsClosed r c lease f (some e) h = ground arith

run_add-IsClosed :
    (r : Remote) (c : OperationCommand) (lease : Option Lease) (f : Failure)
    (ack : Option OperationEvidence)
    → run_add r c lease ≡ (fails f, ack)
    → IsClosed r c lease f ack
unfolding run_add require_operation_evidence
run_add-IsClosed r c none f ack h = ground arith
run_add-IsClosed r c (some l) f none h = elim (Result-cases (build_borrowed_spec c l)) [
  | inl (problem, invalid) ↦ inl (ground (arith, invalid), (l, problem, refl, invalid))
  | inr (spec, valid) ↦ ground (arith, valid)
]
run_add-IsClosed r c (some l) f (some e) h = ground arith

run_restore-IsClosed :
    (r : Remote) (c : OperationCommand) (lease : Option Lease) (f : Failure)
    (ack : Option OperationEvidence)
    → run_restore r c ≡ (fails f, ack)
    → IsClosed r c lease f ack
unfolding run_restore require_operation_evidence
run_restore-IsClosed r c lease f none h = ground arith
run_restore-IsClosed r c lease f (some e) h = ground arith

pub lifecycle_of-IsClosed :
    (r : Remote) (c : OperationCommand) (lease : Option Lease) (reconciling : Bool)
    (kind : OperationKind) (f : Failure) (ack : Option OperationEvidence)
    → lifecycle_of r c lease reconciling kind ≡ (fails f, ack)
    → IsClosed r c lease f ack
unfolding lifecycle_of
lifecycle_of-IsClosed r c lease reconciling add f ack h = run_add-IsClosed r c lease f ack h
lifecycle_of-IsClosed r c lease true donate f ack h =
    exit-IsClosed r c lease f ack (run_exit_again-fails r c f ack h)
lifecycle_of-IsClosed r c lease false donate f ack h =
    exit-IsClosed r c lease f ack (run_exit-fails r c f ack h)
lifecycle_of-IsClosed r c lease true remove f ack h =
    exit-IsClosed r c lease f ack (run_exit_again-fails r c f ack h)
lifecycle_of-IsClosed r c lease false remove f ack h =
    exit-IsClosed r c lease f ack (run_exit-fails r c f ack h)
lifecycle_of-IsClosed r c lease reconciling restore f ack h = run_restore-IsClosed r c lease f ack h
