-- ===== src/TaskRunner/Lifecycle.antt =====
-- The body of `_execute_operation` of task_runner.py between its first and its last access to the
-- journal: which remote calls are made, and what their answers lead to.
use verl_multi_task.Common.{
  ℕ, suc, String, Bool, true, Option, none, some, List, [], ◌∷◌, ◌==◌, if◌then◌else◌, Result, ok,
  err, ◌>>◌, require, string_key,
}
use verl_multi_task.Contracts.{
  OperationCommand, OperationEvidence, OperationKind, operation_kind_key, add, donate, remove,
  restore, EvidenceType, evidence_type_key, released_gpus, exit_ready, service_committed,
  require_operation_evidence,
}
use verl_multi_task.Contracts.Lease.{Lease, Claim, claims}

-- What a remote call returns: evidence, None, or anything else.
pub data Value : Type 0 where
  none_value other : Value
  evidence : OperationEvidence → Value

pub data Reply : Type 0 where
  returns : Value → Reply
  raises : Reply

-- `get_pending_target`: it returned, it raised KeyError, or it raised anything else
pub data Pending : Type 0 where
  bound not_bound inconclusive : Pending

-- The answers of the rollouter, the trainer and the scheduler to one execution; a call that is not
-- made leaves its answer unused. `publish` is `bootstrap_and_publish` or `restore_and_publish`.
pub record Remote : Type 0 where
  pub prepare_replica : Reply
  pub publish : Reply
  pub query_release : Reply
  pub reconcile_exit : Reply
  pub prepare_exit : Reply
  pub pending_target : Pending
  pub remove_and_commit : Reply
  pub finalize_release : Reply
  -- whether the scheduler acknowledged the two attempts of `_advance_lease`
  pub acknowledged_first : Bool
  pub acknowledged_second : Bool

pub data Failure : Type 0 where
  placement_invalid prepare_released bootstrap_released restore_released exit_rejected : Failure

-- How the body ends: `_finish` with SUCCEEDED or FAILED, or an exception.
pub data Verdict : Type 0 where
  succeeds : OperationEvidence → Verdict
  fails : Failure → Verdict
  aborts : Verdict

-- the verdict, and the evidence whose `advance_lease` was acknowledged
abbrev pub Run : Type 0
Run = Verdict × Option OperationEvidence

abbrev pub aborted : Run
aborted = (aborts, none)

pub data SpecError : Type 0 where
  not_add foreign_lease : SpecError

pub record RankedClaim : Type 0 where
  pub claim : Claim
  pub rank : ℕ
  pub node_rank : ℕ
  pub local_rank : ℕ

pub record BorrowedSpec : Type 0 where
  pub operation_id : String
  pub lease_id : String
  pub borrower_task_id : String
  pub borrower_replica_id : String
  pub claims : List RankedClaim
  pub expires_at : ℕ
  pub placement_epoch : ℕ

-- `enumerate(lease.claims)`
unfoldable pub ranked : ℕ → List Claim → List RankedClaim
ranked rank [] = []
ranked rank (c ∷ cs) =
    (record { claim = c; rank = rank; node_rank = 0; local_rank = rank }) ∷ ranked (suc rank) cs

unfoldable pub build_borrowed_spec : OperationCommand → Lease → Result SpecError BorrowedSpec
unfolding ranked
build_borrowed_spec c l = do
  require (c.kind == add) not_add
  require (l.lease_id == c.lease_id) foreign_lease
  ok (record {
    operation_id = c.operation_id;
    lease_id = l.lease_id;
    borrower_task_id = c.target.task_session;
    borrower_replica_id = c.target.replica_id;
    claims = ranked 0 (claims l);
    expires_at = l.expires_at;
    placement_epoch = c.target.runtime_epoch;
  })

-- `_advance_lease`, and the end that follows it
unfoldable pub advance : Remote → OperationEvidence → Verdict → Run
advance r e verdict =
    if (if r.acknowledged_first then true else r.acknowledged_second)
    then (verdict, some e)
    else aborted

-- `isinstance(value, OperationEvidence)`
abbrev pub as_evidence : Value → Option OperationEvidence
as_evidence (evidence e) = some e
as_evidence _ = none

unfoldable pub answer : Reply → (Value → Run) → Run
answer raises after = aborted
answer (returns v) after = after v

-- `_require_evidence`
unfoldable pub expect : Value → OperationCommand → EvidenceType → (OperationEvidence → Run) → Run
expect v c type after = elim (require_operation_evidence (as_evidence v) c.operation_id type) [
  | err _ ↦ aborted
  | ok e ↦ after e
]

-- `if self._finish_failed_release(...): return`, and the code after it
unfoldable pub failed_release : Remote → OperationCommand → Value → Failure → Run → Run
unfolding advance expect
failed_release r c (evidence e) failure after =
    if e.type == released_gpus
    then expect (evidence e) c released_gpus (λ x. advance r x (fails failure))
    else after
failed_release r c _ failure after = after

unfoldable pub run_add : Remote → OperationCommand → Option Lease → Run
unfolding build_borrowed_spec answer expect failed_release
run_add r c none = aborted
run_add r c (some l) = elim (build_borrowed_spec c l) [
  | err _ ↦ (fails placement_invalid, none)
  | ok _ ↦ answer r.prepare_replica (λ p. failed_release r c p prepare_released (
      answer r.publish (λ v.
        failed_release r c v bootstrap_released
          (expect v c service_committed (λ e. (succeeds e, none))))))
]

-- from the evidence that the service was committed on
unfoldable pub run_release : Remote → OperationCommand → Value → Run
unfolding advance answer expect
run_release r c v =
    expect v c service_committed (λ s.
      answer r.finalize_release (λ f. expect f c released_gpus (λ e. advance r e (succeeds e))))

unfoldable pub run_exit : Remote → OperationCommand → Run
unfolding answer expect run_release
run_exit r c = elim r.prepare_exit [
  | raises ↦ elim r.pending_target [
    | bound ↦ aborted
    | not_bound ↦ (fails exit_rejected, none)
    | inconclusive ↦ aborted
  ]
  | returns x ↦ expect x c exit_ready (λ e. answer r.remove_and_commit (λ s. run_release r c s))
]

-- an operation that was UNKNOWN asks first what its owners know
unfoldable pub run_exit_again : Remote → OperationCommand → Run
unfolding advance answer expect run_release run_exit
run_exit_again r c = answer r.query_release (λ prior. elim prior [
  | none_value ↦ answer r.reconcile_exit (λ s. elim s [
    | none_value ↦ run_exit r c
    | other ↦ run_release r c other
    | evidence e ↦ run_release r c (evidence e)
  ])
  | other ↦ expect other c released_gpus (λ e. advance r e (succeeds e))
  | evidence p ↦ expect (evidence p) c released_gpus (λ e. advance r e (succeeds e))
])

unfoldable pub run_restore : Remote → OperationCommand → Run
unfolding advance answer expect failed_release
run_restore r c = answer r.prepare_replica (λ p. answer r.publish (λ v.
    failed_release r c v restore_released
      (expect v c service_committed (λ e. advance r e (succeeds e)))))

unfoldable pub lifecycle_of : Remote → OperationCommand → Option Lease → Bool → OperationKind → Run
unfolding run_add run_exit run_exit_again run_restore
lifecycle_of r c lease reconciling add = run_add r c lease
lifecycle_of r c lease reconciling donate = if reconciling then run_exit_again r c else run_exit r c
lifecycle_of r c lease reconciling remove = if reconciling then run_exit_again r c else run_exit r c
lifecycle_of r c lease reconciling restore = run_restore r c

unfoldable pub lifecycle : Remote → OperationCommand → Option Lease → Bool → Run
unfolding lifecycle_of
lifecycle r c lease reconciling = lifecycle_of r c lease reconciling c.kind
