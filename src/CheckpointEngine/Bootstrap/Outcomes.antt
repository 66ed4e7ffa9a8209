-- ===== src/CheckpointEngine/Bootstrap/Outcomes.antt =====
-- The outcomes of a bootstrap (checkpoint_engine_manager.py).
use verl_multi_task.Common.{
  ℕ, String, ◌≡◌, refl, subst, ◌∙◌, ap, ◌≢◌, inl, inr, Bool, true, false, ◌&&◌, Option, none, some,
  List, [], ◌∷◌, if◌then◌else◌, nonempty, is_nil, elem, distinct, ok, err, Result-cases,
  Option-cases, nat_key, string_key, option_key, arith,
}
use verl_multi_task.Common.Dict
use verl_multi_task.Contracts.{
  ReplicaKey, replica_key_key, weight_ready, released_gpus, OperationEvidence,
  released_without_gpu_uuids, evidence_now, operation_evidence,
}
use verl_multi_task.CheckpointEngine.{Replica, CheckpointManager, cleanup_unverified, bad_evidence}
use verl_multi_task.CheckpointEngine.Bootstrap.{
  Remote, Settings, Failure, distinct_ids, wake_weights, all_report, audit, attempt, compensate,
  shared_kind, bootstrap_pending,
}

distinct_ids-seen :
    (seen : List String) (ids : List (Option String)) (id : String)
    → elem id seen ≡ true
    → elem id (distinct_ids seen ids) ≡ false
unfolding distinct_ids
distinct_ids-seen seen [] id mem = refl
distinct_ids-seen seen (none ∷ ids) id mem = distinct_ids-seen seen ids id mem
distinct_ids-seen seen (some x ∷ ids) id mem =
    ground (arith, distinct_ids-seen seen ids id, distinct_ids-seen (x ∷ seen) ids id)

distinct_ids-distinct :
    (seen : List String) (ids : List (Option String)) → distinct (distinct_ids seen ids) ≡ true
unfolding distinct_ids
distinct_ids-distinct seen [] = refl
distinct_ids-distinct seen (none ∷ ids) = distinct_ids-distinct seen ids
distinct_ids-distinct seen (some x ∷ ids) = ground (
  arith,
  distinct_ids-distinct seen ids,
  distinct_ids-distinct (x ∷ seen) ids,
  distinct_ids-seen (x ∷ seen) ids x,
)

distinct_ids-nonempty :
    (seen : List String) (ids : List (Option String)) → elem "" (distinct_ids seen ids) ≡ false
unfolding distinct_ids
distinct_ids-nonempty seen [] = refl
distinct_ids-nonempty seen (none ∷ ids) = distinct_ids-nonempty seen ids
distinct_ids-nonempty seen (some x ∷ ids) =
    ground (arith, distinct_ids-nonempty seen ids, distinct_ids-nonempty (x ∷ seen) ids)

-- ids that evidence may carry
abbrev AreIds : List String → Type 0
AreIds gpus = (distinct gpus ≡ true) × (elem "" gpus ≡ false)

wake_weights-AreIds :
    (r : Remote)
    → ((f : Failure) → wake_weights r ≡ err f → AreIds f.gpu_uuids)
      × ((gpus : List String) → wake_weights r ≡ ok gpus → AreIds gpus)
unfolding wake_weights
wake_weights-AreIds r = elim (Option-cases r.placements) [
  | inl missing ↦
      (λ f failed. ground (arith, failed, missing), λ gpus woken. ground (arith, woken, missing))
  | inr (ids, given) ↦ (
    λ f failed.
        ground (arith, failed, given, distinct_ids-distinct [] ids, distinct_ids-nonempty [] ids),
    λ gpus woken.
        ground (arith, woken, given, distinct_ids-distinct [] ids, distinct_ids-nonempty [] ids),
  )
]

attempt-AreIds :
    (s : Settings) (r : Remote) (is_native : Bool) (replicas : List Replica) (op : String)
    (version : ℕ) (f : Failure)
    → attempt s r is_native replicas op version ≡ err f
    → AreIds f.gpu_uuids
unfolding attempt
attempt-AreIds s r true replicas op version f failed = elim (Result-cases (wake_weights r)) [
  | inl (g, asleep) ↦ ground (arith, failed, asleep, (wake_weights-AreIds r).0 g asleep)
  | inr (gpus, woken) ↦ ground (arith, failed, woken, (wake_weights-AreIds r).1 gpus woken)
]
attempt-AreIds s r false replicas op version f failed = ground (arith, failed)

-- the collective of a failed attempt is closed
abbrev pub is_closed : Remote → Failure → Bool
is_closed r f =
    if f.topology_started then (if f.finalized then true else r.finalized_late) else true

-- A failed attempt on a native target ends in one of three ways. Without proof that the collective is
-- closed and the target asleep again, the clean-up is unverified. With it, the result is RELEASED
-- evidence of the target's GPU ids, except that an attempt that failed before it knew any GPU id
-- raises, since RELEASED evidence cannot be made without one.
pub native_failure :
    (s : Settings) (r : Remote) (replicas : List Replica) (op : String) (version : ℕ) (f : Failure)
    → nonempty op ≡ true
    → attempt s r true replicas op version ≡ err f
    → compensate r true op f ≡ (
        if is_closed r f && r.slept
        then (if is_nil f.gpu_uuids
            then err (bad_evidence released_without_gpu_uuids)
            else ok (record {
              operation_id = op;
              type = released_gpus;
              timestamp = r.failed_at;
              released_gpu_uuids = f.gpu_uuids;
            }))
        else err cleanup_unverified)
unfolding compensate evidence_now operation_evidence
native_failure s r replicas op version f named failed =
    ground (arith, attempt-AreIds s r true replicas op version f failed)

-- the remote calls that a confirmed bootstrap made
pub record IsReady (s : Settings) (r : Remote) (replicas : List Replica) (version : ℕ)
    : Type 0 where
  pub transferred : r.transferred ≡ true
  pub closed : r.finalized ≡ true
  pub resumed : r.kv_resumed ≡ true
  pub health : List (Option ℕ)
  pub answered : r.health ≡ some health
  pub confirmed : all_report version health ≡ true
  pub audited : audit s r replicas version ≡ ok tt

-- an attempt that returned: what every call of it answered
attempt-eq-ok :
    (s : Settings) (r : Remote) (is_native : Bool) (replicas : List Replica) (op : String)
    (version : ℕ) (e : OperationEvidence) (health : List (Option ℕ))
    → r.health ≡ some health
    → attempt s r is_native replicas op version ≡ ok e
    → (r.transferred ≡ true)
      × (r.finalized ≡ true)
      × (r.kv_resumed ≡ true)
      × (all_report version health ≡ true)
      × (audit s r replicas version ≡ ok tt)
      × (e.type ≡ weight_ready)
      × (e.operation_id ≡ op)
unfolding attempt evidence_now operation_evidence
attempt-eq-ok s r true replicas op version e health answered made =
    elim (Result-cases (wake_weights r)) [
      | inl (g, asleep) ↦ ground (arith, made, asleep)
      | inr (gpus, woken) ↦ elim (Result-cases (audit s r replicas version)) [
        | inl (problem, failed) ↦ ground (arith, made, woken, answered, failed)
        | inr (done, audited) ↦ ground (arith, made, woken, answered, audited)
      ]
    ]
attempt-eq-ok s r false replicas op version e health answered made =
    elim (Result-cases (audit s r replicas version)) [
      | inl (problem, failed) ↦ ground (arith, made, answered, failed)
      | inr (done, audited) ↦ ground (arith, made, answered, audited)
    ]

attempt-health :
    (s : Settings) (r : Remote) (is_native : Bool) (replicas : List Replica) (op : String)
    (version : ℕ) (e : OperationEvidence)
    → attempt s r is_native replicas op version ≡ ok e
    → r.health ≢ none
unfolding attempt
attempt-health s r is_native replicas op version e made silent = ground (arith, made, silent)

pub attempt-IsReady :
    (s : Settings) (r : Remote) (is_native : Bool) (replicas : List Replica) (op : String)
    (version : ℕ) (e : OperationEvidence)
    → attempt s r is_native replicas op version ≡ ok e
    → IsReady s r replicas version × (e.type ≡ weight_ready) × (e.operation_id ≡ op)
attempt-IsReady s r is_native replicas op version e made = elim (Option-cases r.health) [
  | inl silent ↦ absurd (attempt-health s r is_native replicas op version e made silent)
  | inr (health, answered) ↦
      let (transferred, closed, resumed, confirmed, audited, typed, bound) =
        attempt-eq-ok s r is_native replicas op version e health answered made in
      (
        record {
          transferred = transferred;
          closed = closed;
          resumed = resumed;
          health = health;
          answered = answered;
          confirmed = confirmed;
          audited = audited;
        },
        typed,
        bound,
      )
]

-- the target was ready for the version, or the failed attempt was undone
pub data Ending (s : Settings) (r : Remote) (m : CheckpointManager) (key : ReplicaKey)
    (replicas : List Replica) (op : String) (version : ℕ)
    : OperationEvidence → CheckpointManager → Type 0 where
  is_ready :
      (e : OperationEvidence)
      → e.type ≡ weight_ready
      → e.operation_id ≡ op
      → IsReady s r replicas version
      → Ending s r m key replicas op version e
          (record m { ready = Dict.put m.ready key (op, (version, e)) })
  is_undone :
      (e : OperationEvidence)
      → e.type ≡ released_gpus
      → shared_kind r replicas ≡ ok true
      → r.slept ≡ true
      → Ending s r m key replicas op version e m

compensate-undone :
    (r : Remote) (is_native : Bool) (op : String) (f : Failure) (e : OperationEvidence)
    → compensate r is_native op f ≡ ok e
    → (is_native ≡ true) × (e.type ≡ released_gpus) × (r.slept ≡ true)
unfolding compensate evidence_now operation_evidence
compensate-undone r true op f e undone = ground (arith, undone)
compensate-undone r false op f e undone = ground (arith, undone)

-- A bootstrap of a waiting target that returns evidence either confirmed the target (the weights were
-- transferred, the collective closed, the cache resumed, every server reported the version, and the
-- audit passed where it is on) and recorded exactly this receipt, or changed nothing, and then
-- the target is native, asleep again, and the evidence says RELEASED.
pub bootstrap-Ending :
    (s : Settings) (r : Remote) (m after : CheckpointManager) (key : ReplicaKey)
    (replicas : List Replica) (op : String) (version : ℕ) (e : OperationEvidence)
    → bootstrap_pending s r m key replicas op version ≡ (ok e, after)
    → Ending s r m key replicas op version e after
unfolding bootstrap_pending
bootstrap-Ending s r m after key replicas op version e returned =
    elim (Result-cases (shared_kind r replicas)) [
      | inl (problem, mixed) ↦ ground (arith, returned, mixed)
      | inr (is_native, kind) ↦ elim (Result-cases (attempt s r is_native replicas op version)) [
        | inr (x, made) ↦
            let (ready, typed, bound) = attempt-IsReady s r is_native replicas op version x made in
            let same : ◌≡◌ {A = OperationEvidence × CheckpointManager}
                (x, record m { ready = Dict.put m.ready key (op, (version, x)) }) (e, after) =
              ground (arith, returned, kind, made) in
            subst (λ p. Ending s r m key replicas op version p.0 p.1) same
              (is_ready x typed bound ready)
        | inl (f, failed) ↦ elim (Result-cases (compensate r is_native op f)) [
          | inl (problem, stuck) ↦ ground (arith, returned, kind, failed, stuck)
          | inr (x, undone) ↦
              let (native, typed, slept) = compensate-undone r is_native op f x undone in
              let same : ◌≡◌ {A = OperationEvidence × CheckpointManager} (x, m) (e, after) =
                ground (arith, returned, kind, failed, undone) in
              subst (λ p. Ending s r m key replicas op version p.0 p.1) same
                (is_undone x typed (kind ∙ ap ok native) slept)
        ]
      ]
    ]
