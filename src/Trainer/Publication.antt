-- ===== src/Trainer/Publication.antt =====
-- ADD and RESTORE: first weights, membership, and then the route; and the native synchronization
-- (trainer.py).
pub mod Outcomes
pub mod Fencing
use verl_multi_task.Common.{
  ℕ, String, ◌≡◌, Bool, true, false, Option, none, some, List, [], ◌∷◌, ◌++◌, ◌==◌, pos,
  if◌then◌else◌, is_nil, is_some, Result, ok, err, string_key, option_key,
}
use verl_multi_task.Common.Dict
use verl_multi_task.Common.Dict.{Dict}
use verl_multi_task.Contracts.{
  ReplicaKey, replica_key_key, EvidenceType, weight_ready, service_committed, released_gpus,
  evidence_type_key, OperationEvidence,
}
use verl_multi_task.TaskRunner.Lifecycle.{Value, none_value, other, evidence}
use verl_multi_task.SyncGate.{ReplicaSyncGate, GateOwner, is_active, block, release}
use verl_multi_task.CheckpointEngine.{
  Replica, NativeMembers, CheckpointManager, register_pending, commit_pending, remove_effective,
  mark_all_loaded_version,
}
use verl_multi_task.CheckpointEngine.Bootstrap.{Remote, Settings, bootstrap_target, audit}
use verl_multi_task.Trainer.{
  TrainerError, no_target, no_runtime, wrong_kind, unverified_cleanup, not_parked, native_failed,
  manager_error, Trainer, Answers, Txn, start, Step, bind, on_manager, forget, on_rollouter,
  require_evidence, answered, mutating, kind_of_member, close,
}

abbrev pub is_released : Value → Bool
is_released (evidence e) = e.type == released_gpus
is_released value = false

abbrev pub registered : Txn → Txn
registered s = record s { pending_registered = true }

abbrev pub committed : Bool → Txn → Txn
committed b s = record s { e_committed = b }

abbrev pub demand : Bool → Txn → TrainerError → Step (Unit {0})
demand true s problem = (ok tt, s)
demand false s problem = (err problem, s)

module _ (n : NativeMembers) (c : Settings) where
  -- `bootstrap_target`, and the evidence that it must be
  abbrev pub bootstrapped : Bool → Answers → ReplicaKey → String → ℕ → Txn → Step Value
  bootstrapped live a target operation_id version s =
      bind
        (on_manager live s
          (λ m. bootstrap_target c a.bootstrap m target operation_id (pos version)))
        (λ e s. (ok (evidence e), s))

  -- what follows the answer of `commit_service_change` to an ADD
  unfoldable pub add_served :
      Bool → Answers → ReplicaKey → String → Value → Txn → Step OperationEvidence
  unfolding require_evidence
  add_served live a target operation_id none_value s =
      bind (on_manager live s (λ m. remove_effective n m target)) (λ _ s.
        bind (on_rollouter live s a.finalize_release) (λ value s.
          bind (require_evidence s value operation_id released_gpus)
            (λ e s. (ok e, committed false s))))
  add_served live a target operation_id value s =
      if is_released value
      then bind (require_evidence s value operation_id released_gpus) (λ e s.
        bind (on_manager live s (λ m. remove_effective n m target))
          (λ _ s. (ok e, committed false s)))
      else require_evidence s value operation_id service_committed

  -- the `try` block of `bootstrap_and_publish`
  unfoldable pub add_body : Bool → Answers → String → ℕ → Txn → Step OperationEvidence
  unfolding add_served require_evidence
  add_body live a operation_id version s = bind (answered s a.pending_target no_target) (λ target s.
      bind (answered s a.pending_replicas no_runtime) (λ replicas s.
        bind (demand (if is_nil replicas then false else true) s no_runtime) (λ _ s.
          bind (kind_of_member a.bootstrap s replicas) (λ is_native s.
            bind (demand (if is_native then false else true) s wrong_kind) (λ _ s.
              bind (on_manager live s (λ m. register_pending m target replicas operation_id))
                (λ _ s.
                  bind (bootstrapped live a target operation_id version (registered s)) (λ value s.
                    bind (require_evidence s value operation_id weight_ready) (λ e s.
                      bind (on_manager live s (λ m. commit_pending n m target e (pos version)))
                        (λ _ s.
                          bind (on_rollouter live (committed true s) a.commit_service)
                            (λ value s. add_served live a target operation_id value s))))))))))

  -- what follows the answer of `commit_service_change` to a RESTORE
  unfoldable pub restore_served :
      Bool → Answers → ReplicaKey → List Replica → String → Value → Txn → Step OperationEvidence
  unfolding require_evidence
  restore_served live a target replicas operation_id none_value s =
      bind (on_manager live s (λ m. remove_effective n m target)) (λ _ s.
        bind (on_manager live s (λ m. register_pending m target replicas operation_id)) (λ _ s.
          bind (on_rollouter live s a.finalize_release)
            (λ value s. require_evidence s value operation_id released_gpus)))
  restore_served live a target replicas operation_id value s =
      require_evidence s value operation_id service_committed

  -- what follows the first weights of a RESTORE
  unfoldable pub restore_ready :
      Bool → Answers → ReplicaKey → List Replica → String → ℕ → Value → Txn → Step OperationEvidence
  unfolding restore_served require_evidence
  restore_ready live a target replicas operation_id version value s =
      if is_released value
      then require_evidence s value operation_id released_gpus
      else bind (require_evidence s value operation_id weight_ready) (λ e s.
        bind (on_manager live s (λ m. commit_pending n m target e (pos version))) (λ _ s.
          bind (on_rollouter live s a.commit_service)
            (λ value s. restore_served live a target replicas operation_id value s)))

  -- the `try` block of `restore_and_publish`
  unfoldable pub restore_body : Bool → Answers → String → ℕ → Txn → Step OperationEvidence
  unfolding restore_ready
  restore_body live a operation_id version s =
      bind (answered s a.pending_target no_target) (λ target s.
        bind (answered s (Dict.get s.manager.pending target) not_parked) (λ parked s.
          bind (kind_of_member a.bootstrap s parked.0) (λ is_native s.
            bind (demand is_native s wrong_kind) (λ _ s.
              bind (on_manager live s (λ m. forget m target)) (λ _ s.
                bind
                  (on_manager live (mutating s)
                    (λ m. register_pending m target parked.0 operation_id))
                  (λ _ s. bind (bootstrapped live a target operation_id version s) (λ value s.
                    restore_ready live a target parked.0 operation_id version value s)))))))

-- a failed ADD that never became effective: forget the target, and have its runtime released
unfoldable pub add_undone : Bool → Answers → String → Txn → Step OperationEvidence
unfolding require_evidence
add_undone live a operation_id s =
    let forgotten : Step (Unit {0}) =
      if s.pending_registered
      then elim a.pending_target [
        | none ↦ (ok tt, s)
        | some target ↦ on_manager live s (λ m. forget m target)
      ]
      else (ok tt, s) in
    let freed =
      bind (on_rollouter live forgotten.1 a.finalize_release)
        (λ value s. require_evidence s value operation_id released_gpus) in
    elim forgotten.0 [ err _ ↦ (err unverified_cleanup, freed.1) | ok _ ↦ freed ]

-- the end of a transaction that raises and leaves the gate blocked
abbrev pub blocked :
    Trainer
    → GateOwner
    → String
    → TrainerError
    → Txn
    → Result TrainerError OperationEvidence × Trainer
blocked t owner reason problem s = (
  err problem,
  record t { manager = s.manager; gate = (release (block t.gate owner reason).1 owner).1 },
)

abbrev pub ended :
    Trainer → GateOwner → OperationEvidence → Txn → Result TrainerError OperationEvidence × Trainer
ended t owner e s = (ok e, record t { manager = s.manager; gate = (release t.gate owner).1 })

-- the `except` and `finally` blocks of `bootstrap_and_publish`
unfoldable pub close_add :
    Trainer
    → GateOwner
    → Answers
    → Step OperationEvidence
    → Result TrainerError OperationEvidence × Trainer
unfolding add_undone
close_add t owner a (ok e, s) = ended t owner e s
close_add t owner a (err problem, s) =
    if s.e_committed
    then blocked t owner "ADD publish outcome unknown" problem s
    else (let (call, after) = add_undone (is_active t.gate owner) a owner.operation_id s in
        elim call [
          | err _ ↦ blocked t owner "ADD rollback outcome unknown" unverified_cleanup after
          | ok e ↦ ended t owner e after
        ])

-- `bootstrap_and_publish`, for an operation that does not block the gate
unfoldable pub bootstrap_and_publish :
    NativeMembers
    → Settings
    → Trainer
    → GateOwner
    → Answers
    → Result TrainerError OperationEvidence × Trainer
unfolding add_body close_add
bootstrap_and_publish n c t owner a = close_add t owner a (
    add_body n c (is_active t.gate owner) a owner.operation_id t.current_param_version
      (start t.manager))

-- `restore_and_publish`, for an operation that does not block the gate
unfoldable pub restore_and_publish :
    NativeMembers
    → Settings
    → Trainer
    → GateOwner
    → Answers
    → Result TrainerError OperationEvidence × Trainer
unfolding restore_body close
restore_and_publish n c t owner a = close t owner "RESTORE outcome unknown" (
    restore_body n c (is_active t.gate owner) a owner.operation_id t.current_param_version
      (start t.manager))

-- the native trainer's `_fit_update_weights`: it raised, it returned None, or it returned metrics
pub data NativeSync : Type 0 where
  sync_raises sync_nothing sync_metrics : NativeSync

abbrev pub runtimes : Dict ReplicaKey (List Replica × ℕ) → List Replica
runtimes [] = []
runtimes ((key, (replicas, version)) ∷ rest) = replicas ++ runtimes rest

-- the audit, and the record of the published version
unfoldable pub record_version : Settings → Remote → ℕ → Txn → Step (Unit {0})
record_version c r version s = elim (audit c r (runtimes s.manager.effective) version) [
  | err problem ↦ (err (manager_error problem), s)
  | ok _ ↦ on_manager true s (λ m. mark_all_loaded_version m (pos version))
]

-- the `try` block of `_fit_update_weights`
unfoldable pub sync_body : Settings → Remote → NativeSync → Bool → ℕ → Txn → Step Bool
unfolding record_version
sync_body c r native false version s = (err native_failed, s)
sync_body c r sync_raises true version s = (err native_failed, s)
sync_body c r sync_nothing true version s = (ok false, s)
sync_body c r sync_metrics true version s =
    bind (record_version c r version s) (λ _ s. (ok true, s))

-- `_fit_update_weights` while it holds the gate; `ok true` when it published the version
unfoldable pub fit_update_weights :
    Settings → Remote → NativeSync → Trainer → GateOwner → Result TrainerError Bool × Trainer
unfolding sync_body
fit_update_weights c r native t owner =
    let (call, s) =
      sync_body c r native (is_active t.gate owner) t.current_param_version (start t.manager) in
    elim call [
      | err problem ↦ (
        err problem,
        record t {
          manager = s.manager;
          gate = (release (block t.gate owner "Native synchronization outcome unknown").1 owner).1;
        },
      )
      | ok published ↦
          (ok published, record t { manager = s.manager; gate = (release t.gate owner).1 })
    ]
