-- ===== src/Trainer/Publication/Fencing.antt =====
-- The gate after a transaction of the trainer that raised (trainer.py).
use verl_multi_task.Common.{
  ℕ, String, ◌≡◌, refl, ap, ◌⊎◌, inl, inr, Bool, true, false, Option, none, some, List,
  if◌then◌else◌, nonempty, Result, ok, err, Result-cases, string_key, option_key, String-discrete,
  arith, some-injective,
}
use verl_multi_task.Common.Dict
use verl_multi_task.Contracts.{
  ReplicaKey, replica_key_key, weight_ready, service_committed, released_gpus, OperationEvidence,
}
use verl_multi_task.TaskRunner.Lifecycle.{Value, none_value, other, evidence}
use verl_multi_task.SyncGate.{ReplicaSyncGate, GateOwner, is_active, is_healthy, block, release}
use verl_multi_task.CheckpointEngine.{Replica, NativeMembers, CheckpointManager}
use verl_multi_task.CheckpointEngine.Bootstrap.{Remote, Settings}
use verl_multi_task.Trainer.{
  TrainerError, Trainer, Answers, Txn, start, Step, on_manager, forget, require_evidence, answered,
  mutating, kind_of_member, close, remove_and_commit,
}
use verl_multi_task.Trainer.Publication.{
  is_released, demand, bootstrapped, restore_served, restore_ready, restore_body, add_body,
  add_undone, close_add, bootstrap_and_publish, restore_and_publish, NativeSync, sync_body,
  fit_update_weights,
}
use verl_multi_task.Trainer.Publication.Outcomes.{
  Clean, Marked, bind-Clean, bind-Marked, bind-read, answered-state, kind_of_member-state,
  on_manager-Clean, on_manager-Marked, require_evidence-Marked, commit_service-Marked,
  remove_body-Clean,
}

demand-state : (test : Bool) (s : Txn) (problem : TrainerError) → (demand test s problem).1 ≡ s
demand-state true s problem = refl
demand-state false s problem = refl

if-Marked :
    (test : Bool) (x y : Step OperationEvidence)
    → Marked x
    → Marked y
    → Marked (if test then x else y)
if-Marked true x y marked also = marked
if-Marked false x y marked also = also

module _ (n : NativeMembers) (c : Settings) (live : Bool) (a : Answers) (op : String) where
  restore_served-Marked :
      (target : ReplicaKey) (replicas : List Replica) (value : Value) (s : Txn)
      → s.mutated ≡ true
      → Marked (restore_served n c live a target replicas op value s)
  unfolding restore_served
  restore_served-Marked target replicas none_value s marked =
      on_manager-Marked live s _ _ marked (λ _ t kept.
        on_manager-Marked live t _ _ kept (λ _ u also.
          commit_service-Marked live u a.finalize_release _ also
            (λ v w last. require_evidence-Marked w v op released_gpus last)))
  restore_served-Marked target replicas other s marked =
      require_evidence-Marked s other op service_committed marked
  restore_served-Marked target replicas (evidence e) s marked =
      require_evidence-Marked s (evidence e) op service_committed marked

  restore_ready-Marked :
      (target : ReplicaKey) (replicas : List Replica) (version : ℕ) (value : Value) (s : Txn)
      → s.mutated ≡ true
      → Marked (restore_ready n c live a target replicas op version value s)
  unfolding restore_ready
  restore_ready-Marked target replicas version value s marked =
      if-Marked (is_released value) _ _ (require_evidence-Marked s value op released_gpus marked) (
        bind-Marked (require_evidence s value op weight_ready) _
          (require_evidence-Marked s value op weight_ready marked)
          (λ e.
            on_manager-Marked live _ _ _ (require_evidence-Marked s value op weight_ready marked)
              (λ _ t kept.
                commit_service-Marked live t a.commit_service _ kept
                  (λ v u also. restore_served-Marked target replicas v u also))))

  bootstrapped-Marked :
      (target : ReplicaKey) (version : ℕ) (s : Txn)
      → s.mutated ≡ true
      → Marked (bootstrapped n c live a target op version s)
  bootstrapped-Marked target version s marked =
      on_manager-Marked live s _ _ marked (λ _ t kept. kept)

  pub restore_body-Clean :
      (version : ℕ) (m : CheckpointManager) → Clean m (restore_body n c live a op version (start m))
  unfolding restore_body
  restore_body-Clean version m =
      bind-read m (answered (start m) a.pending_target _) (start m) _
        (answered-state (start m) a.pending_target _) refl
        (λ target.
          bind-read m (answered (start m) (Dict.get m.pending target) _) (start m) _
            (answered-state (start m) (Dict.get m.pending target) _) refl
            (λ parked.
              bind-read m (kind_of_member a.bootstrap (start m) parked.0) (start m) _
                (kind_of_member-state a.bootstrap (start m) parked.0) refl
                (λ is_native.
                  bind-read m (demand is_native (start m) _) (start m) _
                    (demand-state is_native (start m) _) refl
                    (λ _.
                      bind-Clean m (on_manager live (start m) (λ x. forget x target)) _
                        (λ problem failed. inr (
                          on_manager-Clean live (start m) (λ x. forget x target) (inr (tt, refl))
                            problem failed))
                        (λ _ returned. inl (
                          on_manager-Marked live
                            (mutating (on_manager live (start m) (λ x. forget x target)).1) _ _ refl
                            (λ _ s kept.
                              bind-Marked (bootstrapped n c live a target op version s) _
                                (bootstrapped-Marked target version s kept)
                                (λ value.
                                  restore_ready-Marked target parked.0 version value _
                                    (bootstrapped-Marked target version s kept)))))))))

-- The gate is blocked by an operation: it is not healthy, so that no one else is granted it.
abbrev pub Blocked : ReplicaSyncGate → String → Type 0
Blocked g op = (is_healthy g ≡ false) × (g.blocked_operation_id ≡ some op)

-- nothing changed, or the gate is blocked by the operation of its owner
abbrev pub Fenced : Trainer → GateOwner → Trainer → Type 0
Fenced t owner after = Blocked after.gate owner.operation_id ⊎ (after.manager ≡ t.manager)

block-release :
    (g : ReplicaSyncGate) (o : GateOwner) (reason : String)
    → is_active g o ≡ true
    → nonempty reason ≡ true
    → Blocked (release (block g o reason).1 o).1 o.operation_id
unfolding block release is_active
block-release g o reason live filled = (ground (arith, live, filled), ground (arith, live, filled))

close-Fenced :
    (t : Trainer) (owner : GateOwner) (reason : String) (st : Step OperationEvidence)
    (problem : TrainerError)
    → is_active t.gate owner ≡ true
    → nonempty reason ≡ true
    → Clean t.manager st
    → (close t owner reason st).0 ≡ err problem
    → Fenced t owner (close t owner reason st).1
unfolding close
close-Fenced t owner reason (ok e, s) problem live filled clean raised = cc
close-Fenced t owner reason (err p, s) problem live filled (inr same) raised = inr same
close-Fenced t owner reason (err p, s) problem live filled (inl marked) raised =
    inl (ground (arith, marked, block-release t.gate owner reason live filled))

close_add-Fenced :
    (t : Trainer) (owner : GateOwner) (a : Answers) (st : Step OperationEvidence)
    (problem : TrainerError)
    → is_active t.gate owner ≡ true
    → (close_add t owner a st).0 ≡ err problem
    → Blocked (close_add t owner a st).1.gate owner.operation_id
unfolding close_add String-discrete
close_add-Fenced t owner a (ok e, s) problem live raised = cc
close_add-Fenced t owner a (err p, s) problem live raised =
    elim (Result-cases (add_undone (is_active t.gate owner) a owner.operation_id s).0) [
      | inl (stuck, failed) ↦ ground (
        arith,
        failed,
        block-release t.gate owner "ADD publish outcome unknown" live refl,
        block-release t.gate owner "ADD rollback outcome unknown" live refl,
      )
      | inr (e, undone) ↦ ground (
        arith,
        raised,
        undone,
        block-release t.gate owner "ADD publish outcome unknown" live refl,
      )
    ]

fit_update_weights-blocks :
    (c : Settings) (r : Remote) (native : NativeSync) (t : Trainer) (owner : GateOwner)
    (problem : TrainerError)
    → is_active t.gate owner ≡ true
    → (fit_update_weights c r native t owner).0 ≡ err problem
    → Blocked (fit_update_weights c r native t owner).1.gate owner.operation_id
unfolding fit_update_weights String-discrete
fit_update_weights-blocks c r native t owner problem live raised =
    elim (Result-cases
      (sync_body c r native (is_active t.gate owner) t.current_param_version (start t.manager)).0) [
        | inl (p, failed) ↦ ground (
          arith,
          failed,
          block-release t.gate owner "Native synchronization outcome unknown" live refl,
        )
        | inr (published, done) ↦ ground (arith, raised, done)
      ]

-- the transactions that change the receivers of the weights or their versions
pub data Transaction : Type 0 where
  exits adds restores : Transaction
  synchronizes : NativeSync → Transaction

abbrev pub raised : {A : Type 0} → Result TrainerError A → Option TrainerError
raised (ok value) = none
raised (err problem) = some problem

raised-err :
    {A : Type 0} (r : Result TrainerError A) (problem : TrainerError)
    → raised r ≡ some problem
    → r ≡ err problem
raised-err (err p) problem failed = ap err (some-injective _ _ failed)
raised-err (ok value) problem failed = cc

module _ (n : NativeMembers) (c : Settings) (t : Trainer) (owner : GateOwner) (a : Answers) where
  abbrev pub perform : Transaction → Option TrainerError × Trainer
  perform exits = let (r, after) = remove_and_commit n t owner a in (raised r, after)
  perform adds = let (r, after) = bootstrap_and_publish n c t owner a in (raised r, after)
  perform restores = let (r, after) = restore_and_publish n c t owner a in (raised r, after)
  perform (synchronizes native) =
      let (r, after) = fit_update_weights c a.bootstrap native t owner in (raised r, after)

-- the transactions that may raise before their first change, without a block
abbrev pub reads_first : Transaction → Bool
reads_first exits = true
reads_first restores = true
reads_first call = false

-- While its owner holds the gate, a transaction that raises leaves the gate BLOCKED by its operation,
-- or it is an exit or a RESTORE and leaves the manager as it found it.
pub raised_is_fenced :
    (n : NativeMembers) (c : Settings) (t : Trainer) (owner : GateOwner) (a : Answers)
    (call : Transaction) (problem : TrainerError)
    → is_active t.gate owner ≡ true
    → (perform n c t owner a call).0 ≡ some problem
    → Blocked (perform n c t owner a call).1.gate owner.operation_id
      ⊎ (reads_first call ≡ true) × ((perform n c t owner a call).1.manager ≡ t.manager)
unfolding remove_and_commit restore_and_publish bootstrap_and_publish String-discrete
raised_is_fenced n c t owner a exits problem live failed =
    elim (close-Fenced t owner _ _ problem live refl
      (remove_body-Clean n (is_active t.gate owner) a owner.operation_id t.manager)
      (raised-err _ problem failed)) [ inl fenced ↦ inl fenced | inr same ↦ inr (refl, same) ]
raised_is_fenced n c t owner a restores problem live failed =
    elim (close-Fenced t owner _ _ problem live refl
      (restore_body-Clean n c (is_active t.gate owner) a owner.operation_id t.current_param_version
        t.manager)
      (raised-err _ problem failed)) [ inl fenced ↦ inl fenced | inr same ↦ inr (refl, same) ]
raised_is_fenced n c t owner a adds problem live failed = inl (
    close_add-Fenced t owner a
      (add_body n c (is_active t.gate owner) a owner.operation_id t.current_param_version
        (start t.manager))
      problem live (raised-err _ problem failed))
raised_is_fenced n c t owner a (synchronizes native) problem live failed = inl (
    fit_update_weights-blocks c a.bootstrap native t owner problem live
      (raised-err _ problem failed))
