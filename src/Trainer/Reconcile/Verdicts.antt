-- ===== src/Trainer/Reconcile/Verdicts.antt =====
-- The outcomes of a reconciliation, for the gate and for the membership (trainer.py).
use verl_multi_task.Common.{
  ℕ, ◌+◌, String, ◌≡◌, refl, sym, subst, ap, ◌∙◌, ◌⊎◌, inl, inr, Bool, true, false, Option, none,
  some, List, if◌then◌else◌, is_some, Result, ok, err, Result-cases, string_key, option_key, arith,
}
use verl_multi_task.Common.Dict
use verl_multi_task.Contracts.{
  ReplicaKey, replica_key_key, service_committed, released_gpus, OperationEvidence,
}
use verl_multi_task.TaskRunner.Lifecycle.{Value, none_value, other, evidence}
use verl_multi_task.SyncGate.{
  ReplicaSyncGate, GateOwner, is_healthy, recovery, reconcile_begin, reconcile_end,
}
use verl_multi_task.CheckpointEngine.{
  Replica, NativeMembers, CheckpointManager, remove_effective, register_pending,
}
use verl_multi_task.Trainer.{
  TrainerError, Trainer, Answers, Txn, start, Step, bind, on_manager, require_evidence, park,
}
use verl_multi_task.Trainer.Publication.{is_released}
use verl_multi_task.Trainer.Reconcile.{
  gate_fences, reconcile_served, reconcile_publish_body, reconcile_exit_body, recovered,
  under_recovery, reconcile_blocked_publish, reconcile_blocked_exit,
}
use verl_multi_task.Trainer.Reconcile.Returns.{
  Returns, bind-Returns, Returns-map, require_evidence-Returns, on_rollouter-Returns, if-Returns,
  remove_effective-gone, register_pending-effective, on_manager-state,
}

-- what a reconciled publication proves: the service has the target, or its GPUs are released and it
-- is no receiver
abbrev pub Resolved :
    String → ReplicaKey → CheckpointManager → OperationEvidence → CheckpointManager → Type 0
Resolved op target before e after =
    (e.operation_id ≡ op)
    × ((e.type ≡ service_committed) × (after ≡ before)
        ⊎ (e.type ≡ released_gpus) × (Dict.get after.effective target ≡ none))

module _ (n : NativeMembers) (a : Answers) (target : ReplicaKey) (replicas : List Replica)
    (restore_native : Bool) (op : String) where
  on_remove-gone :
      (s : Txn)
      → (value : Unit {0}) → (on_manager true s (λ m. remove_effective n m target)).0 ≡ ok value
      → Dict.get (on_manager true s (λ m. remove_effective n m target)).1.manager.effective target
        ≡ none
  on_remove-gone s tt returned = elim (Result-cases (remove_effective n s.manager target).0) [
    | inl (problem, failed) ↦ ground (arith, failed, returned)
    | inr (tt, done) ↦ ground (arith, done, remove_effective-gone n s.manager target done)
  ]

  park-gone :
      (s : Txn) (is_native : Bool)
      → Dict.get s.manager.effective target ≡ none
      → Dict.get (park true s target replicas op is_native).1.manager.effective target ≡ none
  park-gone s false gone = gone
  park-gone s true gone =
      ap (λ m. Dict.get m.effective target)
        (on_manager-state s (λ m. register_pending m target replicas op))
      ∙ ap (λ d. Dict.get d target) (register_pending-effective s.manager target replicas op)
      ∙ gone

  -- what a reconciliation that found the manager m returns
  abbrev Verdict : CheckpointManager → OperationEvidence → Txn → Type 0
  Verdict m e t = Resolved op target m e t.manager

  after_remove :
      (m : CheckpointManager) (s : Txn) (f : Unit {0} → Txn → Step OperationEvidence)
      → ((t : Txn) → Dict.get t.manager.effective target ≡ none → Returns (Verdict m) (f tt t))
      → Returns (Verdict m) (bind (on_manager true s (λ m. remove_effective n m target)) f)
  after_remove m s f rest =
      bind-Returns (Verdict m) (on_manager true s (λ m. remove_effective n m target)) f
        (λ value removed. rest _ (on_remove-gone s value removed))

  released-Resolved :
      (m : CheckpointManager) (s : Txn) (value : Value)
      → Dict.get s.manager.effective target ≡ none
      → Returns (Verdict m) (require_evidence s value op released_gpus)
  released-Resolved m s value gone =
      require_evidence-Returns (Verdict m) s value op released_gpus
        (λ e own expected. (own, inr (expected, gone)))

  served-Resolved :
      (s : Txn) (value : Value)
      → Returns (Verdict s.manager) (require_evidence s value op service_committed)
  served-Resolved s value =
      require_evidence-Returns (Verdict s.manager) s value op service_committed
        (λ e own expected. (own, inl (expected, refl)))

  reconcile_served-Resolved :
      (s : Txn) (value : Value)
      → Returns (Verdict s.manager) (reconcile_served n a target replicas restore_native op value s)
  unfolding reconcile_served
  reconcile_served-Resolved s none_value = after_remove s.manager s _ (λ t gone.
      bind-Returns (Verdict s.manager) (park true t target replicas op restore_native) _ (λ _ _.
        on_rollouter-Returns (Verdict s.manager) _ a.finalize_release _
          (λ value. released-Resolved s.manager _ value (park-gone t restore_native gone))))
  reconcile_served-Resolved s other = served-Resolved s other
  reconcile_served-Resolved s (evidence x) =
      if-Returns (Verdict s.manager) (is_released (evidence x)) _ _
        (after_remove s.manager s _ (λ t gone. released-Resolved s.manager t (evidence x) gone))
        (served-Resolved s (evidence x))

  reconcile_publish_body-Resolved :
      (s : Txn)
      → Returns (Verdict s.manager) (reconcile_publish_body n a target replicas restore_native op s)
  unfolding reconcile_publish_body
  reconcile_publish_body-Resolved s =
      on_rollouter-Returns (Verdict s.manager) s a.commit_service _ (reconcile_served-Resolved s)

-- What a reconciliation under an operation may end as: it raised and the gate is still blocked by the
-- operation, there was nothing to reconcile, or the gate is open again and the evidence satisfies P.
abbrev pub Reconciled :
    String
    → (OperationEvidence → CheckpointManager → Type 0)
    → Trainer
    → Result TrainerError (Option OperationEvidence) × Trainer
    → Type 0
Reconciled op P t (err problem, after) = gate_fences after.gate op ≡ true
Reconciled op P t (ok none, after) = after ≡ t
Reconciled op P t (ok (some e), after) = (is_healthy after.gate ≡ true) × P e after.manager

-- the gate while the callback runs
abbrev in_recovery : ReplicaSyncGate → String → ℕ → ReplicaSyncGate
in_recovery g op now = (reconcile_begin g op now).1

begin_fenced :
    (g : ReplicaSyncGate) (op : String) (now : ℕ)
    → gate_fences g op ≡ true
    → ((owner : GateOwner) × ((reconcile_begin g op now).0 ≡ ok (some owner)))
      × (gate_fences (in_recovery g op now) op ≡ true)
unfolding gate_fences reconcile_begin
begin_fenced g op now fences = (
  (
    record { operation_id = op; kind = recovery; epoch = g.epoch + 1; acquired_at = now },
    ground (arith, fences),
  ),
  ground (arith, fences),
)

module _ (op : String) (P : OperationEvidence → CheckpointManager → Type 0) (t : Trainer) where
  recovered-Reconciled :
      (g : ReplicaSyncGate) (st : Step OperationEvidence)
      → gate_fences g op ≡ true
      → Returns (λ e s. P e s.manager) st
      → Reconciled op P t (recovered t g st)
  unfolding recovered reconcile_end Returns gate_fences
  recovered-Reconciled g (err problem, s) fences proved = fences
  recovered-Reconciled g (ok e, s) fences proved = (refl, proved e refl)

  granted :
      (now : ℕ) (body : Txn → Step OperationEvidence) (owner : GateOwner)
      → (reconcile_begin t.gate op now).0 ≡ ok (some owner)
      → under_recovery t op now body
        ≡ recovered t (in_recovery t.gate op now) (body (start t.manager))
  unfolding under_recovery
  granted now body owner begun = ground (arith, begun)

  under_recovery-Reconciled :
      (now : ℕ) (body : Txn → Step OperationEvidence)
      → gate_fences t.gate op ≡ true
      → Returns (λ e s. P e s.manager) (body (start t.manager))
      → Reconciled op P t (under_recovery t op now body)
  unfolding under_recovery
  under_recovery-Reconciled now body fences proved =
      let ((owner, begun), fenced) = begin_fenced t.gate op now fences in
      subst (Reconciled op P t) (sym (granted now body owner begun))
        (recovered-Reconciled (in_recovery t.gate op now) (body (start t.manager)) fenced proved)

reconcile_exit_body-Returns :
    (a : Answers) (op : String) (m : CheckpointManager)
    → Returns
        (λ e s. (e.operation_id ≡ op) × (e.type ≡ service_committed) × (s.manager ≡ m))
        (reconcile_exit_body a op (start m))
unfolding reconcile_exit_body
reconcile_exit_body-Returns a op m =
    on_rollouter-Returns
      (λ e s. (e.operation_id ≡ op) × (e.type ≡ service_committed) × (s.manager ≡ m)) (start m)
      a.commit_service _
      (λ value.
        require_evidence-Returns
          (λ e s. (e.operation_id ≡ op) × (e.type ≡ service_committed) × (s.manager ≡ m)) (start m)
          value op service_committed (λ e own expected. (own, expected, refl)))

-- a property of every branch of a test
by_test :
    {X : Type 0} (R : X → Type 0) (test : Bool) (x y : X)
    → (test ≡ true → R x)
    → (test ≡ false → R y)
    → R (if test then x else y)
by_test R true x y holds fails = holds refl
by_test R false x y holds fails = fails refl

by_option :
    {A X : Type 0} (R : X → Type 0) (o : Option A) (x : X) (f : A → X)
    → (o ≡ none → R x)
    → ((value : A) → o ≡ some value → R (f value))
    → R (elim o [ none ↦ x | some value ↦ f value ])
by_option R none x f absent found = absent refl
by_option R (some value) x f absent found = found value refl

-- Every reconciliation either leaves the gate blocked by the operation, or had nothing to do, or opens
-- the gate again. A publication then has evidence that the target serves, with unchanged membership, or
-- that it was released and is no receiver; an exit has evidence that the service dropped the target.
pub reconciliation_is_proved :
    (n : NativeMembers) (t : Trainer) (op : String) (now : ℕ) (a : Answers) (restore_native : Bool)
    → Reconciled op
        (λ e m.
          (target : ReplicaKey) × (a.pending_target ≡ some target)
          × Resolved op target t.manager e m)
        t
        (reconcile_blocked_publish n t op now a restore_native)
      × Reconciled op
          (λ e m. (e.operation_id ≡ op) × (e.type ≡ service_committed) × (m ≡ t.manager))
          t
          (reconcile_blocked_exit t op now a)
unfolding reconcile_blocked_publish reconcile_blocked_exit
reconciliation_is_proved n t op now a restore_native = (
  by_test (Reconciled op Published t) (gate_fences t.gate op) _ _
      (λ fences.
        by_option (Reconciled op Published t) a.pending_target _ _ (λ _. fences)
          (λ target pending.
            by_option (Reconciled op Published t) (Dict.get t.manager.effective target) _ _
              (λ _. refl)
              (λ member _.
                under_recovery-Reconciled op Published t now
                  (reconcile_publish_body n a target member.0 restore_native op) fences
                  (Returns-map _ _ _ (λ e s resolved. (target, pending, resolved))
                    (reconcile_publish_body-Resolved n a target member.0 restore_native op
                      (start t.manager))))))
      (λ _. refl),
  by_test (Reconciled op Exited t) (gate_fences t.gate op) _ _
      (λ fences.
        by_option (Reconciled op Exited t) a.pending_target _ _ (λ _. fences)
          (λ target _.
            by_test (Reconciled op Exited t) (is_some (Dict.get t.manager.effective target)) _ _
              (λ _. refl)
              (λ _.
                under_recovery-Reconciled op Exited t now (reconcile_exit_body a op) fences
                  (reconcile_exit_body-Returns a op t.manager))))
      (λ _. refl),
)
  where
    Published : OperationEvidence → CheckpointManager → Type 0
    Published e m =
        (target : ReplicaKey) × (a.pending_target ≡ some target) × Resolved op target t.manager e m

    Exited : OperationEvidence → CheckpointManager → Type 0
    Exited e m = (e.operation_id ≡ op) × (e.type ≡ service_committed) × (m ≡ t.manager)
