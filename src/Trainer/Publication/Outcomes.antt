-- ===== src/Trainer/Publication/Outcomes.antt =====
-- The state that the steps of a transaction leave (trainer.py).
use verl_multi_task.Common.{
  String, ◌≡◌, refl, sym, ap, subst, ◌∙◌, ◌⊎◌, inl, inr, Bool, true, false, Option, none, some,
  List, ok, err, Result-cases, Option-cases, string_key, option_key, arith,
}
use verl_multi_task.Common.Dict
use verl_multi_task.Common.Dict.{Dict}
use verl_multi_task.Contracts.{
  ReplicaKey, replica_key_key, EvidenceType, service_committed, evidence_type_key,
  OperationEvidence,
}
use verl_multi_task.TaskRunner.Lifecycle.{Value, Reply, returns, raises}
use verl_multi_task.CheckpointEngine.{
  Replica, NativeMembers, CheckpointManager, Outcome, remove_effective,
}
use verl_multi_task.CheckpointEngine.Bootstrap.{Remote}
use verl_multi_task.Trainer.{
  TrainerError, Answers, Txn, start, Step, bind, on_manager, on_rollouter, require_evidence,
  answered, mutating, kind_of_member, park, remove_body,
}

-- the state at the end of a step is either as at the start, or marked
abbrev pub Clean : {A : Type 0} → CheckpointManager → Step A → Type 0
Clean m st = (st.1.mutated ≡ true) ⊎ (st.1.manager ≡ m)

abbrev pub Marked : {A : Type 0} → Step A → Type 0
Marked st = st.1.mutated ≡ true

pub bind-Clean :
    {A B : Type 0} (m : CheckpointManager) (st : Step A) (f : A → Txn → Step B)
    → ((problem : TrainerError) → st.0 ≡ err problem → Clean m st)
    → ((value : A) → st.0 ≡ ok value → Clean m (f value st.1))
    → Clean m (bind st f)
bind-Clean m (err problem, s) f failed rest = failed problem refl
bind-Clean m (ok value, s) f failed rest = rest value refl

pub bind-Marked :
    {A B : Type 0} (st : Step A) (f : A → Txn → Step B)
    → Marked st
    → ((value : A) → Marked (f value st.1))
    → Marked (bind st f)
bind-Marked (err problem, s) f marked rest = marked
bind-Marked (ok value, s) f marked rest = rest value

pub on_manager-mutated :
    {A : Type 0} (live : Bool) (s : Txn) (call : CheckpointManager → Outcome A)
    → (on_manager live s call).1.mutated ≡ s.mutated
on_manager-mutated false s call = refl
on_manager-mutated true s call = elim (Result-cases (call s.manager).0) [
  | inl (problem, failed) ↦ ground (arith, failed)
  | inr (value, returned) ↦ ground (arith, returned)
]

pub on_rollouter-mutated :
    (live : Bool) (s : Txn) (reply : Reply) → (on_rollouter live s reply).1 ≡ s
on_rollouter-mutated false s reply = refl
on_rollouter-mutated true s raises = refl
on_rollouter-mutated true s (returns value) = refl

pub require_evidence-state :
    (s : Txn) (value : Value) (op : String) (type : EvidenceType)
    → (require_evidence s value op type).1 ≡ s
unfolding require_evidence
require_evidence-state s value op type = ground arith

park-mutated :
    (live : Bool) (s : Txn) (target : ReplicaKey) (replicas : List Replica) (op : String)
    (is_native : Bool)
    → (park live s target replicas op is_native).1.mutated ≡ s.mutated
park-mutated live s target replicas op true = on_manager-mutated live s _
park-mutated live s target replicas op false = refl

pub answered-state :
    {A : Type 0} (s : Txn) (o : Option A) (problem : TrainerError) → (answered s o problem).1 ≡ s
answered-state s none problem = refl
answered-state s (some value) problem = refl

pub kind_of_member-state :
    (r : Remote) (s : Txn) (replicas : List Replica) → (kind_of_member r s replicas).1 ≡ s
kind_of_member-state r s replicas = ground arith

-- a step that only reads
pub bind-read :
    {A B : Type 0} (m : CheckpointManager) (st : Step A) (s : Txn) (f : A → Txn → Step B)
    → st.1 ≡ s
    → s.manager ≡ m
    → ((value : A) → Clean m (f value s))
    → Clean m (bind st f)
bind-read m (err problem, t) s f same at rest = inr (ap Txn.manager same ∙ at)
bind-read m (ok value, t) s f same at rest =
    subst (λ x. Clean m (f value x)) (sym same) (rest value)

-- a call of the manager that changes nothing when it raises
pub on_manager-Clean :
    {A : Type 0} (live : Bool) (s : Txn) (call : CheckpointManager → Outcome A)
    → (((call s.manager).1 ≡ s.manager) ⊎ ((value : A) × ((call s.manager).0 ≡ ok value)))
    → (problem : TrainerError) → (on_manager live s call).0 ≡ err problem
    → (on_manager live s call).1.manager ≡ s.manager
on_manager-Clean false s call either problem failed = refl
on_manager-Clean true s call (inl same) problem failed = ground (arith, same)
on_manager-Clean true s call (inr (value, returned)) problem failed =
    ground (arith, returned, failed)

remove_effective-raises :
    (n : NativeMembers) (m : CheckpointManager) (key : ReplicaKey)
    → ((remove_effective n m key).1 ≡ m)
      ⊎ ((value : Unit {0}) × ((remove_effective n m key).0 ≡ ok value))
unfolding remove_effective
remove_effective-raises n m key = elim (Option-cases (Dict.get m.effective key)) [
  | inl absent ↦ inr (tt, ground (arith, absent))
  | inr (member, found) ↦ elim (Option-cases (n.remove_replicas m.replicas member.0)) [
    | inl raised ↦ inl (ground (arith, found, raised))
    | inr (receivers, removed) ↦ inr (tt, ground (arith, found, removed))
  ]
]

-- the last steps of a transaction keep the mark
pub commit_service-Marked :
    (live : Bool) (s : Txn) (reply : Reply) (after : Value → Txn → Step OperationEvidence)
    → s.mutated ≡ true
    → ((value : Value) (t : Txn) → t.mutated ≡ true → Marked (after value t))
    → Marked (bind (on_rollouter live s reply) after)
commit_service-Marked live s reply after marked rest =
    let kept : (on_rollouter live s reply).1.mutated ≡ true =
      ap Txn.mutated (on_rollouter-mutated live s reply) ∙ marked in
    bind-Marked (on_rollouter live s reply) after kept (λ value. rest value _ kept)

pub require_evidence-Marked :
    (s : Txn) (value : Value) (op : String) (type : EvidenceType)
    → s.mutated ≡ true
    → Marked (require_evidence s value op type)
require_evidence-Marked s value op type marked =
    ap Txn.mutated (require_evidence-state s value op type) ∙ marked

pub on_manager-Marked :
    {A B : Type 0} (live : Bool) (s : Txn) (call : CheckpointManager → Outcome A)
    (after : A → Txn → Step B)
    → s.mutated ≡ true
    → ((value : A) (t : Txn) → t.mutated ≡ true → Marked (after value t))
    → Marked (bind (on_manager live s call) after)
on_manager-Marked live s call after marked rest =
    let kept : (on_manager live s call).1.mutated ≡ true =
      on_manager-mutated live s call ∙ marked in
    bind-Marked (on_manager live s call) after kept (λ value. rest value _ kept)

pub remove_body-Clean :
    (n : NativeMembers) (live : Bool) (a : Answers) (op : String) (m : CheckpointManager)
    → Clean m (remove_body n live a op (start m))
unfolding remove_body
remove_body-Clean n live a op m =
    bind-read m (answered (start m) a.pending_target _) (start m) _
      (answered-state (start m) a.pending_target _) refl
      (λ target.
        bind-read m (answered (start m) (Dict.get m.effective target) _) (start m) _
          (answered-state (start m) (Dict.get m.effective target) _) refl
          (λ member.
            bind-read m (kind_of_member a.bootstrap (start m) member.0) (start m) _
              (kind_of_member-state a.bootstrap (start m) member.0) refl
              (λ is_native.
                bind-Clean m (on_manager live (start m) (λ x. remove_effective n x target)) _
                  (λ problem failed. inr (
                    on_manager-Clean live (start m) (λ x. remove_effective n x target)
                      (remove_effective-raises n m target) problem failed))
                  (λ _ returned.
                    let s =
                      mutating (on_manager live (start m) (λ x. remove_effective n x target)).1 in
                    inl (
                      bind-Marked (park live s target member.0 op is_native) _
                        (park-mutated live s target member.0 op is_native)
                        (λ _.
                          commit_service-Marked live _ a.commit_service _
                            (park-mutated live s target member.0 op is_native)
                            (λ value t marked.
                              require_evidence-Marked t value op service_committed marked)))))))
