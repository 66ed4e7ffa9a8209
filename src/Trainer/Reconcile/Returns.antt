-- ===== src/Trainer/Reconcile/Returns.antt =====
-- What the steps of a reconciliation return (trainer.py).
use verl_multi_task.Common.{
  String, ◌≡◌, refl, sym, subst, inl, inr, Bool, true, false, none, List, if◌then◌else◌, ok, err,
  Result-cases, Option-cases, string_key, option_key, arith,
}
use verl_multi_task.Common.Dict
use verl_multi_task.Contracts.{
  ReplicaKey, replica_key_key, EvidenceType, OperationEvidence, require_operation_evidence,
}
use verl_multi_task.TaskRunner.Lifecycle.{
  Value, none_value, other, evidence, Reply, returns, raises,
}
use verl_multi_task.CheckpointEngine.{
  Replica, NativeMembers, CheckpointManager, Outcome, remove_effective, register_pending,
  register_checked, discard_pending,
}
use verl_multi_task.Trainer.{Txn, Step, bind, on_manager, on_rollouter, require_evidence}
use verl_multi_task.Trainer.Publication.Outcomes.{require_evidence-state}

-- what holds of the value and the state of a step that returns
unfoldable pub Returns : {A : Type 0} → (A → Txn → Type 0) → Step A → Type 0
Returns P st = (value : _) → st.0 ≡ ok value → P value st.1

pub bind-Returns :
    {A B : Type 0} (P : B → Txn → Type 0) (st : Step A) (f : A → Txn → Step B)
    → ((value : A) → st.0 ≡ ok value → Returns P (f value st.1))
    → Returns P (bind st f)
unfolding Returns
bind-Returns P (err problem, s) f rest value returned = cc
bind-Returns P (ok x, s) f rest value returned = rest x refl value returned

pub Returns-map :
    {A : Type 0} (P Q : A → Txn → Type 0) (st : Step A)
    → ((value : A) (s : Txn) → P value s → Q value s)
    → Returns P st
    → Returns Q st
unfolding Returns
Returns-map P Q st implies proved value returned = implies value st.1 (proved value returned)

require_evidence-facts :
    (s : Txn) (value : Value) (op : String) (type : EvidenceType) (e : OperationEvidence)
    → (require_evidence s value op type).0 ≡ ok e
    → (e.operation_id ≡ op) × (e.type ≡ type)
unfolding require_evidence require_operation_evidence
require_evidence-facts s (evidence x) op type e returned = ground (arith, returned)
require_evidence-facts s none_value op type e returned = cc
require_evidence-facts s other op type e returned = cc

pub require_evidence-Returns :
    (P : OperationEvidence → Txn → Type 0) (s : Txn) (value : Value) (op : String)
    (type : EvidenceType)
    → ((e : OperationEvidence) → e.operation_id ≡ op → e.type ≡ type → P e s)
    → Returns P (require_evidence s value op type)
unfolding Returns
require_evidence-Returns P s value op type rest e returned =
    let (own, expected) = require_evidence-facts s value op type e returned in
    subst (P e) (sym (require_evidence-state s value op type)) (rest e own expected)

pub on_rollouter-Returns :
    {B : Type 0} (P : B → Txn → Type 0) (s : Txn) (reply : Reply) (f : Value → Txn → Step B)
    → ((value : Value) → Returns P (f value s))
    → Returns P (bind (on_rollouter true s reply) f)
unfolding Returns
on_rollouter-Returns P s raises f rest value returned = cc
on_rollouter-Returns P s (returns x) f rest value returned = rest x value returned

pub if-Returns :
    {A : Type 0} (P : A → Txn → Type 0) (test : Bool) (x y : Step A)
    → Returns P x
    → Returns P y
    → Returns P (if test then x else y)
if-Returns P true x y one two = one
if-Returns P false x y one two = two

pub remove_effective-gone :
    (n : NativeMembers) (m : CheckpointManager) (key : ReplicaKey)
    → (remove_effective n m key).0 ≡ ok tt
    → Dict.get (remove_effective n m key).1.effective key ≡ none
unfolding remove_effective discard_pending
remove_effective-gone n m key returned = elim (Option-cases (Dict.get m.effective key)) [
  | inl absent ↦ ground (arith, absent)
  | inr (member, found) ↦ elim (Option-cases (n.remove_replicas m.replicas member.0)) [
    | inl raised ↦ ground (arith, found, raised, returned)
    | inr (receivers, native) ↦ ground (arith, found, native, Dict.get-remove m.effective key key)
  ]
]

pub register_pending-effective :
    (m : CheckpointManager) (key : ReplicaKey) (replicas : List Replica) (op : String)
    → (register_pending m key replicas op).1.effective ≡ m.effective
unfolding register_pending register_checked
register_pending-effective m key replicas op = ground arith

pub on_manager-state :
    {A : Type 0} (s : Txn) (call : CheckpointManager → Outcome A)
    → (on_manager true s call).1.manager ≡ (call s.manager).1
on_manager-state s call = elim (Result-cases (call s.manager).0) [
  | inl (problem, failed) ↦ ground (arith, failed)
  | inr (value, returned) ↦ ground (arith, returned)
]
