-- ===== src/CheckpointEngine/History.antt =====
-- Histories of calls of the checkpoint manager (checkpoint_engine_manager.py).
pub mod Safety
pub mod Refinement
use verl_multi_task.Common.{
  ℕ, String, ◌≡◌, refl, sym, subst, ◌∙◌, ◌⊎◌, inl, inr, Bool, Option, none, some, List, [], ◌∷◌, ℤ,
  pos, negsuc, Result, ok, err, Result-cases, Bool-cases, Option-cases, nonempty, ◌==◌,
  if◌then◌else◌, nat_key, string_key, arith,
}
use verl_multi_task.Common.Dict
use verl_multi_task.Contracts.{ReplicaKey, replica_key_key, OperationEvidence, weight_ready}
use verl_multi_task.CheckpointEngine.{
  Replica, NativeMembers, CheckpointManager, register_pending, commit_pending, discard_pending,
  add_effective, remove_effective, mark_all_loaded_version,
}
use verl_multi_task.CheckpointEngine.Bootstrap.{
  Remote, Settings, attempt, shared_kind, bootstrap_pending, bootstrap_target,
}
use verl_multi_task.CheckpointEngine.Bootstrap.Outcomes.{attempt-IsReady}

-- a call of a method, with what the remote calls of a bootstrap answer
pub data Call : Type 0 where
  register : (key : ReplicaKey) (replicas : List Replica) (operation_id : String) → Call
  bootstrap : (answers : Remote) (key : ReplicaKey) (operation_id : String) (version : ℤ) → Call
  commit : (key : ReplicaKey) (evidence : OperationEvidence) (version : ℤ) → Call
  discard : (key : ReplicaKey) → Call
  add : (key : ReplicaKey) (replicas : List Replica) (version : ℤ) → Call
  remove : (key : ReplicaKey) → Call
  mark : (version : ℤ) → Call

module _ (n : NativeMembers) (s : Settings) where
  -- the state that a call leaves, whether it returns or raises
  unfoldable pub perform : CheckpointManager → Call → CheckpointManager
  perform m (register key replicas operation_id) = (register_pending m key replicas operation_id).1
  perform m (bootstrap answers key operation_id version) =
      (bootstrap_target s answers m key operation_id version).1
  perform m (commit key evidence version) = (commit_pending n m key evidence version).1
  perform m (discard key) = discard_pending m key
  perform m (add key replicas version) = (add_effective n m key replicas version).1
  perform m (remove key) = (remove_effective n m key).1
  perform m (mark version) = (mark_all_loaded_version m version).1

  unfoldable pub run : CheckpointManager → List Call → CheckpointManager
  unfolding perform
  run m [] = m
  run m (c ∷ calls) = run (perform m c) calls

-- `__init__`, with the receivers that the native manager starts with
unfoldable pub init : List Replica → CheckpointManager
init replicas = record { replicas = replicas; effective = []; pending = []; ready = [] }

-- a receipt was recorded
abbrev pub Confirmed :
    CheckpointManager → ReplicaKey → String → ℕ → OperationEvidence → CheckpointManager → Type 0
Confirmed m key op version e after =
    (e.type ≡ weight_ready)
    × (e.operation_id ≡ op)
    × (after ≡ record m { ready = Dict.put m.ready key (op, (version, e)) })

bootstrap_made :
    (s : Settings) (r : Remote) (m : CheckpointManager) (key : ReplicaKey) (replicas : List Replica)
    (op : String) (version : ℕ) (is_native : Bool) (e : OperationEvidence)
    → shared_kind r replicas ≡ ok is_native
    → attempt s r is_native replicas op version ≡ ok e
    → ((bootstrap_pending s r m key replicas op version).1 ≡ m)
      ⊎ ((bootstrap_pending s r m key replicas op version).1
          ≡ record m { ready = Dict.put m.ready key (op, (version, e)) })
unfolding bootstrap_pending
bootstrap_made s r m key replicas op version is_native e kind made = ground (arith, kind, made)

bootstrap_pending-cases :
    (s : Settings) (r : Remote) (m : CheckpointManager) (key : ReplicaKey) (replicas : List Replica)
    (op : String) (version : ℕ)
    → ((bootstrap_pending s r m key replicas op version).1 ≡ m)
      ⊎ (e : OperationEvidence) × Confirmed m key op version e
          (bootstrap_pending s r m key replicas op version).1
bootstrap_pending-cases s r m key replicas op version =
    elim (Result-cases (shared_kind r replicas)) [
      | inl (problem, mixed) ↦ inl (unfold bootstrap_pending in ground (arith, mixed))
      | inr (is_native, kind) ↦ elim (Result-cases (attempt s r is_native replicas op version)) [
        | inl (f, failed) ↦ inl (unfold bootstrap_pending in ground (arith, kind, failed))
        | inr (e, made) ↦
            let (ready, typed, bound) = attempt-IsReady s r is_native replicas op version e made in
            elim (bootstrap_made s r m key replicas op version is_native e kind made) [
              | inl same ↦ inl same
              | inr changed ↦ inr (e, (typed, bound, changed))
            ]
      ]
    ]

bootstrap_reached :
    (s : Settings) (r : Remote) (m : CheckpointManager) (key : ReplicaKey) (op : String)
    (version : ℕ) (waiting : List Replica × String)
    → Dict.get m.pending key ≡ some waiting
    → ((bootstrap_target s r m key op (pos version)).1 ≡ m)
      ⊎ ((bootstrap_target s r m key op (pos version)).1
          ≡ (bootstrap_pending s r m key waiting.0 op version).1)
unfolding bootstrap_target
bootstrap_reached s r m key op version waiting found = ground (arith, found)

pub bootstrap_target-cases :
    (s : Settings) (r : Remote) (m : CheckpointManager) (key : ReplicaKey) (op : String)
    (version : ℤ)
    → ((bootstrap_target s r m key op version).1 ≡ m)
      ⊎ (loaded : ℕ) × (e : OperationEvidence) × Confirmed m key op loaded e
          (bootstrap_target s r m key op version).1
bootstrap_target-cases s r m key op (negsuc v) = inl (unfold bootstrap_target in ground arith)
bootstrap_target-cases s r m key op (pos version) = elim (Option-cases (Dict.get m.pending key)) [
  | inl absent ↦ inl (unfold bootstrap_target in ground (arith, absent))
  | inr (waiting, found) ↦ elim (bootstrap_pending-cases s r m key waiting.0 op version) [
    | inl same ↦ inl (unfold bootstrap_target in ground (arith, found, same))
    | inr (e, (typed, bound, changed)) ↦
        elim (bootstrap_reached s r m key op version waiting found) [
          | inl same ↦ inl same
          | inr reached ↦ inr (version, e, (typed, bound, reached ∙ changed))
        ]
  ]
]
