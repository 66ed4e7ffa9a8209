-- ===== src/CheckpointEngine/History/Safety.antt =====
-- The membership invariant over histories (checkpoint_engine_manager.py).
use verl_multi_task.Common.{ℕ, String, sym, subst, inl, inr, List, [], ◌∷◌, arith}
use verl_multi_task.Common.Dict
use verl_multi_task.Common.Dict.{get-put}
use verl_multi_task.Contracts.{ReplicaKey, replica_key_key, OperationEvidence}
use verl_multi_task.CheckpointEngine.{Replica, NativeMembers, CheckpointManager}
use verl_multi_task.CheckpointEngine.Bootstrap.{Settings}
use verl_multi_task.CheckpointEngine.Membership.{Inv}
use verl_multi_task.CheckpointEngine.Membership.Preservation.{
  register_pending-Inv, discard-Inv, add_effective-Inv, commit_pending-Inv, remove_effective-Inv,
  mark_all_loaded_version-Inv,
}
use verl_multi_task.CheckpointEngine.History.{
  Call, register, bootstrap, commit, discard, add, remove, mark, perform, run, init, Confirmed,
  bootstrap_target-cases,
}

Confirmed-Inv :
    (m after : CheckpointManager) (key : ReplicaKey) (op : String) (version : ℕ)
    (e : OperationEvidence)
    → Confirmed m key op version e after
    → Inv m
    → Inv after
Confirmed-Inv m after key op version e (typed, bound, changed) v = subst Inv (sym changed) (record {
  unique = v.unique;
  exclusive = v.exclusive;
  receives = v.receives;
  receipts = λ k receipt found.
      ground (arith, v.receipts k receipt, get-put m.ready key k (op, (version, e)), typed, bound);
})

module _ (n : NativeMembers) (s : Settings) where
  pub perform-Inv : (m : CheckpointManager) (c : Call) → Inv m → Inv (perform n s m c)
  unfolding perform
  perform-Inv m (register key replicas op) v = register_pending-Inv m key replicas op v
  perform-Inv m (bootstrap answers key op version) v =
      elim (bootstrap_target-cases s answers m key op version) [
        | inl same ↦ subst Inv (sym same) v
        | inr (loaded, e, confirmed) ↦ Confirmed-Inv m _ key op loaded e confirmed v
      ]
  perform-Inv m (commit key e version) v = commit_pending-Inv n m key e version v
  perform-Inv m (discard key) v = discard-Inv m key v
  perform-Inv m (add key replicas version) v = add_effective-Inv n m key replicas version v
  perform-Inv m (remove key) v = remove_effective-Inv n m key v
  perform-Inv m (mark version) v = mark_all_loaded_version-Inv m version v

  pub run-Inv : (m : CheckpointManager) (calls : List Call) → Inv m → Inv (run n s m calls)
  unfolding run
  run-Inv m [] v = v
  run-Inv m (c ∷ calls) v = run-Inv (perform n s m c) calls (perform-Inv m c v)

pub init-Inv : (replicas : List Replica) → Inv (init replicas)
unfolding init Dict.get
init-Inv replicas = record {
  unique = tt;
  exclusive = λ j k r h i. cc;
  receives = λ k r h. cc;
  receipts = λ k receipt h. cc;
}

-- Whatever calls were made, in whatever order, and whatever their remote parts answered: no runtime
-- stands under two keys, effective or pending, every effective runtime is a native receiver, and every
-- receipt carries WEIGHT_READY evidence of its own operation.
pub run-init-Inv :
    (n : NativeMembers) (s : Settings) (replicas : List Replica) (calls : List Call)
    → Inv (run n s (init replicas) calls)
run-init-Inv n s replicas calls = run-Inv n s (init replicas) calls (init-Inv replicas)
