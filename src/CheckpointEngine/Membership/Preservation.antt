-- ===== src/CheckpointEngine/Membership/Preservation.antt =====
-- The membership invariant, call by call (checkpoint_engine_manager.py).
use verl_multi_task.Common.{
  ℕ, String, ◌≡◌, refl, sym, subst, inl, inr, false, none, some, List, [], ◌∷◌, ℤ, pos, negsuc,
  if◌then◌else◌, elem, nat_key, string_key, option_key, list_key, pair_key, arith,
}
use verl_multi_task.Common.Dict
use verl_multi_task.Common.Dict.{Dict, get-put, get-remove}
use verl_multi_task.Common.Dict.Counting.{Unique, put-Unique, remove-Unique}
use verl_multi_task.Contracts.{ReplicaKey, replica_key_key, OperationEvidence}
use verl_multi_task.CheckpointEngine.{
  Replica, NativeMembers, CheckpointManager, missing, register_pending, discard_pending,
  add_effective, commit_pending, remove_effective, with_version, mark_all_loaded_version,
}
use verl_multi_task.CheckpointEngine.Membership.{
  member_of, Inv, validated, Parked, Joined, Committed, register_pending-cases, add_effective-cases,
  commit_pending-cases, remove_effective-cases,
}

missing-elem :
    (receivers replicas : List Replica) (r : Replica)
    → elem r (missing receivers replicas) ≡ (if elem r receivers then false else elem r replicas)
missing-elem receivers [] r = ground arith
missing-elem receivers (x ∷ replicas) r = ground (arith, missing-elem receivers replicas r)

Parked-Inv :
    (m after : CheckpointManager) (key : ReplicaKey) (replicas : List Replica) (op : String)
    → Parked m key replicas op after
    → Inv m
    → Inv after
Parked-Inv m after key replicas op (valid, free, apart, parked) v = subst Inv (sym parked) (record {
  unique = v.unique;
  exclusive = λ j k r at_j at_k. ground (
    arith,
    v.exclusive j k r,
    validated m key j replicas r valid,
    validated m key k replicas r valid,
    get-put m.pending key j (replicas, op),
    get-put m.pending key k (replicas, op),
  );
  receives = v.receives;
  receipts = v.receipts;
})

Joined-Inv :
    (n : NativeMembers) (m after : CheckpointManager) (key : ReplicaKey) (replicas : List Replica)
    (version : ℕ) (receivers : List Replica)
    → Joined n m key replicas version receivers after
    → Inv m
    → Inv after
Joined-Inv n m after key replicas version receivers (valid, native, consistent, joined) v =
    subst Inv (sym joined) (record {
      unique = put-Unique m.effective key (replicas, version) v.unique;
      exclusive = λ j k r at_j at_k. ground (
        arith,
        v.exclusive j k r,
        validated m key j replicas r valid,
        validated m key k replicas r valid,
        get-put m.effective key j (replicas, version),
        get-put m.effective key k (replicas, version),
      );
      receives = λ k r mem. ground (
        arith,
        v.receives k r,
        get-put m.effective key k (replicas, version),
        n.elem-add m.replicas (missing m.replicas replicas) receivers r native,
        missing-elem m.replicas replicas r,
      );
      receipts = v.receipts;
    })

pub discard-Inv : (m : CheckpointManager) (key : ReplicaKey) → Inv m → Inv (discard_pending m key)
unfolding discard_pending
discard-Inv m key v = record {
  unique = v.unique;
  exclusive = λ j k r at_j at_k.
      ground (arith, v.exclusive j k r, get-remove m.pending key j, get-remove m.pending key k);
  receives = v.receives;
  receipts = λ k receipt found. ground (arith, v.receipts k receipt, get-remove m.ready key k);
}

Committed-Inv :
    (n : NativeMembers) (m joined after : CheckpointManager) (key : ReplicaKey)
    (e : OperationEvidence) (version : ℕ) (replicas receivers : List Replica)
    → Committed n m key e version replicas receivers joined after
    → Inv m
    → Inv after
Committed-Inv n m joined after key e version replicas receivers (entered, waited, ready, committed)
      v =
    let w = Joined-Inv n m joined key replicas version receivers entered v in
    subst Inv (sym committed) (record {
      unique = w.unique;
      exclusive = λ j k r at_j at_k. ground (
        arith,
        w.exclusive j k r,
        get-remove joined.pending key j,
        get-remove joined.pending key k,
      );
      receives = w.receives;
      receipts = w.receipts;
    })

-- a runtime that leaves was held by no other key, so the others are still received
dropped-Inv :
    (n : NativeMembers) (m : CheckpointManager) (key : ReplicaKey) (member : List Replica × ℕ)
    (receivers : List Replica)
    → Dict.get m.effective key ≡ some member
    → n.remove_replicas m.replicas member.0 ≡ some receivers
    → Inv m
    → Inv (record m { replicas = receivers; effective = Dict.remove m.effective key })
dropped-Inv n m key member receivers found native v = record {
  unique = remove-Unique m.effective key v.unique;
  exclusive = λ j k r at_j at_k.
      ground (arith, v.exclusive j k r, get-remove m.effective key j, get-remove m.effective key k);
  receives = λ k r mem. ground (
    arith,
    v.receives k r,
    v.exclusive key k r,
    get-remove m.effective key k,
    n.elem-remove m.replicas member.0 receivers r native,
  );
  receipts = v.receipts;
}

pub get-with_version :
    (d : Dict ReplicaKey (List Replica × ℕ)) (version : ℕ) (k : ReplicaKey)
    → Dict.get (with_version d version) k
      ≡ (elim (Dict.get d k) [ none ↦ none | some entry ↦ some (entry.0, version) ])
unfolding with_version Dict.get
get-with_version [] version k = refl
get-with_version ((key, entry) ∷ d) version k = ground (arith, get-with_version d version k)

with_version-Unique :
    (d : Dict ReplicaKey (List Replica × ℕ)) (version : ℕ)
    → Unique d
    → Unique (with_version d version)
unfolding with_version
with_version-Unique [] version u = u
with_version-Unique ((key, entry) ∷ d) version u =
    (ground (arith, u.0, get-with_version d version key), with_version-Unique d version u.1)

pub member_of-with_version :
    (d : Dict ReplicaKey (List Replica × ℕ)) (version : ℕ) (k : ReplicaKey) (r : Replica)
    → member_of (with_version d version) k r ≡ member_of d k r
member_of-with_version d version k r = ground (arith, get-with_version d version k)

pub register_pending-Inv :
    (m : CheckpointManager) (key : ReplicaKey) (replicas : List Replica) (op : String)
    → Inv m
    → Inv (register_pending m key replicas op).1
register_pending-Inv m key replicas op v = elim (register_pending-cases m key replicas op) [
  | inl same ↦ subst Inv (sym same) v
  | inr parked ↦ Parked-Inv m _ key replicas op parked v
]

pub mark_all_loaded_version-Inv :
    (m : CheckpointManager) (version : ℤ) → Inv m → Inv (mark_all_loaded_version m version).1
unfolding mark_all_loaded_version
mark_all_loaded_version-Inv m (negsuc v) w = w
mark_all_loaded_version-Inv m (pos version) v = record {
  unique = with_version-Unique m.effective version v.unique;
  exclusive = λ j k r at_j at_k. ground (
    arith,
    v.exclusive j k r,
    member_of-with_version m.effective version j r,
    member_of-with_version m.effective version k r,
  );
  receives =
      λ k r mem. ground (arith, v.receives k r, member_of-with_version m.effective version k r);
  receipts = v.receipts;
}

module _ (n : NativeMembers) where
  pub add_effective-Inv :
      (m : CheckpointManager) (key : ReplicaKey) (replicas : List Replica) (version : ℤ)
      → Inv m
      → Inv (add_effective n m key replicas version).1
  add_effective-Inv m key replicas version v = elim (add_effective-cases n m key replicas version) [
    | inl (failed, same) ↦ subst Inv (sym same) v
    | inr (loaded, receivers, versioned, returned, joined) ↦
        Joined-Inv n m _ key replicas loaded receivers joined v
  ]

  pub commit_pending-Inv :
      (m : CheckpointManager) (key : ReplicaKey) (e : OperationEvidence) (version : ℤ)
      → Inv m
      → Inv (commit_pending n m key e version).1
  commit_pending-Inv m key e (negsuc v) w =
      let same : (commit_pending n m key e (negsuc v)).1 ≡ m =
        unfold commit_pending in ground arith in
      subst Inv (sym same) w
  commit_pending-Inv m key e (pos version) v = elim (commit_pending-cases n m key e version) [
    | inl (why, same) ↦ subst Inv (sym same) v
    | inr (replicas, receivers, joined, typed, returned, committed) ↦
        Committed-Inv n m joined _ key e version replicas receivers committed v
  ]

  pub remove_effective-Inv :
      (m : CheckpointManager) (key : ReplicaKey) → Inv m → Inv (remove_effective n m key).1
  remove_effective-Inv m key v = elim (remove_effective-cases n m key) [
    | inl (failed, same) ↦ subst Inv (sym same) v
    | inr (inl (absent, discarded)) ↦ subst Inv (sym discarded) (discard-Inv m key v)
    | inr (inr (member, receivers, (found, native, left))) ↦
        subst Inv (sym left)
          (discard-Inv _ key (dropped-Inv n m key member receivers found native v))
  ]
