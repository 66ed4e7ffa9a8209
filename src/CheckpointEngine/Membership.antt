-- ===== src/CheckpointEngine/Membership.antt =====
-- The membership invariant of the checkpoint manager, and the cases of its calls
-- (checkpoint_engine_manager.py).
pub mod Preservation
pub mod Serving
use verl_multi_task.Common.{
  ℕ, String, ◌≡◌, refl, sym, subst, ◌∙◌, ap, ◌⊎◌, ◌≢◌, inl, inr, Bool, true, false, Option, none,
  some, List, [], ◌∷◌, ◌==◌, ℤ, pos, negsuc, if◌then◌else◌, nonempty, is_nil, elem, distinct,
  Result, ok, err, ◌>>=◌, ◌>>◌, require, Result-cases, Bool-cases, Option-cases, nat_key,
  string_key, option_key, list_key, pair_key, arith,
}
use verl_multi_task.Common.Dict
use verl_multi_task.Common.Dict.{Dict, get-put, get-remove}
use verl_multi_task.Common.Dict.Counting.{Unique, put-Unique, remove-Unique}
use verl_multi_task.Contracts.{
  ReplicaKey, replica_key_key, EvidenceType, weight_ready, evidence_type_key, OperationEvidence,
  operation_evidence_key,
}
use verl_multi_task.CheckpointEngine.{
  Replica, NativeMembers, Receipt, CheckpointManager, CheckpointError, Outcome, overlaps,
  held_elsewhere, validate_runtime_membership, as_version, register_checked, register_pending,
  discard_pending, missing, add_effective, commit_checked, commit_again, commit_pending,
  remove_effective, with_version, mark_all_loaded_version,
}

-- does the key's entry hold the runtime?
abbrev pub member_of :
    {V : Type 0} → Dict ReplicaKey (List Replica × V) → ReplicaKey → Replica → Bool
member_of d key r = elim (Dict.get d key) [ none ↦ false | some entry ↦ elem r entry.0 ]

abbrev pub holds : CheckpointManager → ReplicaKey → Replica → Bool
holds m key r = if member_of m.effective key r then true else member_of m.pending key r

pub record Inv (m : CheckpointManager) : Type 0 where
  pub unique : Unique m.effective
  pub exclusive : (j k : ReplicaKey) (r : Replica) → holds m j r ≡ true → holds m k r ≡ true → j ≡ k
  pub receives :
      (k : ReplicaKey) (r : Replica) → member_of m.effective k r ≡ true → elem r m.replicas ≡ true
  pub receipts :
      (k : ReplicaKey) (receipt : Receipt)
      → Dict.get m.ready k ≡ some receipt
      → (receipt.1.1.type ≡ weight_ready) × (receipt.1.1.operation_id ≡ receipt.0)

pub overlaps-elem :
    (xs ys : List Replica) (r : Replica)
    → overlaps xs ys ≡ false
    → elem r xs ≡ true
    → elem r ys ≡ false
overlaps-elem [] ys r apart mem = cc
overlaps-elem (x ∷ xs) ys r apart mem = ground (arith, overlaps-elem xs ys r, apart, mem)

pub held_elsewhere-member :
    {V : Type 0} (d : Dict ReplicaKey (List Replica × V)) (key j : ReplicaKey)
    (replicas : List Replica) (r : Replica)
    → held_elsewhere d key replicas ≡ false
    → elem r replicas ≡ true
    → member_of d j r ≡ true
    → j ≡ key
unfolding held_elsewhere Dict.get
held_elsewhere-member [] key j replicas r free mem held = cc
held_elsewhere-member ((other, (runtimes, v)) ∷ d) key j replicas r free mem held =
    ground (arith, held_elsewhere-member d key j replicas r, overlaps-elem replicas runtimes r)

-- what a passed membership check says
pub validated :
    (m : CheckpointManager) (key j : ReplicaKey) (replicas : List Replica) (r : Replica)
    → validate_runtime_membership m key replicas ≡ ok tt
    → elem r replicas ≡ true
    → holds m j r ≡ true
    → j ≡ key
unfolding validate_runtime_membership
validated m key j replicas r valid mem held = ground (
  arith,
  held_elsewhere-member m.effective key j replicas r,
  held_elsewhere-member m.pending key j replicas r,
)

-- Each call changes nothing, or makes the one change that it is for.
abbrev pub Parked :
    CheckpointManager → ReplicaKey → List Replica → String → CheckpointManager → Type 0
Parked m key replicas op after =
    (validate_runtime_membership m key replicas ≡ ok tt)
    × (Dict.get m.effective key ≡ none)
    × (overlaps replicas m.replicas ≡ false)
    × (after ≡ record m { pending = Dict.put m.pending key (replicas, op) })

pub register_pending-cases :
    (m : CheckpointManager) (key : ReplicaKey) (replicas : List Replica) (op : String)
    → ((register_pending m key replicas op).1 ≡ m)
      ⊎ Parked m key replicas op (register_pending m key replicas op).1
unfolding register_pending register_checked
register_pending-cases m key replicas op =
    elim (Result-cases (validate_runtime_membership m key replicas)) [
      | inl (problem, refused) ↦ inl (ground (arith, refused))
      | inr (done, valid) ↦ ground (arith, valid)
    ]

abbrev pub Joined :
    NativeMembers
    → CheckpointManager
    → ReplicaKey
    → List Replica
    → ℕ
    → List Replica
    → CheckpointManager
    → Type 0
Joined n m key replicas version receivers after =
    (validate_runtime_membership m key replicas ≡ ok tt)
    × (n.add_replicas m.replicas (missing m.replicas replicas) ≡ some receivers)
    × ((Dict.get m.effective key ≡ none) ⊎ (Dict.get m.effective key ≡ some (replicas, version)))
    × (after ≡ record m {
      replicas = receivers;
      effective = Dict.put m.effective key (replicas, version);
    })

module _ (n : NativeMembers) where
  joins_or_keeps :
      (m : CheckpointManager) (key : ReplicaKey) (replicas : List Replica) (version : ℕ)
      (receivers : List Replica)
      → n.add_replicas m.replicas (missing m.replicas replicas) ≡ some receivers
      → ((add_effective n m key replicas (pos version)).0 ≢ ok tt)
          × ((add_effective n m key replicas (pos version)).1 ≡ m)
        ⊎ ((add_effective n m key replicas (pos version)).0 ≡ ok tt)
          × Joined n m key replicas version receivers
              (add_effective n m key replicas (pos version)).1
  unfolding add_effective
  joins_or_keeps m key replicas version receivers native =
      elim (Result-cases (validate_runtime_membership m key replicas)) [
        | inl (problem, refused) ↦ inl (ground (arith, refused))
        | inr (done, valid) ↦ ground (arith, native, valid)
      ]

  add-Joined :
      (m : CheckpointManager) (key : ReplicaKey) (replicas : List Replica) (version : ℕ)
      → ((add_effective n m key replicas (pos version)).0 ≢ ok tt)
          × ((add_effective n m key replicas (pos version)).1 ≡ m)
        ⊎ (receivers : List Replica) × ((add_effective n m key replicas (pos version)).0 ≡ ok tt)
          × Joined n m key replicas version receivers
              (add_effective n m key replicas (pos version)).1
  add-Joined m key replicas version =
      elim (Option-cases (n.add_replicas m.replicas (missing m.replicas replicas))) [
        | inl raised ↦ inl (unfold add_effective in ground (arith, raised))
        | inr (receivers, native) ↦ elim (joins_or_keeps m key replicas version receivers native) [
          | inl same ↦ inl same
          | inr (returned, joined) ↦ inr (receivers, returned, joined)
        ]
      ]

  pub add_effective-cases :
      (m : CheckpointManager) (key : ReplicaKey) (replicas : List Replica) (version : ℤ)
      → ((add_effective n m key replicas version).0 ≢ ok tt)
          × ((add_effective n m key replicas version).1 ≡ m)
        ⊎ (loaded : ℕ) × (receivers : List Replica) × (version ≡ pos loaded)
          × ((add_effective n m key replicas version).0 ≡ ok tt)
          × Joined n m key replicas loaded receivers (add_effective n m key replicas version).1
  add_effective-cases m key replicas (negsuc v) = inl (unfold add_effective in (λ h. cc, refl))
  add_effective-cases m key replicas (pos version) = elim (add-Joined m key replicas version) [
    | inl same ↦ inl same
    | inr (receivers, returned, joined) ↦ inr (version, receivers, refl, returned, joined)
  ]

  -- a commit: the target joins, and no longer waits
  abbrev pub Committed :
      CheckpointManager
      → ReplicaKey
      → OperationEvidence
      → ℕ
      → List Replica
      → List Replica
      → CheckpointManager
      → CheckpointManager
      → Type 0
  Committed m key evidence version replicas receivers joined after =
      Joined n m key replicas version receivers joined
      × (Dict.get m.pending key ≡ some (replicas, evidence.operation_id))
      × (Dict.get m.ready key ≡ some (evidence.operation_id, (version, evidence)))
      × (after ≡ record joined { pending = Dict.remove joined.pending key })

  commit_checked-cases :
      (m : CheckpointManager) (key : ReplicaKey) (evidence : OperationEvidence) (version : ℕ)
      → ((commit_checked n m key evidence version).0 ≢ ok tt)
          × ((commit_checked n m key evidence version).1 ≡ m)
        ⊎ (replicas : List Replica) × (receivers : List Replica) × (joined : CheckpointManager)
          × ((commit_checked n m key evidence version).0 ≡ ok tt)
          × Committed m key evidence version replicas receivers joined
              (commit_checked n m key evidence version).1
  unfolding commit_checked
  commit_checked-cases m key evidence version = elim (Option-cases (Dict.get m.pending key)) [
    | inl absent ↦ inl (ground (arith, absent))
    | inr (waiting, found) ↦ elim (add-Joined m key waiting.0 version) [
      | inl (failed, same) ↦ inl (ground (arith, found, failed, same))
      | inr (receivers, returned, joined) ↦
          elim (Bool-cases (
            if waiting.1 == evidence.operation_id
            then Dict.get m.ready key == some (waiting.1, (version, evidence))
            else false)) [
              | inl confirmed ↦ inr (
                waiting.0,
                receivers,
                (add_effective n m key waiting.0 (pos version)).1,
                ground (arith, found, returned, confirmed),
                (
                  joined,
                  ground (arith, found, confirmed),
                  ground (arith, confirmed),
                  ground (arith, found, returned, confirmed),
                ),
              )
              | inr unconfirmed ↦ inl (ground (arith, found, unconfirmed))
            ]
    ]
  ]

  -- the target of a repeated commit: it waits no more, and is effective at the version
  abbrev pub Again : CheckpointManager → ReplicaKey → ℕ → Type 0
  Again m key version =
      (Dict.get m.pending key ≡ none)
      × (replicas : List Replica) × (Dict.get m.effective key ≡ some (replicas, version))

  commit-Again-cases :
      (m : CheckpointManager) (key : ReplicaKey) (evidence : OperationEvidence) (version : ℕ)
      → (commit_checked n m key evidence version).0 ≢ ok tt
      → ((commit_pending n m key evidence (pos version)).0 ≢ ok tt) ⊎ Again m key version
  unfolding commit_pending
  commit-Again-cases m key evidence version failed = elim (Option-cases (Dict.get m.pending key)) [
    | inr (waiting, found) ↦ inl (ground (arith, found, failed))
    | inl gone ↦ elim (Option-cases (Dict.get m.ready key)) [
      | inl unready ↦ inl (ground (arith, gone, unready, failed))
      | inr (receipt, ready) ↦ elim (Option-cases (Dict.get m.effective key)) [
        | inl absent ↦ inl (ground (arith, gone, ready, absent, failed))
        | inr ((replicas, loaded), found) ↦ elim (Bool-cases (loaded == version)) [
          | inl same ↦ inr (gone, replicas, ground (arith, found, same))
          | inr other ↦ inl (ground (arith, gone, ready, found, other))
        ]
      ]
    ]
  ]

  pub commit_pending-cases :
      (m : CheckpointManager) (key : ReplicaKey) (evidence : OperationEvidence) (version : ℕ)
      → (((commit_pending n m key evidence (pos version)).0 ≢ ok tt) ⊎ Again m key version)
          × ((commit_pending n m key evidence (pos version)).1 ≡ m)
        ⊎ (replicas : List Replica) × (receivers : List Replica) × (joined : CheckpointManager)
          × (evidence.type ≡ weight_ready)
          × ((commit_pending n m key evidence (pos version)).0 ≡ ok tt)
          × Committed m key evidence version replicas receivers joined
              (commit_pending n m key evidence (pos version)).1
  unfolding commit_pending
  commit_pending-cases m key evidence version = elim (commit_checked-cases m key evidence version) [
    | inl (failed, same) ↦
        inl (commit-Again-cases m key evidence version failed, ground (arith, same))
    | inr (replicas, receivers, joined, returned, committed) ↦
        elim (Bool-cases (evidence.type == weight_ready)) [
          | inr other ↦ inl (inl (ground (arith, other)), ground (arith, other))
          | inl typed ↦ inr (
            replicas,
            receivers,
            joined,
            ground (arith, typed),
            ground (arith, typed, committed, returned),
            (committed.0, committed.1, committed.2, ground (arith, typed, committed)),
          )
        ]
  ]

  abbrev pub Left :
      CheckpointManager → ReplicaKey → List Replica × ℕ → List Replica → CheckpointManager → Type 0
  Left m key member receivers after =
      (Dict.get m.effective key ≡ some member)
      × (n.remove_replicas m.replicas member.0 ≡ some receivers)
      × (after
          ≡ discard_pending
              (record m { replicas = receivers; effective = Dict.remove m.effective key }) key)

  pub remove_effective-cases :
      (m : CheckpointManager) (key : ReplicaKey)
      → ((remove_effective n m key).0 ≢ ok tt) × ((remove_effective n m key).1 ≡ m)
        ⊎ (Dict.get m.effective key ≡ none) × ((remove_effective n m key).1 ≡ discard_pending m key)
        ⊎ (member : List Replica × ℕ) × (receivers : List Replica) × Left m key member receivers
            (remove_effective n m key).1
  unfolding remove_effective
  remove_effective-cases m key = elim (Option-cases (Dict.get m.effective key)) [
    | inl absent ↦ inr (inl (ground (arith, absent)))
    | inr (member, found) ↦ elim (Option-cases (n.remove_replicas m.replicas member.0)) [
      | inl raised ↦ inl (ground (arith, found, raised))
      | inr (receivers, native) ↦
          inr (inr (member, receivers, (found, native, ground (arith, found, native))))
    ]
  ]
