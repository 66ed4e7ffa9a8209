-- ===== src/CheckpointEngine.antt =====
-- src/multi_task_scheduler/checkpoint/checkpoint_engine_manager.py: who receives the weights.
-- A replica is the identity of its runtime object. The list of receivers that the superclass keeps
-- (verl's CheckpointEngineManager) is changed by its own methods, the parameter `NativeMembers`.
pub mod Manifest
pub mod Validation
pub mod Bootstrap
pub mod Membership
pub mod History
pub mod Examples
use verl_multi_task.Common.{
  ℕ, ◌+◌, String, ◌≡◌, Bool, true, false, Option, none, some, List, [], ◌∷◌, Key, ◌==◌, ℤ, pos,
  if◌then◌else◌, nonempty, is_some, is_nil, elem, distinct, Result, ok, err, ◌>>=◌, ◌>>◌, require,
  nat_key, string_key, option_key, list_key, pair_key,
}
use verl_multi_task.Common.Dict
use verl_multi_task.Common.Dict.{Dict}
use verl_multi_task.Contracts.{
  ReplicaKey, replica_key_key, EvidenceType, weight_ready, evidence_type_key, OperationEvidence,
  operation_evidence_key, ContractError,
}

abbrev pub Replica : Type 0
Replica = ℕ

-- The superclass's add_replicas and remove_replicas: `none` when the call raises, which leaves the
-- list as it was.
pub record NativeMembers : Type 0 where
  pub add_replicas : List Replica → List Replica → Option (List Replica)
  pub remove_replicas : List Replica → List Replica → Option (List Replica)
  pub elem-add :
      (receivers new after : List Replica) (r : Replica)
      → add_replicas receivers new ≡ some after
      → elem r after ≡ (if elem r receivers then true else elem r new)
  pub elem-remove :
      (receivers gone after : List Replica) (r : Replica)
      → remove_replicas receivers gone ≡ some after
      → elem r after ≡ (if elem r gone then false else elem r receivers)

-- One constructor for each `raise`.
pub data CheckpointError : Type 0 where
  duplicate_runtime foreign_runtime empty_operation_id no_replicas : CheckpointError
  already_effective conflicting_pending already_native : CheckpointError
  not_weight_ready negative_version unconfirmed_evidence conflicting_commit : CheckpointError
  no_pending foreign_evidence conflicting_membership native_failure : CheckpointError
  conflicting_bootstrap foreign_pending no_workers mixed_kinds unsupported_kind : CheckpointError
  naive_backend remote_failure no_gpu_id unconfirmed_version : CheckpointError
  invalid_parameters cleanup_unverified : CheckpointError
  bad_evidence : ContractError → CheckpointError

-- the operation, version and evidence of a confirmed bootstrap
abbrev pub Receipt : Type 0
Receipt = String × (ℕ × OperationEvidence)

pub record CheckpointManager : Type 0 where
  pub replicas : List Replica
  pub effective : Dict ReplicaKey (List Replica × ℕ)
  pub pending : Dict ReplicaKey (List Replica × String)
  pub ready : Dict ReplicaKey Receipt

abbrev pub Outcome : Type 0 → Type 0
Outcome A = Result CheckpointError A × CheckpointManager

abbrev pub overlaps : List Replica → List Replica → Bool
overlaps [] held = false
overlaps (r ∷ rs) held = if elem r held then true else overlaps rs held

-- does a runtime of the list stand under another key?
unfoldable pub held_elsewhere :
    {V : Type 0} → Dict ReplicaKey (List Replica × V) → ReplicaKey → List Replica → Bool
held_elsewhere [] key replicas = false
held_elsewhere ((other, (held, _)) ∷ entries) key replicas =
    let rest = held_elsewhere entries key replicas in
    if (if other == key then false else overlaps replicas held) then true else rest

unfoldable pub validate_runtime_membership :
    CheckpointManager → ReplicaKey → List Replica → Result CheckpointError Unit
unfolding held_elsewhere
validate_runtime_membership m key replicas = do
  require (distinct replicas) duplicate_runtime
  require (if held_elsewhere m.effective key replicas then false else true) foreign_runtime
  require (if held_elsewhere m.pending key replicas then false else true) foreign_runtime

abbrev pub as_version : ℤ → Result CheckpointError ℕ
as_version (pos version) = ok version
as_version _ = err negative_version

-- `register_pending` behind its checks of the arguments
unfoldable pub register_checked :
    CheckpointManager → ReplicaKey → List Replica → String → Outcome Unit
register_checked m key replicas operation_id = elim (Dict.get m.effective key) [
  | some member ↦ elim (Dict.get m.ready key) [
    | some receipt ↦
        if (if member.0 == replicas then receipt.0 == operation_id else false)
        then (ok tt, m)
        else (err already_effective, m)
    | none ↦ (err already_effective, m)
  ]
  | none ↦ elim (Dict.get m.pending key) [
    | some existing ↦
        if existing == (replicas, operation_id) then (ok tt, m) else (err conflicting_pending, m)
    | none ↦
        if overlaps replicas m.replicas
        then (err already_native, m)
        else (ok tt, record m { pending = Dict.put m.pending key (replicas, operation_id) })
  ]
]

unfoldable pub register_pending :
    CheckpointManager → ReplicaKey → List Replica → String → Outcome Unit
unfolding register_checked validate_runtime_membership
register_pending m key replicas operation_id =
    elim (do
      require (nonempty operation_id) empty_operation_id
      require (if is_nil replicas then false else true) no_replicas
      validate_runtime_membership m key replicas) [
        | err problem ↦ (err problem, m)
        | ok _ ↦ register_checked m key replicas operation_id
      ]

unfoldable pub discard_pending : CheckpointManager → ReplicaKey → CheckpointManager
discard_pending m key = record m {
  pending = Dict.remove m.pending key;
  ready = Dict.remove m.ready key;
}

-- `[replica for replica in replicas if replica not in self.replicas]`
abbrev pub missing : List Replica → List Replica → List Replica
missing receivers [] = []
missing receivers (r ∷ rs) =
    let rest = missing receivers rs in if elem r receivers then rest else r ∷ rest

module _ (n : NativeMembers) where
  unfoldable pub add_effective : CheckpointManager → ReplicaKey → List Replica → ℤ → Outcome Unit
  unfolding validate_runtime_membership
  add_effective m key replicas loaded_version =
      elim (do
        version ← as_version loaded_version
        require (if is_nil replicas then false else true) no_replicas
        validate_runtime_membership m key replicas
        require
            (elim (Dict.get m.effective key) [
              | none ↦ true
              | some existing ↦ existing == (replicas, version)
            ])
            conflicting_membership
        ok version) [
          | err problem ↦ (err problem, m)
          | ok version ↦ elim (n.add_replicas m.replicas (missing m.replicas replicas)) [
            | none ↦ (err native_failure, m)
            | some receivers ↦ (
              ok tt,
              record m {
                replicas = receivers;
                effective = Dict.put m.effective key (replicas, version);
              },
            )
          ]
        ]

  -- the checks of `commit_pending` on a target that is still pending
  unfoldable pub commit_checked :
      CheckpointManager → ReplicaKey → OperationEvidence → ℕ → Outcome Unit
  unfolding add_effective
  commit_checked m key evidence version = elim (Dict.get m.pending key) [
    | none ↦ (err no_pending, m)
    | some waiting ↦
        elim (do
          require (waiting.1 == evidence.operation_id) foreign_evidence
          require (Dict.get m.ready key == some (waiting.1, (version, evidence)))
              unconfirmed_evidence) [
                | err problem ↦ (err problem, m)
                | ok _ ↦
                    (let (call, after) = add_effective m key waiting.0 (pos version) in
                      elim call [
                        | err problem ↦ (err problem, after)
                        | ok _ ↦ (ok tt, record after { pending = Dict.remove after.pending key })
                      ])
              ]
  ]

  -- a target that is effective and no longer pending
  unfoldable pub commit_again :
      CheckpointManager → OperationEvidence → ℕ → Receipt → List Replica × ℕ → Outcome Unit
  commit_again m evidence version confirmed member = (
    do
      require (confirmed == (evidence.operation_id, (version, evidence))) unconfirmed_evidence
      require (member.1 == version) conflicting_commit,
    m,
  )

  unfoldable pub commit_pending :
      CheckpointManager → ReplicaKey → OperationEvidence → ℤ → Outcome Unit
  unfolding commit_checked commit_again
  commit_pending m key evidence loaded_version =
      elim (do
        require (evidence.type == weight_ready) not_weight_ready
        as_version loaded_version) [
          | err problem ↦ (err problem, m)
          | ok version ↦ elim (Dict.get m.pending key) [
            | some _ ↦ commit_checked m key evidence version
            | none ↦ elim (Dict.get m.ready key) [
              | none ↦ commit_checked m key evidence version
              | some confirmed ↦ elim (Dict.get m.effective key) [
                | none ↦ commit_checked m key evidence version
                | some member ↦ commit_again m evidence version confirmed member
              ]
            ]
          ]
        ]

  unfoldable pub remove_effective : CheckpointManager → ReplicaKey → Outcome Unit
  unfolding discard_pending
  remove_effective m key = elim (Dict.get m.effective key) [
    | none ↦ (ok tt, discard_pending m key)
    | some member ↦ elim (n.remove_replicas m.replicas member.0) [
      | none ↦ (err native_failure, m)
      | some receivers ↦ (
        ok tt,
        discard_pending (record m { replicas = receivers; effective = Dict.remove m.effective key })
            key,
      )
    ]
  ]

-- every member's version replaced
unfoldable pub with_version :
    Dict ReplicaKey (List Replica × ℕ) → ℕ → Dict ReplicaKey (List Replica × ℕ)
with_version [] version = []
with_version ((key, (replicas, _)) ∷ rest) version =
    (key, (replicas, version)) ∷ with_version rest version

unfoldable pub mark_all_loaded_version : CheckpointManager → ℤ → Outcome Unit
unfolding with_version
mark_all_loaded_version m loaded_version = elim (as_version loaded_version) [
  | err problem ↦ (err problem, m)
  | ok version ↦ (ok tt, record m { effective = with_version m.effective version })
]
