-- ===== src/ServerManager.antt =====
-- src/multi_task_scheduler/integration/verl/experimental_fully_async/llm_server_manager.py: the
-- lifecycle of every replica of a task, and which runtimes serve requests.
-- A runtime object is its identity, a number, with the address and the handle of its server.
pub mod Service
pub mod Borrowed
pub mod Release
pub mod History
mod Examples
use verl_multi_task.Common.{
  ℕ, String, ◌≡◌, Bool, true, false, Option, none, some, List, [], ◌∷◌, Key, ◌==◌, if◌then◌else◌,
  nonempty, is_some, Result, ok, err, ◌>>=◌, ◌>>◌, require, nat_key, string_key, option_key,
  list_key, elem, String-discrete, ℕ_discrete, List-discrete,
}
use verl_multi_task.Common.Dict
use verl_multi_task.Common.Dict.{Dict}
use verl_multi_task.Contracts.{
  ReplicaKey, replica_key_key, ReplicaKind, native_replica, borrowed, replica_kind_key,
  ReplicaState, creating, active, draining, dormant, released, quarantined, OperationEvidence,
  ContractError,
}
use verl_multi_task.Contracts.Lease.{Claim-discrete}
use verl_multi_task.TaskRunner.Lifecycle.{RankedClaim, BorrowedSpec}

unfoldable pub ReplicaState-discrete : Discrete ReplicaState
ReplicaState-discrete = hlevel

instance abbrev pub replica_state_key : Key ReplicaState
replica_state_key = record { decide_eq = ReplicaState-discrete }

unfoldable pub RankedClaim-discrete : Discrete RankedClaim
unfolding ℕ_discrete Claim-discrete
RankedClaim-discrete = hlevel (ℕ_discrete, Claim-discrete)

unfoldable pub BorrowedSpec-discrete : Discrete BorrowedSpec
unfolding ℕ_discrete String-discrete List-discrete RankedClaim-discrete
BorrowedSpec-discrete = hlevel (ℕ_discrete, String-discrete, List-discrete RankedClaim-discrete)

instance abbrev pub borrowed_spec_key : Key BorrowedSpec
borrowed_spec_key = record { decide_eq = BorrowedSpec-discrete }

-- One constructor for each `raise`.
pub data ManagerError : Type 0 where
  conflicting_registration other_runtime borrowed_dormant native_released : ManagerError
  unknown_replica illegal_transition empty_operation_id foreign_release : ManagerError
  not_routable inconsistent_service : ManagerError
  empty_field other_session unsupported_parallelism several_claims expired ranked_claim :
      ManagerError
  bad_lease bad_placement_group several_records conflicting_create create_failed in_progress :
      ManagerError
  already_registered runtime_failure not_native not_borrowed not_draining no_runtime : ManagerError
  no_gpu_id foreign_destroy not_destroyable cleanup_failed : ManagerError
  bad_evidence : ContractError → ManagerError

pub record Runtime : Type 0 where
  pub id : ℕ
  pub server_address : Option String
  pub server_handle : Option ℕ

-- the result of a create: `state` is RUNTIME_READY and `released` is False
pub record Created : Type 0 where
  pub operation_id : String
  pub lease_id : String
  pub replica_rank : ℕ
  pub server_address : Option String

-- a record of `borrowed_operations`
pub record BorrowedOperation : Type 0 where
  pub resolved_spec : BorrowedSpec
  pub replica_rank : ℕ
  pub error : Option ManagerError
  pub result : Option Created
  pub destroy_evidence : Option OperationEvidence

pub record ServerManager : Type 0 where
  pub task_session : String
  pub replica_state : Dict ReplicaKey ReplicaState
  pub replica_kind : Dict ReplicaKey ReplicaKind
  pub runtime_inventory : Dict ReplicaKey Runtime
  pub next_replica_rank : ℕ
  pub borrowed_operations : Dict String BorrowedOperation
  pub native_release_evidence : Dict String (ReplicaKey × OperationEvidence)
  pub rollout_replicas : List ℕ
  pub server_addresses : List String
  pub server_handles : List ℕ

abbrev pub Outcome : Type 0 → Type 0
Outcome A = Result ManagerError A × ServerManager

-- `_ALLOWED`
unfoldable pub allowed : ReplicaState → List ReplicaState
allowed creating = active ∷ released ∷ quarantined ∷ []
allowed active = draining ∷ []
allowed draining = active ∷ dormant ∷ released ∷ quarantined ∷ []
allowed dormant = active ∷ quarantined ∷ []
allowed released = []
allowed quarantined = []

unfoldable pub validate_kind_state : ReplicaKind → ReplicaState → Result ManagerError (Unit {0})
validate_kind_state borrowed dormant = err borrowed_dormant
validate_kind_state native_replica released = err native_released
validate_kind_state kind state = ok tt

-- the runtime that a registration brings, if there is one
abbrev pub with_runtime :
    Dict ReplicaKey Runtime → ReplicaKey → Option Runtime → Dict ReplicaKey Runtime
with_runtime inventory key none = inventory
with_runtime inventory key (some runtime) = Dict.put inventory key runtime

-- a registration of a key that is known
unfoldable pub register_again :
    ServerManager
    → ReplicaKey
    → ReplicaKind
    → ReplicaState
    → ReplicaState
    → Option Runtime
    → Outcome (Unit {0})
register_again m key kind state current runtime =
    if (if Dict.get m.replica_kind key == some kind then current == state else false)
    then elim runtime [
      | none ↦ (ok tt, m)
      | some new ↦ elim (Dict.get m.runtime_inventory key) [
        | none ↦ (ok tt, record m { runtime_inventory = Dict.put m.runtime_inventory key new })
        | some existing ↦ if existing.id == new.id then (ok tt, m) else (err other_runtime, m)
      ]
    ]
    else (err conflicting_registration, m)

unfoldable pub register_replica :
    ServerManager → ReplicaKey → ReplicaKind → ReplicaState → Option Runtime → Outcome (Unit {0})
unfolding register_again validate_kind_state
register_replica m key kind state runtime = elim (Dict.get m.replica_state key) [
  | some current ↦ register_again m key kind state current runtime
  | none ↦ elim (validate_kind_state kind state) [
    | err problem ↦ (err problem, m)
    | ok _ ↦ (
      ok tt,
      record m {
        replica_kind = Dict.put m.replica_kind key kind;
        replica_state = Dict.put m.replica_state key state;
        runtime_inventory = with_runtime m.runtime_inventory key runtime;
      },
    )
  ]
]

-- the inventory behind a transition
abbrev pub without_released :
    Dict ReplicaKey Runtime → ReplicaKey → ReplicaState → Dict ReplicaKey Runtime
without_released inventory key released = Dict.remove inventory key
without_released inventory key state = inventory

unfoldable pub transition_replica : ServerManager → ReplicaKey → ReplicaState → Outcome ReplicaState
unfolding allowed validate_kind_state
transition_replica m key new_state = elim (Dict.get m.replica_state key) [
  | none ↦ (err unknown_replica, m)
  | some current ↦
      if new_state == current
      then (ok current, m)
      else elim (do
        require (elem new_state (allowed current)) illegal_transition
        kind ← elim (Dict.get m.replica_kind key) [
          | none ↦ err unknown_replica
          | some kind ↦ ok kind
        ]
        validate_kind_state kind new_state) [
          | err problem ↦ (err problem, m)
          | ok _ ↦ (
            ok new_state,
            record m {
              replica_state = Dict.put m.replica_state key new_state;
              runtime_inventory = without_released m.runtime_inventory key new_state;
            },
          )
        ]
]

unfoldable pub replica_meta :
    ServerManager → ReplicaKey → Result ManagerError (ReplicaKind × ReplicaState)
replica_meta m key = do
  kind ← elim (Dict.get m.replica_kind key) [ none ↦ err unknown_replica | some kind ↦ ok kind ]
  state ← elim (Dict.get m.replica_state key) [ none ↦ err unknown_replica | some state ↦ ok state ]
  ok (kind, state)

unfoldable pub inspect_runtime : ServerManager → ReplicaKey → Option Runtime
inspect_runtime m key = Dict.get m.runtime_inventory key
