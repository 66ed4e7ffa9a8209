-- ===== src/LoadBalancer.antt =====
-- src/multi_task_scheduler/rollout/load_balancer.py: the router's request facts.
-- The native router of verl (GlobalRequestLoadBalancer) is not part of the repository: it is the
-- parameter `NativeRouter`. Clock readings are arguments.
pub mod Requests
pub mod Routes
pub mod Ledger
pub mod Handoff
mod Examples
use verl_multi_task.Common.{
  ℕ, ◌+◌, String, ◌≡◌, Bool, true, false, Option, none, some, List, [], ◌∷◌, Key, ◌==◌,
  if◌then◌else◌, Result, ok, err, is_some, string_key, String-discrete,
}
use verl_multi_task.Common.Dict
use verl_multi_task.Common.Dict.{Dict, Members}
use verl_multi_task.Contracts.{
  ReplicaKey, replica_key_key, AttemptState, OperationEvidence, ContractError,
}

-- What the class relies on of its superclass: the pool of servers, selection from that pool, and the
-- in-flight counters, which stay inside `State`.
pub record NativeRouter : Type 1 where
  pub State : Type 0
  pub Handle : Type 0
  pub handle_key : Key Handle
  pub servers : State → Dict String Handle
  -- the selected server and its handle; `none` when the native call raises
  pub acquire : State → String → Option (String × Handle) × State
  pub release : State → String → Option String → State
  pub add_server : State → String → Handle → State
  pub remove_server : State → String → State
  pub acquire_selects :
      (r : State) (q s : String) (h : Handle)
      → (acquire r q).0 ≡ some (s, h)
      → Dict.get (servers r) s ≡ some h
  pub servers-acquire : (r : State) (q : String) → servers (acquire r q).1 ≡ servers r
  pub servers-release :
      (r : State) (s : String) (q : Option String) → servers (release r s q) ≡ servers r
  pub servers-remove_server :
      (r : State) (s : String) → servers (remove_server r s) ≡ Dict.remove (servers r) s
  pub servers-add_server :
      (r : State) (s : String) (h : Handle) → servers (add_server r s h) ≡ Dict.put (servers r) s h

pub data BalancerError : Type 0 where
  unsettled_generation native_failure foreign_release empty_continuation : BalancerError
  conflicting_proof not_eligible not_draining empty_server_id empty_operation_id : BalancerError
  conflicting_ready ledger_disagrees key_routed_elsewhere server_has_other_handle : BalancerError
  key_published_by_other server_owned_by_other unknown_replica draining_elsewhere : BalancerError
  requests_admitted unknown_server : BalancerError
  bad_evidence : ContractError → BalancerError

pub record Proof : Type 0 where
  pub client_id : String
  pub prefix_digest : String
  pub operation_id : String
  pub evidence : OperationEvidence

pub record Ready : Type 0 where
  pub key : ReplicaKey
  pub server_id : String
  pub evidence : OperationEvidence

pub record LoadBalancer (n : NativeRouter) : Type 0 where
  pub native : n.State
  pub routes : Dict ReplicaKey String
  pub active_request_server : Dict String String
  pub attempt_state : Dict String AttemptState
  pub draining_operations : Dict String String
  pub awaiting_service_restore : Bool
  pub ready_operations : Dict String Ready
  pub continuation_proofs : Dict String Proof
  pub continuation_handoffs : Dict String (Members String)
  pub settled_retention : ℕ
  pub settled_count : ℕ

abbrev pub Outcome : NativeRouter → Type 0 → Type 0
Outcome n A = Result BalancerError A × LoadBalancer n

-- `__init__`: the initial routes name servers of the native pool
unfoldable pub initial_routes :
    {V : Type 0}
    → Dict String V
    → Dict ReplicaKey String
    → List (ReplicaKey × String)
    → Result BalancerError (Dict ReplicaKey String)
initial_routes servers routes [] = ok routes
initial_routes servers routes ((key, server_id) ∷ rest) =
    let more = initial_routes servers (Dict.put routes key server_id) rest in
    if is_some (Dict.get servers server_id) then more else err unknown_server

unfoldable pub create :
    (n : NativeRouter)
    → n.State
    → List (ReplicaKey × String)
    → Result BalancerError (LoadBalancer n)
unfolding initial_routes
create n native routes = elim (initial_routes (n.servers native) [] routes) [
  | err e ↦ err e
  | ok table ↦ ok (record {
    native = native;
    routes = table;
    active_request_server = [];
    attempt_state = [];
    draining_operations = [];
    awaiting_service_restore = false;
    ready_operations = [];
    continuation_proofs = [];
    continuation_handoffs = [];
    settled_retention = 10000;
    settled_count = 0;
  })
]
