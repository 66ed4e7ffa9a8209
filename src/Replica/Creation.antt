-- ===== src/Replica/Creation.antt =====
-- The creation of a borrowed runtime, and the health of a runtime (replica.py).
pub mod Proof
use Prim.Native.String.{◌++◌}
use verl_multi_task.Common.{
  ℕ, suc, String, ◌≡◌, Bool, true, false, Option, none, some, List, [], ◌∷◌, map, ◌==◌, ℤ, pos,
  if◌then◌else◌, nonempty, is_nil, length, distinct, Result, ok, err, ◌>>=◌, ◌>>◌, require, nat_key,
  string_key, option_key, list_key, bool_key, pair_key,
}
use verl_multi_task.Contracts.{ReplicaKind, native_replica, borrowed, replica_kind_key}
use verl_multi_task.Contracts.Native.{decimal}
use verl_multi_task.Contracts.Lease.{Claim, Expiry, at_tick, make_lease, raw_claim}
use verl_multi_task.TaskRunner.Lifecycle.{BorrowedSpec, RankedClaim}
use verl_multi_task.Replica.{
  World, RuntimeError, not_borrowed, wrong_rank, wrong_epoch, bad_lease, several_claims,
  ranked_claim, foreign_groups, worker_count, wrong_node, wrong_gpu, remote_failure,
  several_servers, bad_health, mixed_nodes, cleanup_unverified, Replica, kill_workers_verified,
  cleanup_borrowed_runtime,
}

-- what a worker's placement probe and a server's `runtime_health` report
pub record Placement : Type 0 where
  pub node_id : Option String
  pub gpu_uuid : Option String

pub record Health : Type 0 where
  pub replica_rank : Option ℕ
  pub has_address : Bool
  pub node_id : Option String

-- The answers of the calls of a creation; `none` and false where a call raised.
pub record Remote : Type 0 where
  pub master_found : Bool
  pub worker : Option ℕ
  -- the workers of the detached group, and where the first of them is
  pub group_workers : Option (List ℕ)
  pub placement : Option Placement
  -- what `launch_servers` leaves in `servers`, whether it returned, and the address that it set
  pub launched_servers : List ℕ
  pub launched : Bool
  pub launched_address : Option String
  pub health : Option Health

abbrev pub only_claim : List RankedClaim → Result RuntimeError RankedClaim
only_claim (claim ∷ []) = ok claim
only_claim _ = err several_claims

unfoldable pub validate_placement : Replica → BorrowedSpec → ℕ → Result RuntimeError RankedClaim
validate_placement r spec replica_rank = do
  require (r.replica_kind == borrowed) not_borrowed
  require (replica_rank == r.replica_rank) wrong_rank
  require (spec.placement_epoch == r.runtime_epoch) wrong_epoch
  _ ←
      elim (make_lease spec.lease_id (map (λ (c : RankedClaim). raw_claim c.claim) spec.claims)
        (at_tick (pos spec.expires_at))) [ err _ ↦ err bad_lease | ok lease ↦ ok lease ]
  require (r.world_size == 1) several_claims
  claim ← only_claim spec.claims
  require (claim.rank == 0) ranked_claim
  require (claim.node_rank == 0) ranked_claim
  require (claim.local_rank == 0) ranked_claim
  ok claim

-- a rank as text
abbrev rank_text : ℕ → String → String
rank_text rank rest = decimal (suc rank) rank rest

abbrev pub actor_name : Replica → String
actor_name r = "borrowed_ce_" ++ rank_text r.replica_rank (r.name_suffix ++ "_r0")

abbrev pub server_name : Replica → String
server_name r =
    r.server_name_prefix ++ "server_" ++ rank_text r.replica_rank ("_0" ++ r.name_suffix)

-- the writes of `build_borrowed_worker_plan`
abbrev pub planned : Replica → RankedClaim → Replica
planned r claim = record r { placement_claims = claim ∷ []; server_names = server_name r ∷ [] }

unfoldable pub worker_placements : Remote → Replica → Result RuntimeError Placement
worker_placements a r = do
  require (length r.workers == 1) worker_count
  elim a.placement [ none ↦ err remote_failure | some placement ↦ ok placement ]

abbrev pub on_claim : List RankedClaim → Placement → Result RuntimeError (Unit {0})
on_claim [] actual = err worker_count
on_claim (c ∷ cs) actual = do
  require (actual.node_id == some c.claim.node_id) wrong_node
  require (actual.gpu_uuid == some c.claim.gpu_uuid) wrong_gpu
  ok tt

unfoldable pub validate_worker_placement : Remote → Replica → Result RuntimeError (Unit {0})
unfolding worker_placements
validate_worker_placement a r = do
  require (length r.workers == length r.placement_claims) worker_count
  actual ← worker_placements a r
  on_claim r.placement_claims actual

-- the `except` block: only the proof of its death drops the worker
unfoldable pub undo_worker :
    World → Replica → ℕ → RuntimeError → Option (Result RuntimeError (Unit {0}) × Replica)
unfolding kill_workers_verified
undo_worker w r worker problem = elim (kill_workers_verified w (worker ∷ []) (actor_name r ∷ [])) [
  | none ↦ none
  | some (err _) ↦
      some (
        err cleanup_unverified,
        record r { workers = worker ∷ []; worker_names = actor_name r ∷ [] },
      )
  | some (ok _) ↦ some (err problem, record r { workers = [] })
]

-- the `try` block and its `except`, for a replica with its plan
unfoldable pub place_worker :
    Remote → World → Replica → Option (Result RuntimeError (Unit {0}) × Replica)
unfolding undo_worker validate_worker_placement
place_worker a w r = elim a.worker [
  | none ↦ some (err remote_failure, record r { workers = [] })
  | some worker ↦ elim a.group_workers [
    | none ↦ undo_worker w r worker remote_failure
    | some workers ↦
        let placed = record r { workers = workers; worker_names = actor_name r ∷ [] } in
        elim (validate_worker_placement a placed) [
          | err problem ↦ undo_worker w placed worker problem
          | ok _ ↦ some (ok tt, placed)
        ]
  ]
]

unfoldable pub create_workers_from_claims :
    Remote
    → World
    → Replica
    → BorrowedSpec
    → ℕ
    → List String
    → Option (Result RuntimeError (Unit {0}) × Replica)
unfolding validate_placement place_worker
create_workers_from_claims a w r spec replica_rank groups =
    elim (validate_placement r spec replica_rank) [
      | err problem ↦ some (err problem, r)
      | ok claim ↦
          if groups == claim.claim.pg_id ∷ []
          then (if a.master_found
              then place_worker a w (planned r claim)
              else some (err remote_failure, planned r claim))
          else some (err foreign_groups, planned r claim)
    ]

abbrev pub first_server : List ℕ → Option ℕ
first_server [] = none
first_server (server ∷ servers) = some server

abbrev pub expected_node : List RankedClaim → Result RuntimeError String
expected_node [] = err bad_health
expected_node (c ∷ cs) = ok c.claim.node_id

unfoldable pub validate_server_runtime : Remote → Replica → Result RuntimeError Health
unfolding worker_placements
validate_server_runtime a r = do
  require (r.nnodes == 1) several_servers
  require (length r.servers == 1) several_servers
  health ← elim a.health [ none ↦ err remote_failure | some health ↦ ok health ]
  require (health.replica_rank == some r.replica_rank) bad_health
  require health.has_address bad_health
  require (r.server_handle == first_server r.servers) bad_health
  require (elim r.server_address [ none ↦ false | some address ↦ nonempty address ]) bad_health
  elim r.replica_kind [
    | borrowed ↦ (do
      node ← expected_node r.placement_claims
      require (health.node_id == some node) wrong_node
      ok health)
    | native_replica ↦ (do
      require (if is_nil r.workers then false else true) worker_count
      placement ← worker_placements a r
      require (health.node_id == placement.node_id) mixed_nodes
      ok health)
  ]

-- what `init_from_lease` returns with the state RUNTIME_READY
pub record Receipt : Type 0 where
  pub replica_rank : ℕ
  pub server_address : Option String

-- `launch_servers`
abbrev pub launched : Remote → Replica → Replica
launched a r = record r {
  servers = a.launched_servers;
  server_handle = first_server a.launched_servers;
  server_address = a.launched_address;
}

-- the calls behind a created worker
unfoldable pub launch : Remote → Replica → Result RuntimeError Receipt × Replica
unfolding validate_server_runtime
launch a r = (
  do
    require a.launched remote_failure
    _ ← validate_server_runtime a (launched a r)
    ok (record { replica_rank = r.replica_rank; server_address = a.launched_address }),
  launched a r,
)

-- a failed creation is cleaned up; it fails with its own error only if that was verified
unfoldable pub abandon :
    World → World → Replica → RuntimeError → Option (Result RuntimeError Receipt × Replica)
unfolding cleanup_borrowed_runtime
abandon w v r problem = elim (cleanup_borrowed_runtime w v r) [
  | none ↦ none
  | some (err _, after) ↦ some (err cleanup_unverified, after)
  | some (ok _, after) ↦ some (err problem, after)
]

-- `init_from_lease`, with the worlds that the three waits of its failure paths see
unfoldable pub init_from_lease :
    Remote
    → World
    → World
    → World
    → Replica
    → BorrowedSpec
    → ℕ
    → List String
    → Option (Result RuntimeError Receipt × Replica)
unfolding create_workers_from_claims launch abandon
init_from_lease a u w v r spec replica_rank groups =
    elim (create_workers_from_claims a u (record r { nnodes = 1; cleanup_verified = false }) spec
      replica_rank groups) [
        | none ↦ none
        | some (err problem, after) ↦ abandon w v after problem
        | some (ok _, after) ↦
            (let (call, ready) = launch a after in
              elim call [
                | err problem ↦ abandon w v ready problem
                | ok receipt ↦ some (ok receipt, ready)
              ])
      ]
