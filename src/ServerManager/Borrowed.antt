-- ===== src/ServerManager/Borrowed.antt =====
-- The creation of a borrowed replica (llm_server_manager.py). `create_borrowed_replica` is split at its
-- awaits: `create_begin` is its first block under the lock, `run_creation` what happens outside the
-- lock, `create_end` its last block under the lock. A claim's optional pg_namespace is left out.
pub mod Landing
use verl_multi_task.Common.{
  ℕ, suc, ◌+◌, String, ◌≡◌, Bool, true, false, Option, none, some, List, [], ◌∷◌, map, ◌==◌, ℤ, pos,
  if◌then◌else◌, nonempty, is_some, is_nil, elem, leb, ltb, length, Result, ok, err, ◌>>=◌, ◌>>◌,
  require, nat_key, string_key, option_key,
}
use verl_multi_task.Common.Dict
use verl_multi_task.Common.Dict.{Dict}
use verl_multi_task.Contracts.{
  ReplicaKey, replica_key_key, ReplicaKind, borrowed, ReplicaState, creating, released, quarantined,
}
use verl_multi_task.Contracts.Lease.{at_tick, make_lease, raw_claim}
use verl_multi_task.TaskRunner.Lifecycle.{RankedClaim, BorrowedSpec}
use verl_multi_task.Replica.{World, Replica, cleanup_borrowed_runtime}
use verl_multi_task.Replica.Creation
use verl_multi_task.Replica.Creation.{Receipt, init_from_lease}
use verl_multi_task.ServerManager.{
  ServerManager, BorrowedOperation, Created, Runtime, ManagerError, Outcome, borrowed_spec_key,
  replica_state_key, register_replica, transition_replica, empty_field, other_session,
  unsupported_parallelism, several_claims, expired, ranked_claim, bad_lease, bad_placement_group,
  conflicting_create, create_failed, in_progress, already_registered, runtime_failure,
}

-- the configured tensor, data and pipeline parallelism
pub record Parallelism : Type 0 where
  pub tensor : ℕ
  pub data_parallel : ℕ
  pub pipeline : ℕ

abbrev pub only_claim : List RankedClaim → Result ManagerError RankedClaim
only_claim (claim ∷ []) = ok claim
only_claim [] = err empty_field
only_claim (claim ∷ other ∷ claims) = err several_claims

-- `now` is a reading of `time.time()`, in the ticks of the lease
unfoldable pub validate_borrowed_spec :
    ServerManager → Parallelism → ℕ → BorrowedSpec → Result ManagerError BorrowedSpec
validate_borrowed_spec m p now spec = do
  require (nonempty spec.operation_id) empty_field
  require (nonempty spec.lease_id) empty_field
  require (nonempty spec.borrower_task_id) empty_field
  require (nonempty spec.borrower_replica_id) empty_field
  require (if nonempty m.task_session then spec.borrower_task_id == m.task_session else true)
      other_session
  require (if is_nil spec.claims then false else true) empty_field
  require (p.tensor == 1) unsupported_parallelism
  require (p.data_parallel == 1) unsupported_parallelism
  require (p.pipeline == 1) unsupported_parallelism
  claim ← only_claim spec.claims
  lease ←
      elim (make_lease spec.lease_id (raw_claim claim.claim ∷ []) (at_tick (pos spec.expires_at))) [
        | err _ ↦ err bad_lease
        | ok lease ↦ ok lease
      ]
  require (if lease.expires_at == 0 then true else ltb now lease.expires_at) expired
  require (claim.rank == 0) ranked_claim
  require (claim.node_rank == 0) ranked_claim
  require (claim.local_rank == 0) ranked_claim
  ok (record spec { claims = claim ∷ [] })

-- what Ray's table and `get_placement_group` say
pub record GroupInfo : Type 0 where
  pub is_created : Bool
  pub bundles : List ℕ
  pub bundle_nodes : Dict ℕ String
  pub name : Option String

pub record Groups : Type 0 where
  pub table : Dict String GroupInfo
  -- the id and the number of bundles of the group with a name
  pub named : String → Option (String × ℕ)

unfoldable pub resolve_placement_groups : Groups → List RankedClaim → Result ManagerError String
resolve_placement_groups groups claims = do
  claim ← only_claim claims
  info ← elim (Dict.get groups.table claim.claim.pg_id) [
    | none ↦ err bad_placement_group
    | some i ↦ ok i
  ]
  require info.is_created bad_placement_group
  require (elem claim.claim.bundle_index info.bundles) bad_placement_group
  require (Dict.get info.bundle_nodes claim.claim.bundle_index == some claim.claim.node_id)
      bad_placement_group
  name ← elim info.name [ none ↦ err bad_placement_group | some name ↦ ok name ]
  require (nonempty name) bad_placement_group
  group ← elim (groups.named name) [ none ↦ err bad_placement_group | some group ↦ ok group ]
  require (group.0 == claim.claim.pg_id) bad_placement_group
  require (ltb claim.claim.bundle_index group.1) bad_placement_group
  ok claim.claim.pg_id

abbrev pub borrowed_key : BorrowedSpec → ReplicaKey
borrowed_key spec = record {
  task_session = spec.borrower_task_id;
  replica_id = spec.borrower_replica_id;
  runtime_epoch = spec.placement_epoch;
}

-- a create whose lease is known
unfoldable pub replay_create : BorrowedOperation → BorrowedSpec → Result ManagerError Created
replay_create existing spec = do
  require (existing.resolved_spec == spec) conflicting_create
  require (if is_some existing.error then false else true) create_failed
  elim existing.result [ none ↦ err in_progress | some result ↦ ok result ]

pub data Begun : Type 0 where
  replayed : (result : Created) → Begun
  started : (key : ReplicaKey) (rank : ℕ) → Begun

unfoldable pub create_begin : ServerManager → BorrowedSpec → Outcome Begun
unfolding replay_create
create_begin m spec = elim (Dict.get m.borrowed_operations spec.lease_id) [
  | some existing ↦ (do result ← replay_create existing spec; ok (replayed result), m)
  | none ↦
      if is_some (Dict.get m.replica_state (borrowed_key spec))
      then (err already_registered, m)
      else (let (call, after) =
            register_replica (record m { next_replica_rank = suc m.next_replica_rank })
              (borrowed_key spec) borrowed creating none in
          elim call [
            | err problem ↦ (err problem, after)
            | ok _ ↦ (
              ok (started (borrowed_key spec) m.next_replica_rank),
              record after {
                borrowed_operations = Dict.put after.borrowed_operations spec.lease_id (record {
                  resolved_spec = spec;
                  replica_rank = m.next_replica_rank;
                  error = none;
                  result = none;
                  destroy_evidence = none;
                });
              },
            )
          ])
]

-- how the part outside the lock ends; `verified`: nothing of the runtime is left
pub data Ending : Type 0 where
  made : (runtime : Runtime) (receipt : Receipt) → Ending
  failed : (verified : Bool) → Ending

-- a second clean-up, unless the first one was verified
unfoldable pub clean_again : World → World → Replica → Option Ending
clean_again w v r =
    if r.cleanup_verified then some (failed true) else elim (cleanup_borrowed_runtime w v r) [
      | none ↦ none
      | some (_, after) ↦ some (failed after.cleanup_verified)
    ]

-- What the calls of a creation answer, and the worlds that its waits see: those of the creation and
-- its own clean-up, and those of the second clean-up.
pub record Answers : Type 0 where
  pub groups : Groups
  pub constructed : Bool
  pub creation : Creation.Remote
  pub worker_world : World
  pub first_servers : World
  pub first_workers : World
  pub second_servers : World
  pub second_workers : World

-- `new` is the replica object that is constructed for the claim; `id` its identity
unfoldable pub run_creation : Answers → ℕ → Replica → BorrowedSpec → ℕ → Option Ending
unfolding resolve_placement_groups clean_again
run_creation a id new spec rank = elim (resolve_placement_groups a.groups spec.claims) [
  | err problem ↦ some (failed true)
  | ok group ↦
      if (if a.constructed then false else true)
      then some (failed true)
      else elim (init_from_lease a.creation a.worker_world a.first_servers a.first_workers new spec
          rank (group ∷ [])) [
            | none ↦ none
            | some (err problem, after) ↦ clean_again a.second_servers a.second_workers after
            | some (ok receipt, after) ↦
                if receipt.replica_rank == rank
                then some (
                    made
                      (record {
                        id = id;
                        server_address = after.server_address;
                        server_handle = after.server_handle;
                      })
                      receipt)
                else clean_again a.second_servers a.second_workers after
          ]
]

abbrev pub landing : Bool → ReplicaState
landing true = released
landing false = quarantined

-- the state of a replica whose creation failed
unfoldable pub land : ServerManager → ReplicaKey → Bool → ServerManager
land m key verified =
    if Dict.get m.replica_state key == some creating
    then (transition_replica m key (landing verified)).1
    else m

-- `create_end` for the record `current` of the lease
unfoldable pub create_end_known :
    ServerManager → String → BorrowedOperation → ReplicaKey → Ending → Outcome Created
unfolding land
create_end_known m lease_id current key (made runtime receipt) =
    let result : Created = record {
      operation_id = current.resolved_spec.operation_id;
      lease_id = lease_id;
      replica_rank = current.replica_rank;
      server_address = receipt.server_address;
    } in
    (
      ok result,
      record m {
        borrowed_operations =
            Dict.put m.borrowed_operations lease_id (record current { result = some result });
        runtime_inventory = Dict.put m.runtime_inventory key runtime;
      },
    )
create_end_known m lease_id current key (failed verified) =
    let after = land m key verified in
    (
      err runtime_failure,
      record after {
        borrowed_operations =
            Dict.put after.borrowed_operations lease_id
              (record current { error = some runtime_failure; result = none });
      },
    )

unfoldable pub create_end : ServerManager → String → ReplicaKey → Ending → Outcome Created
unfolding create_end_known
create_end m lease_id key ending = elim (Dict.get m.borrowed_operations lease_id) [
  | none ↦ (err runtime_failure, m)
  | some current ↦ create_end_known m lease_id current key ending
]
