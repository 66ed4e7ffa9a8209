-- ===== src/Replica.antt =====
-- src/multi_task_scheduler/rollout/replica.py: the runtime of one replica, and the proof that a
-- borrowed one is gone. Ray's answers are arguments: the states of the actors at every poll, and
-- the readings of the event loop's clock, in milliseconds.
pub mod Waiting
pub mod Cleanup
pub mod Creation
pub mod Residency
mod Examples
use Prim.Native.Nat.{◌/◌}
use verl_multi_task.Common.{
  ℕ, zero, suc, ◌+◌, ◌≤◌, String, ◌≡◌, Bool, true, false, Option, none, some, List, [], ◌∷◌, Key,
  ◌==◌, if◌then◌else◌, is_nil, leb, Result, ok, err, ◌>>=◌, ◌>>◌, require,
}
use verl_multi_task.TaskRunner.Lifecycle.{RankedClaim}
use verl_multi_task.Contracts.{ReplicaKind, native_replica, borrowed, replica_kind_key}

pub data RuntimeError : Type 0 where
  not_dead_in_time states_unavailable no_names_for_proof not_borrowed cleanup_unverified :
      RuntimeError
  wrong_rank wrong_epoch bad_lease several_claims ranked_claim foreign_groups : RuntimeError
  worker_count wrong_node wrong_gpu remote_failure several_servers bad_health : RuntimeError
  mixed_nodes not_native unsupported_resource wrong_sleep wrong_wake : RuntimeError

pub data ActorState : Type 0 where
  dead alive : ActorState

-- What the waiting loop sees. A poll is numbered from 0; `states` is what `list_actors` answers for a
-- name then (`none` when the call raises), `clock` what `loop.time()` reads after it.
pub record World : Type 0 where
  pub states : ℕ → String → Option (List ActorState)
  pub started_at : ℕ
  pub clock : ℕ → ℕ

abbrev pub all_dead : List ActorState → Bool
all_dead [] = true
all_dead (dead ∷ rest) = all_dead rest
all_dead (alive ∷ rest) = false

-- absence is not a death certificate
abbrev pub proves_death : List ActorState → Bool
proves_death states = if is_nil states then false else all_dead states

unfoldable pub non_dead_actor_names : World → ℕ → List String → Result RuntimeError (List String)
non_dead_actor_names w poll [] = ok []
non_dead_actor_names w poll (name ∷ names) = do
  states ← elim (w.states poll name) [ none ↦ err states_unavailable | some s ↦ ok s ]
  rest ← non_dead_actor_names w poll names
  ok (if proves_death states then rest else name ∷ rest)

-- The loop from a poll on; `none` when the fuel runs out first.
unfoldable pub poll_until_dead :
    ℕ → World → ℕ → List String → ℕ → Option (Result RuntimeError (Unit {0}))
unfolding non_dead_actor_names
poll_until_dead zero w deadline names poll = none
poll_until_dead (suc fuel) w deadline names poll =
    let rest = poll_until_dead fuel w deadline names (suc poll) in
    elim (non_dead_actor_names w poll names) [
      | err problem ↦ some (err problem)
      | ok active ↦
          if is_nil active
          then some (ok tt)
          else (if leb deadline (w.clock poll) then some (err not_dead_in_time) else rest)
    ]

-- a bound on the number of polls within a time: two polls are 100 ms apart
abbrev pub polls_within : ℕ → ℕ
polls_within timeout = suc (timeout / 100)

-- `timeout_s=10.0`
abbrev pub timeout : ℕ
timeout = 10000

unfoldable pub wait_actor_names_dead : World → List String → Option (Result RuntimeError (Unit {0}))
unfolding poll_until_dead
wait_actor_names_dead w [] = some (ok tt)
wait_actor_names_dead w (name ∷ names) =
    poll_until_dead (polls_within timeout) w (w.started_at + timeout) (name ∷ names) 0

-- Actor handles are numbers; the server handle is that of the primary server.
pub record Replica : Type 0 where
  pub replica_kind : ReplicaKind
  pub replica_rank : ℕ
  pub runtime_epoch : ℕ
  pub world_size : ℕ
  pub nnodes : ℕ
  pub name_suffix : String
  -- verl's `_get_server_name_prefix()`
  pub server_name_prefix : String
  pub placement_claims : List RankedClaim
  pub servers : List ℕ
  pub server_handle : Option ℕ
  pub server_address : Option String
  pub server_names : List String
  pub workers : List ℕ
  pub worker_names : List String
  pub cleanup_verified : Bool

-- `_kill_workers_verified`: whether Ray acknowledges the kills does not matter
unfoldable pub kill_workers_verified :
    World → List ℕ → List String → Option (Result RuntimeError (Unit {0}))
unfolding wait_actor_names_dead
kill_workers_verified w workers names =
    if (if is_nil workers then false else is_nil names)
    then some (err no_names_for_proof)
    else wait_actor_names_dead w names

-- `_shutdown_servers_verified`, without its writes; neither the shutdown calls nor the kills are proof
unfoldable pub servers_dead : World → Replica → Option (Result RuntimeError (Unit {0}))
unfolding wait_actor_names_dead
servers_dead w r =
    if (if is_nil r.servers then false else is_nil r.server_names)
    then some (err no_names_for_proof)
    else wait_actor_names_dead w r.server_names

unfoldable pub shutdown_servers_verified :
    World → Replica → Option (Result RuntimeError (Unit {0}) × Replica)
unfolding servers_dead
shutdown_servers_verified w r = elim (servers_dead w r) [
  | none ↦ none
  | some (err problem) ↦ some (err problem, r)
  | some (ok _) ↦
      some (ok tt, record r { servers = []; server_handle = none; server_address = none })
]

abbrev pub returned : Result RuntimeError (Unit {0}) → Bool
returned (err problem) = false
returned (ok _) = true

-- the workers' part: their handles are dropped only with the proof
unfoldable pub kill_workers : World → Replica → Option (Bool × Replica)
unfolding kill_workers_verified
kill_workers w r = elim (kill_workers_verified w r.workers r.worker_names) [
  | none ↦ none
  | some (err problem) ↦ some (false, r)
  | some (ok _) ↦ some (true, record r { workers = [] })
]

-- `cleanup_borrowed_runtime`, with the worlds that its two waits see
unfoldable pub cleanup_borrowed_runtime :
    World → World → Replica → Option (Result RuntimeError (Unit {0}) × Replica)
unfolding shutdown_servers_verified kill_workers
cleanup_borrowed_runtime w v r =
    if r.replica_kind == borrowed
    then elim (shutdown_servers_verified w (record r { cleanup_verified = false })) [
      | none ↦ none
      | some (servers, s) ↦ elim (kill_workers v s) [
        | none ↦ none
        | some (workers, t) ↦ some (
            if (if returned servers then workers else false)
            then (ok tt, record t { cleanup_verified = true })
            else (err cleanup_unverified, t))
      ]
    ]
    else some (err not_borrowed, r)
