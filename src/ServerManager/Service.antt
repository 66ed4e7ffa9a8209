-- ===== src/ServerManager/Service.antt =====
-- The native active-service lists: which runtimes serve (llm_server_manager.py).
use verl_multi_task.Common.{
  ℕ, zero, suc, String, Bool, true, false, Option, none, some, List, [], ◌∷◌, ◌++◌, ◌==◌,
  if◌then◌else◌, nonempty, is_some, elem, Result, ok, err, ◌>>=◌, ◌>>◌, require, nat_key,
  string_key, option_key,
}
use verl_multi_task.Common.Dict
use verl_multi_task.Contracts.{ReplicaKey, replica_key_key}
use verl_multi_task.ServerManager.{
  ServerManager, Runtime, ManagerError, unknown_replica, not_routable, inconsistent_service,
  Outcome,
}

abbrev pub next : Option ℕ → Option ℕ
next none = none
next (some i) = some (suc i)

-- `xs.index(x) if x in xs else None`
unfoldable pub index_of : String → List String → Option ℕ
index_of x [] = none
index_of x (y ∷ ys) = let rest = next (index_of x ys) in if x == y then some 0 else rest

module _ {A : Type 0} where
  abbrev pub item : List A → ℕ → Option A
  item [] i = none
  item (x ∷ xs) zero = some x
  item (x ∷ xs) (suc i) = item xs i

  -- `xs.pop(i)`
  abbrev pub pop_at : List A → ℕ → List A
  pop_at [] i = []
  pop_at (x ∷ xs) zero = xs
  pop_at (x ∷ xs) (suc i) = x ∷ pop_at xs i

-- `xs.remove(x)`: the first occurrence
unfoldable pub remove_first : List ℕ → ℕ → List ℕ
remove_first [] x = []
remove_first (y ∷ ys) x = let rest = remove_first ys x in if y == x then ys else y ∷ rest

-- the position of a runtime's address
abbrev pub position : List String → Option String → Option ℕ
position addresses none = none
position addresses (some address) = index_of address addresses

abbrev pub is_routable : Runtime → Bool
is_routable runtime = elim runtime.server_address [
  | none ↦ false
  | some address ↦ if nonempty address then is_some runtime.server_handle else false
]

unfoldable pub service_slot :
    ServerManager → ReplicaKey → Bool → Result ManagerError (Runtime × Option ℕ)
unfolding index_of
service_slot m key require_route = do
  runtime ← elim (Dict.get m.runtime_inventory key) [
    | none ↦ err unknown_replica
    | some runtime ↦ ok runtime
  ]
  require (if require_route then is_routable runtime else true) not_routable
  require
      (elim (position m.server_addresses runtime.server_address) [
        | none ↦ true
        | some i ↦ elim (item m.server_handles i) [
          | none ↦ false
          | some handle ↦ some handle == runtime.server_handle
        ]
      ])
      inconsistent_service
  ok (runtime, position m.server_addresses runtime.server_address)

abbrev pub popped : ServerManager → Option ℕ → ServerManager
popped m none = m
popped m (some i) = record m {
  server_addresses = pop_at m.server_addresses i;
  server_handles = pop_at m.server_handles i;
}

unfoldable pub deactivate_service : ServerManager → ReplicaKey → Outcome Runtime
unfolding service_slot remove_first
deactivate_service m key = elim (service_slot m key false) [
  | err problem ↦ (err problem, m)
  | ok slot ↦ (
    ok slot.0,
    popped (record m { rollout_replicas = remove_first m.rollout_replicas slot.0.id }) slot.1,
  )
]

abbrev pub appended : ServerManager → Runtime → Option ℕ → ServerManager
appended m runtime (some i) = m
appended m runtime none = elim runtime.server_address [
  | none ↦ m
  | some address ↦ elim runtime.server_handle [
    | none ↦ m
    | some handle ↦ record m {
      server_addresses = m.server_addresses ++ address ∷ [];
      server_handles = m.server_handles ++ handle ∷ [];
    }
  ]
]

-- A routable runtime has an address and a handle, so `appended` appends both.
unfoldable pub activate_service : ServerManager → ReplicaKey → Outcome Runtime
unfolding service_slot
activate_service m key = elim (service_slot m key true) [
  | err problem ↦ (err problem, m)
  | ok slot ↦ (
    ok slot.0,
    appended
        (if elem slot.0.id m.rollout_replicas
          then m
          else record m { rollout_replicas = m.rollout_replicas ++ slot.0.id ∷ [] })
        slot.0 slot.1,
  )
]
