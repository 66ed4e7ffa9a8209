-- ===== src/LoadBalancer/Routes.antt =====
-- Publishing a server, closing its admission and removing its route (load_balancer.py).
use verl_multi_task.Common.{
  ℕ, String, Bool, true, false, Option, none, some, List, [], ◌∷◌, ◌==◌, if◌then◌else◌, nonempty,
  is_some, is_nil, Result, ok, err, ◌>>◌, require, string_key, option_key,
}
use verl_multi_task.Common.Dict
use verl_multi_task.Common.Dict.{Dict}
use verl_multi_task.Contracts.{
  ReplicaKey, replica_key_key, AttemptState, terminated, attempt_state_key, OperationEvidence,
  service_committed, evidence_now,
}
use verl_multi_task.LoadBalancer.{
  NativeRouter, LoadBalancer, Outcome, Ready, BalancerError, empty_server_id, empty_operation_id,
  conflicting_ready, ledger_disagrees, key_routed_elsewhere, server_has_other_handle,
  key_published_by_other, server_owned_by_other, unknown_replica, draining_elsewhere,
  requests_admitted, bad_evidence,
}
use verl_multi_task.LoadBalancer.Requests.{is_admitted, settle, gc_settled_requests}

-- the loop over the operations that published a server
unfoldable pub check_ready :
    ReplicaKey → String → String → Dict String Ready → Result BalancerError (Unit {0})
check_ready key server operation_id [] = ok tt
check_ready key server operation_id ((operation, r) ∷ rest) = do
  require (if r.key == key then operation == operation_id else true) key_published_by_other
  require (if r.server_id == server then r.key == key else true) server_owned_by_other
  check_ready key server operation_id rest

-- `[r for r, s in active_request_server.items() if s == server_id]`
unfoldable pub requests_on : String → Dict String String → List String
requests_on server [] = []
requests_on server ((r, s) ∷ rest) =
    let more = requests_on server rest in if s == server then r ∷ more else more

unfoldable pub any_admitted : Dict String AttemptState → List String → Bool
any_admitted attempts [] = false
any_admitted attempts (r ∷ rs) =
    if is_admitted (Dict.get attempts r) then true else any_admitted attempts rs

-- the entries of `ready_operations` that are not of the key
unfoldable pub without_key : ReplicaKey → Dict String Ready → Dict String Ready
without_key key [] = []
without_key key ((o, r) ∷ rest) =
    let more = without_key key rest in if r.key == key then more else (o, r) ∷ more

module _ {n : NativeRouter} where
  unfoldable pub requests_for_server : LoadBalancer n → String → List String
  unfolding requests_on
  requests_for_server b server = requests_on server b.active_request_server

  unfoldable pub has_unsettled_requests : LoadBalancer n → String → Bool
  unfolding any_admitted requests_for_server
  has_unsettled_requests b server = any_admitted b.attempt_state (requests_for_server b server)

  unfoldable pub is_service_restore_pending : LoadBalancer n → Bool
  is_service_restore_pending b =
      if b.awaiting_service_restore then is_nil (n.servers b.native) else false

  unfoldable pub server_for_replica : LoadBalancer n → ReplicaKey → Option String
  server_for_replica b key = Dict.get b.routes key

  unfoldable pub query_ready_operation :
      LoadBalancer n → String → Result BalancerError (Option OperationEvidence)
  query_ready_operation b operation_id =
      if nonempty operation_id
      then ok (elim (Dict.get b.ready_operations operation_id) [
        | none ↦ none
        | some r ↦ some r.evidence
      ])
      else err empty_operation_id

  -- the checks of an operation that did not publish yet
  unfoldable pub check_publish :
      LoadBalancer n → ReplicaKey → String → n.Handle → String → Result BalancerError (Unit {0})
  unfolding check_ready
  check_publish b key server handle operation_id = do
    require (elim (Dict.get b.routes key) [ none ↦ true | some other ↦ other == server ])
        key_routed_elsewhere
    require
        (elim (Dict.get (n.servers b.native) server) [
          | none ↦ true
          | some other ↦ ◌==◌ ⦃k = n.handle_key⦄ other handle
        ])
        server_has_other_handle
    check_ready key server operation_id b.ready_operations

  unfoldable pub publish :
      LoadBalancer n → ℕ → ReplicaKey → String → n.Handle → String → Outcome n OperationEvidence
  publish b time key server handle operation_id =
      let c = record b {
        native = n.add_server b.native server handle;
        awaiting_service_restore = false;
        routes = Dict.put b.routes key server;
      } in
      elim (evidence_now time operation_id service_committed []) [
        | err e ↦ (err (bad_evidence e), c)
        | ok evidence ↦ (
          ok evidence,
          record c {
            ready_operations =
                Dict.put c.ready_operations operation_id
                  (record { key = key; server_id = server; evidence = evidence });
          },
        )
      ]

  -- the answer to an operation that published before
  unfoldable pub republish :
      LoadBalancer n → ReplicaKey → String → Ready → Result BalancerError OperationEvidence
  republish b key server previous = do
    require (previous.key == key) conflicting_ready
    require (previous.server_id == server) conflicting_ready
    require (Dict.get b.routes key == some server) ledger_disagrees
    require (is_some (Dict.get (n.servers b.native) server)) ledger_disagrees
    ok previous.evidence

  unfoldable pub commit_ready :
      LoadBalancer n → ℕ → ReplicaKey → String → n.Handle → String → Outcome n OperationEvidence
  unfolding check_publish publish republish
  commit_ready b time key server handle operation_id =
      if nonempty server
      then (if nonempty operation_id
          then elim (Dict.get b.ready_operations operation_id) [
            | some previous ↦ (republish b key server previous, b)
            | none ↦ elim (check_publish b key server handle operation_id) [
              | err e ↦ (err e, b)
              | ok _ ↦ publish b time key server handle operation_id
            ]
          ]
          else (err empty_operation_id, b))
      else (err empty_server_id, b)

  unfoldable pub close_admission : LoadBalancer n → String → String → LoadBalancer n
  close_admission b server operation_id =
      let native = n.remove_server b.native server in
      record b {
        native = native;
        draining_operations = Dict.put b.draining_operations server operation_id;
        awaiting_service_restore =
            (if is_nil (n.servers native) then true else b.awaiting_service_restore);
      }

  unfoldable pub begin_drain : LoadBalancer n → ReplicaKey → String → Outcome n String
  unfolding close_admission
  begin_drain b key operation_id =
      if nonempty operation_id
      then elim (Dict.get b.routes key) [
        | none ↦ (err unknown_replica, b)
        | some server ↦
            if (elim (Dict.get b.draining_operations server) [
              | none ↦ true
              | some other ↦ other == operation_id
            ])
            then (ok server, close_admission b server operation_id)
            else (err draining_elsewhere, b)
      ]
      else (err empty_operation_id, b)

  -- the loop that settles the terminated requests of a removed server
  unfoldable pub settle_terminated : LoadBalancer n → List String → LoadBalancer n
  unfolding settle
  settle_terminated b [] = b
  settle_terminated b (r ∷ rs) =
      settle_terminated (if Dict.get b.attempt_state r == some terminated then settle b r else b) rs

  -- the drain's entry, and the handoffs observed under it
  unfoldable pub end_drain : LoadBalancer n → String → LoadBalancer n
  end_drain b server = elim (Dict.get b.draining_operations server) [
    | none ↦ record b {
      native = n.remove_server b.native server;
      draining_operations = Dict.remove b.draining_operations server;
    }
    | some operation_id ↦ record b {
      native = n.remove_server b.native server;
      draining_operations = Dict.remove b.draining_operations server;
      continuation_handoffs = Dict.remove b.continuation_handoffs operation_id;
    }
  ]

  unfoldable pub remove_route : LoadBalancer n → ReplicaKey → LoadBalancer n
  unfolding without_key
  remove_route b key = record b {
    routes = Dict.remove b.routes key;
    ready_operations = without_key key b.ready_operations;
  }

  unfoldable pub finish_remove : LoadBalancer n → ReplicaKey → Outcome n (Unit {0})
  unfolding has_unsettled_requests settle_terminated end_drain gc_settled_requests remove_route
  finish_remove b key = elim (Dict.get b.routes key) [
    | none ↦ (ok tt, b)
    | some server ↦
        if has_unsettled_requests b server
        then (err requests_admitted, b)
        else (let c = settle_terminated b (requests_for_server b server) in
            (ok tt, remove_route (gc_settled_requests (end_drain c server)) key))
  ]
