-- ===== src/LoadBalancer/Ledger/Routes.antt =====
-- The request ledger under publication, draining and removal (load_balancer.py).
use verl_multi_task.Common.{
  ℕ, String, refl, inl, inr, some, List, [], ◌∷◌, ◌==◌, string_key, option_key, arith, Bool-cases,
  Option-cases,
}
use verl_multi_task.Common.Dict
use verl_multi_task.Common.Dict.{Dict, Members}
use verl_multi_task.Contracts.{ReplicaKey, replica_key_key, terminated, attempt_state_key}
use verl_multi_task.LoadBalancer.{NativeRouter, LoadBalancer}
use verl_multi_task.LoadBalancer.Requests.{settle}
use verl_multi_task.LoadBalancer.Routes.{
  commit_ready, publish, begin_drain, close_admission, finish_remove, settle_terminated, end_drain,
  remove_route, has_unsettled_requests, requests_for_server,
}
use verl_multi_task.LoadBalancer.Ledger.{Inv, settle-Inv}
use verl_multi_task.LoadBalancer.Ledger.Eviction.{gc-Inv}
use verl_multi_task.LoadBalancer.Ledger.Requests.{SameRequests-Inv}

module _ {n : NativeRouter} where
  pub commit_ready-Inv :
      (b : LoadBalancer n) (time : ℕ) (key : ReplicaKey) (server : String) (handle : n.Handle)
      (o : String)
      → Inv b
      → Inv (commit_ready b time key server handle o).1
  unfolding commit_ready publish
  commit_ready-Inv b time key server handle o v =
      SameRequests-Inv {b = b}
        (record {
          attempts = ground arith;
          active = ground arith;
          proofs = ground arith;
          settled_count = ground arith;
        })
        v

  pub begin_drain-Inv :
      (b : LoadBalancer n) (key : ReplicaKey) (o : String) → Inv b → Inv (begin_drain b key o).1
  unfolding begin_drain close_admission
  begin_drain-Inv b key o v =
      SameRequests-Inv {b = b}
        (record {
          attempts = ground arith;
          active = ground arith;
          proofs = ground arith;
          settled_count = ground arith;
        })
        v

  pub settle_terminated-Inv :
      (b : LoadBalancer n) (rs : List String) → Inv b → Inv (settle_terminated b rs)
  unfolding settle_terminated
  settle_terminated-Inv b [] v = v
  settle_terminated-Inv b (r ∷ rs) v =
      elim (Bool-cases (Dict.get b.attempt_state r == some terminated)) [
        | inl over ↦
            rw over (settle_terminated-Inv (settle b r) rs (settle-Inv b r v (ground arith)))
        | inr other ↦ rw other (settle_terminated-Inv b rs v)
      ]

  pub end_drain-Inv : (b : LoadBalancer n) (server : String) → Inv b → Inv (end_drain b server)
  unfolding end_drain
  end_drain-Inv b server v =
      SameRequests-Inv {b = b}
        (record {
          attempts = ground arith;
          active = ground arith;
          proofs = ground arith;
          settled_count = ground arith;
        })
        v

  pub remove_route-Inv : (b : LoadBalancer n) (key : ReplicaKey) → Inv b → Inv (remove_route b key)
  unfolding remove_route
  remove_route-Inv b key v =
      SameRequests-Inv {b = b}
        (record { attempts = refl; active = refl; proofs = refl; settled_count = refl }) v

  pub finish_remove-Inv :
      (b : LoadBalancer n) (key : ReplicaKey) → Inv b → Inv (finish_remove b key).1
  unfolding finish_remove
  finish_remove-Inv b key v = elim (Option-cases (Dict.get b.routes key)) [
    | inl gone ↦ rw (gone, finish_remove) v
    | inr (server, routed) ↦
        rw (routed, finish_remove)
          (elim (Bool-cases (has_unsettled_requests b server)) [
            | inl busy ↦ rw busy v
            | inr quiet ↦ rw quiet (
                remove_route-Inv _ key (
                  gc-Inv _ (
                    end_drain-Inv _ server
                      (settle_terminated-Inv b (requests_for_server b server) v))))
          ])
  ]

-- The calls that change a balancer.
