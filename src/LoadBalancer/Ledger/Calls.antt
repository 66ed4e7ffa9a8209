-- ===== src/LoadBalancer/Ledger/Calls.antt =====
-- The request ledger over a history of calls (load_balancer.py).
use verl_multi_task.Common.{
  ℕ, String, ◌≡◌, refl, Option, List, [], ◌∷◌, ok, string_key, option_key, arith,
}
use verl_multi_task.Common.Dict
use verl_multi_task.Common.Dict.{Dict, Members}
use verl_multi_task.Common.Dict.Counting.{count}
use verl_multi_task.Contracts.{ReplicaKey, replica_key_key, attempt_state_key}
use verl_multi_task.LoadBalancer.{NativeRouter, LoadBalancer, create}
use verl_multi_task.LoadBalancer.Requests.{acquire_server, release_server, confirm_continuation}
use verl_multi_task.LoadBalancer.Routes.{commit_ready, begin_drain, finish_remove}
use verl_multi_task.LoadBalancer.Ledger.{Inv}
use verl_multi_task.LoadBalancer.Ledger.Requests.{
  acquire_server-Inv, release_server-Inv, confirm_continuation-Inv,
}
use verl_multi_task.LoadBalancer.Ledger.Routes.{
  commit_ready-Inv, begin_drain-Inv, finish_remove-Inv,
}

pub data Call (n : NativeRouter) : Type 0 where
  acquires : String → Call n
  releases : String → Option String → Call n
  confirms : ℕ → String → String → String → Call n
  commits : ℕ → ReplicaKey → String → n.Handle → String → Call n
  drains : ReplicaKey → String → Call n
  removes : ReplicaKey → Call n

unfoldable pub serve : {n : NativeRouter} → LoadBalancer n → Call n → LoadBalancer n
serve b (acquires r) = (acquire_server b r).1
serve b (releases server r) = (release_server b server r).1
serve b (confirms time r client digest) = (confirm_continuation b time r client digest).1
serve b (commits time key server handle o) = (commit_ready b time key server handle o).1
serve b (drains key o) = (begin_drain b key o).1
serve b (removes key) = (finish_remove b key).1

unfoldable pub run : {n : NativeRouter} → LoadBalancer n → List (Call n) → LoadBalancer n
run b [] = b
run b (c ∷ cs) = run (serve b c) cs

module _ {n : NativeRouter} where
  serve-Inv : (b : LoadBalancer n) (c : Call n) → Inv b → Inv (serve b c)
  unfolding serve
  serve-Inv b (acquires r) v = acquire_server-Inv b r v
  serve-Inv b (releases server r) v = release_server-Inv b server r v
  serve-Inv b (confirms time r client digest) v = confirm_continuation-Inv b time r client digest v
  serve-Inv b (commits time key server h o) v = commit_ready-Inv b time key server h o v
  serve-Inv b (drains key o) v = begin_drain-Inv b key o v
  serve-Inv b (removes key) v = finish_remove-Inv b key v

  run-Inv : (b : LoadBalancer n) (cs : List (Call n)) → Inv b → Inv (run b cs)
  unfolding run
  run-Inv b [] v = v
  run-Inv b (c ∷ cs) v = run-Inv (serve b c) cs (serve-Inv b c v)

  create-Inv :
      (native : n.State) (routes : List (ReplicaKey × String)) (b : LoadBalancer n)
      → create n native routes ≡ ok b
      → Inv b
  unfolding create count Dict.get
  create-Inv native routes b h =
      let attempts : b.attempt_state ≡ [] = ground arith in
      let active : b.active_request_server ≡ [] = ground arith in
      let proofs : b.continuation_proofs ≡ [] = ground arith in
      record {
        unique = rw attempts tt;
        counted = ground arith;
        served = λ r. rw (attempts, active) refl;
        proven = λ r k. cc (k, proofs);
        terminated_proven = λ r k. cc (k, attempts);
      }

-- Whatever calls a new balancer serves, its settled counter equals the number of settled requests in
-- its ledger, a request has a server exactly while it is admitted or terminated, and each terminated
-- request has a continuation proof.
pub run-create-Inv :
    (n : NativeRouter) (native : n.State) (routes : List (ReplicaKey × String)) (b : LoadBalancer n)
    (cs : List (Call n))
    → create n native routes ≡ ok b
    → Inv (run b cs)
run-create-Inv n native routes b cs h = run-Inv b cs (create-Inv native routes b h)
