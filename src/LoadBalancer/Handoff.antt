-- ===== src/LoadBalancer/Handoff.antt =====
-- Retries of a client, and the removal of a route (load_balancer.py).
use Prim.Native.Nat.{max, ◌/◌}
use verl_multi_task.Common.{
  ℕ, ◌-◌, String, ◌≡◌, refl, ap, sym, ◌∙◌, ◌⊎◌, inl, inr, true, false, none, some, List, [], ◌∷◌,
  ◌==◌, if◌then◌else◌, nonempty, is_some, ltb, elem, ok, err, string_key, option_key, arith,
  Bool-cases, Option-cases,
}
use verl_multi_task.Common.Dict
use verl_multi_task.Common.Dict.{Dict, Members}
use verl_multi_task.Contracts.{
  ReplicaKey, replica_key_key, AttemptState, terminated, settled, attempt_state_key,
  OperationEvidence,
}
use verl_multi_task.LoadBalancer.{NativeRouter, LoadBalancer, conflicting_proof}
use verl_multi_task.LoadBalancer.Requests.{
  is_unsettled, is_admitted, evict, expired_requests, gc_settled_requests, settle, release_known,
  release_server, terminate, confirm_new, confirm_continuation, drain_of, all_nonempty,
}
use verl_multi_task.LoadBalancer.Routes.{
  finish_remove, settle_terminated, end_drain, requests_for_server, requests_on, any_admitted,
}
use verl_multi_task.LoadBalancer.Ledger.{Inv}

-- a request on a server is among the requests that the server's removal looks at
requests_on-elem :
    (active : Dict String String) (server r : String)
    → Dict.get active r ≡ some server
    → elem r (requests_on server active) ≡ true
unfolding requests_on Dict.get
requests_on-elem [] server r h = cc
requests_on-elem ((q, s) ∷ d) server r h = ground (arith, requests_on-elem d server r)

not_admitted :
    (attempts : Dict String AttemptState) (rs : List String) (r : String)
    → any_admitted attempts rs ≡ false
    → elem r rs ≡ true
    → is_admitted (Dict.get attempts r) ≡ false
unfolding any_admitted
not_admitted attempts [] r h k = cc
not_admitted attempts (q ∷ rs) r h k = ground (arith, not_admitted attempts rs r)

module _ {n : NativeRouter} where
  active-gc :
      (b : LoadBalancer n) → (gc_settled_requests b).active_request_server ≡ b.active_request_server
  unfolding gc_settled_requests evict
  active-gc b = ground arith

  -- the collection keeps an attempt or forgets it
  attempt-gc :
      (b : LoadBalancer n) (r : String)
      → (Dict.get (gc_settled_requests b).attempt_state r ≡ none)
        ⊎ (Dict.get (gc_settled_requests b).attempt_state r ≡ Dict.get b.attempt_state r)
  unfolding gc_settled_requests evict
  attempt-gc b r = elim (Bool-cases (ltb b.settled_retention b.settled_count)) [
    | inr fits ↦ rw fits (inr refl)
    | inl over ↦
        let expired =
          expired_requests b.active_request_server b.attempt_state
            (max (b.settled_count - b.settled_retention) (b.settled_retention / 8)) in
        rw over (ground (arith, Dict.get-remove_all b.attempt_state expired r))
  ]

  -- If the release of a request with a nonempty id returned, releasing it again returns and
  -- changes nothing.
  pub release_twice :
      (b c : LoadBalancer n) (server r : String)
      → nonempty r ≡ true
      → release_server b server (some r) ≡ (ok tt, c)
      → release_server c server (some r) ≡ (ok tt, c)
  unfolding release_server release_known settle
  release_twice b c server r named h =
      elim (Bool-cases (is_unsettled (Dict.get b.attempt_state r))) [
        | inr over ↦ ground arith
        | inl live ↦
            let d : LoadBalancer n =
              settle (record b { native = n.release b.native server (some r) }) r in
            ground (
              arith,
              active-gc d,
              attempt-gc d r,
              Dict.get-put b.attempt_state r r settled,
              Dict.get-remove b.active_request_server r r,
            )
      ]

  confirm_stored :
      (b c : LoadBalancer n) (time : ℕ) (r client digest : String) (e : OperationEvidence)
      → confirm_continuation b time r client digest ≡ (ok e, c)
      → (o : String) × (Dict.get c.continuation_proofs r
          ≡ some (record {
            client_id = client;
            prefix_digest = digest;
            operation_id = o;
            evidence = e;
          }))
  unfolding confirm_continuation confirm_new terminate
  confirm_stored b c time r client digest e h =
      elim (Option-cases (Dict.get b.continuation_proofs r)) [
        | inr (p, known) ↦ (p.operation_id, ground arith)
        | inl new ↦ elim (Option-cases (drain_of b r)) [
          | inl idle ↦ absurd (ground arith)
          | inr (o, draining) ↦ (
            o,
            ground (
              arith,
              Dict.get-put b.continuation_proofs r r (record {
                client_id = client;
                prefix_digest = digest;
                operation_id = o;
                evidence = e;
              }),
            ),
          )
        ]
      ]

  -- After a continuation was confirmed, for nonempty fields: the same client and prefix get the
  -- same evidence again, any other client or prefix is refused, and neither changes anything.
  pub confirm_once :
      (b c : LoadBalancer n) (time later : ℕ) (r client digest client' digest' : String)
      (e : OperationEvidence)
      → all_nonempty r client' digest' ≡ true
      → confirm_continuation b time r client digest ≡ (ok e, c)
      → confirm_continuation c later r client' digest' ≡ (
          if (if client == client' then digest == digest' else false)
          then (ok e, c)
          else (err conflicting_proof, c))
  unfolding confirm_continuation
  confirm_once b c time later r client digest client' digest' e good h =
      let (o, stored) = confirm_stored b c time r client digest e h in ground arith

  -- settling touches only terminated requests
  settle_terminated-active :
      (b : LoadBalancer n) (rs : List String) (r server : String)
      → Dict.get (settle_terminated b rs).active_request_server r ≡ some server
      → (Dict.get b.active_request_server r ≡ some server)
        × (elem r rs ≡ true → ¬ (Dict.get b.attempt_state r ≡ some terminated))
  unfolding settle_terminated
  settle_terminated-active b [] r server h = (h, λ k. absurd (cc))
  settle_terminated-active b (q ∷ rs) r server h =
      elim (Bool-cases (Dict.get b.attempt_state q == some terminated)) [
        | inr other ↦
            let (kept, live) = settle_terminated-active b rs r server (sym (skips other) ∙ h) in
            (kept, λ k t. live (ground arith) t)
        | inl over ↦
            let (kept, live) =
              settle_terminated-active (settle b q) rs r server (sym (settles over) ∙ h) in
            let apart : (q == r) ≡ false =
              unfold settle in ground (arith, Dict.get-remove b.active_request_server q r) in
            (
              unfold settle in ground (arith, Dict.get-remove b.active_request_server q r),
              λ k t.
                  live (ground arith)
                    (unfold settle in ground (arith, Dict.get-put b.attempt_state q r settled)),
            )
      ]
    where
      skips :
          (Dict.get b.attempt_state q == some terminated) ≡ false
          → Dict.get (settle_terminated b (q ∷ rs)).active_request_server r
            ≡ Dict.get (settle_terminated b rs).active_request_server r
      skips other =
          ap
            (λ t.
              Dict.get (settle_terminated (if t then settle b q else b) rs).active_request_server r)
            other

      settles :
          (Dict.get b.attempt_state q == some terminated) ≡ true
          → Dict.get (settle_terminated b (q ∷ rs)).active_request_server r
            ≡ Dict.get (settle_terminated (settle b q) rs).active_request_server r
      settles over =
          ap
            (λ t.
              Dict.get (settle_terminated (if t then settle b q else b) rs).active_request_server r)
            over

  active-end_drain :
      (b : LoadBalancer n) (server : String)
      → (end_drain b server).active_request_server ≡ b.active_request_server
  unfolding end_drain
  active-end_drain b server = ground arith

  finish_remove-quiet :
      (b c : LoadBalancer n) (key : ReplicaKey) (server : String)
      → Dict.get b.routes key ≡ some server
      → finish_remove b key ≡ (ok tt, c)
      → (any_admitted b.attempt_state (requests_for_server b server) ≡ false)
        × (c.active_request_server
            ≡ (settle_terminated b (requests_for_server b server)).active_request_server)
  unfolding finish_remove
  finish_remove-quiet b c key server routed h =
      let d = settle_terminated b (requests_for_server b server) in
      ground (arith, active-end_drain d server, active-gc (end_drain d server))

  -- After `finish_remove` of a well-formed balancer returned for a routed key, no request has
  -- the server of that route any more.
  pub finish_remove_clears :
      (b c : LoadBalancer n) (key : ReplicaKey) (server r : String)
      → Inv b
      → Dict.get b.routes key ≡ some server
      → finish_remove b key ≡ (ok tt, c)
      → ¬ (Dict.get c.active_request_server r ≡ some server)
  unfolding requests_for_server
  finish_remove_clears b c key server r v routed h = λ still.
      let (quiet, same) = finish_remove-quiet b c key server routed h in
      let rs = requests_for_server b server in
      let (kept, live) =
        settle_terminated-active b rs r server
          (sym (ap (λ d. Dict.get {V = String} d r) same) ∙ still) in
      let listed = requests_on-elem b.active_request_server server r kept in
      let calm = not_admitted b.attempt_state rs r quiet listed in
      ground (arith, v.served r, live listed)

  -- `finish_remove` of a well-formed balancer returns for a routed key only if each request
  -- that had the server of that route was terminated and has a continuation proof.
  pub finish_remove_terminated :
      (b c : LoadBalancer n) (key : ReplicaKey) (server r : String)
      → Inv b
      → Dict.get b.routes key ≡ some server
      → finish_remove b key ≡ (ok tt, c)
      → Dict.get b.active_request_server r ≡ some server
      → (Dict.get b.attempt_state r ≡ some terminated)
        × (is_some (Dict.get b.continuation_proofs r) ≡ true)
  unfolding requests_for_server
  finish_remove_terminated b c key server r v routed h held =
      let (quiet, same) = finish_remove-quiet b c key server routed h in
      let listed = requests_on-elem b.active_request_server server r held in
      let calm = not_admitted b.attempt_state (requests_for_server b server) r quiet listed in
      let over : Dict.get b.attempt_state r ≡ some terminated = ground (arith, v.served r) in
      (over, v.terminated_proven r over)
