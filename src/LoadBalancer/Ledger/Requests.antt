-- ===== src/LoadBalancer/Ledger/Requests.antt =====
-- The request ledger under admission, release and continuation (load_balancer.py).
use verl_multi_task.Common.{
  ℕ, String, ◌≡◌, refl, inl, inr, true, Option, none, some, [], nonempty, string_key, option_key,
  arith, Bool-cases, Option-cases, Result-cases,
}
use verl_multi_task.Common.Dict
use verl_multi_task.Common.Dict.{Dict, Members}
use verl_multi_task.Common.Dict.Counting.{put-Unique, count-put}
use verl_multi_task.Contracts.{
  replica_key_key, terminated, attempt_state_key, evidence_now, exit_ready,
}
use verl_multi_task.LoadBalancer.{NativeRouter, LoadBalancer}
use verl_multi_task.LoadBalancer.Requests.{
  is_unsettled, is_admitted, is_settled, acquire_server, release_known, release_server, terminate,
  confirm_new, confirm_continuation, drain_of, owned_by, all_nonempty, same_proof,
}
use verl_multi_task.LoadBalancer.Ledger.{Inv, settle-Inv, admit-Inv}
use verl_multi_task.LoadBalancer.Ledger.Eviction.{gc-Inv}

-- the request facts of one balancer are those of another
pub record SameRequests {n : NativeRouter} (b c : LoadBalancer n) : Type 0 where
  pub attempts : c.attempt_state ≡ b.attempt_state
  pub active : c.active_request_server ≡ b.active_request_server
  pub proofs : c.continuation_proofs ≡ b.continuation_proofs
  pub settled_count : c.settled_count ≡ b.settled_count

module _ {n : NativeRouter} where
  pub SameRequests-Inv : {b c : LoadBalancer n} → SameRequests b c → Inv b → Inv c
  SameRequests-Inv h v = record {
    unique = rw h.attempts v.unique;
    counted = rw (h.settled_count, h.attempts) v.counted;
    served = λ r. rw (h.active, h.attempts) (v.served r);
    proven = λ r k. rw h.attempts (v.proven r (rw (← h.proofs) k));
    terminated_proven = λ r k. rw h.proofs (v.terminated_proven r (rw (← h.attempts) k));
  }

  pub acquire_server-Inv : (b : LoadBalancer n) (r : String) → Inv b → Inv (acquire_server b r).1
  unfolding acquire_server
  acquire_server-Inv b r v = elim (Bool-cases (is_unsettled (Dict.get b.attempt_state r))) [
    | inl live ↦ rw live v
    | inr free ↦
        let c : LoadBalancer n = record b { native = (n.acquire b.native r).1 } in
        let same : Inv c =
          SameRequests-Inv {b = b} {c = c}
            (record { attempts = refl; active = refl; proofs = refl; settled_count = refl }) v in
        rw free (elim (Option-cases (n.acquire b.native r).0) [
          | inl failed ↦ rw (failed, acquire_server) same
          | inr ((server, handle), chosen) ↦
              rw (chosen, acquire_server) (admit-Inv c r server same free)
        ])
  ]

  pub release_server-Inv :
      (b : LoadBalancer n) (server : String) (r : Option String)
      → Inv b
      → Inv (release_server b server r).1
  unfolding release_server release_known
  release_server-Inv b server none v =
      SameRequests-Inv {b = b}
        (record { attempts = refl; active = refl; proofs = refl; settled_count = refl }) v
  release_server-Inv b server (some r) v = elim (Bool-cases (nonempty r)) [
    | inr nameless ↦ rw nameless (
        SameRequests-Inv {b = b}
          (record { attempts = refl; active = refl; proofs = refl; settled_count = refl }) v)
    | inl named ↦
        rw named (elim (Bool-cases (owned_by (Dict.get b.active_request_server r) server)) [
          | inr foreign ↦ rw foreign v
          | inl ours ↦ rw ours (elim (Bool-cases (is_unsettled (Dict.get b.attempt_state r))) [
            | inr over ↦ rw over v
            | inl live ↦ rw live (
                gc-Inv _ (
                  settle-Inv _ r
                    (SameRequests-Inv {b = b}
                      (record {
                        attempts = refl;
                        active = refl;
                        proofs = refl;
                        settled_count = refl;
                      })
                      v)
                    live))
          ])
        ])
  ]

  pub terminate-Inv :
      (b : LoadBalancer n) (time : ℕ) (r client digest o : String)
      → Inv b
      → is_admitted (Dict.get b.attempt_state r) ≡ true
      → Inv (terminate b time r client digest o).1
  unfolding terminate
  terminate-Inv b time r client digest o v live =
      elim (Result-cases (evidence_now time o exit_ready [])) [
        | inl (e, bad) ↦ rw (bad, terminate) v
        | inr (e, made) ↦
            rw (made, terminate)
              (record {
                unique = put-Unique b.attempt_state r terminated v.unique;
                counted =
                    ground (arith, v.counted, count-put is_settled b.attempt_state r terminated);
                served =
                    λ q. ground (arith, Dict.get-put b.attempt_state r q terminated, v.served q);
                proven = λ q h. ground (
                  arith,
                  Dict.get-put b.attempt_state r q terminated,
                  Dict.get-put b.continuation_proofs r q (record {
                    client_id = client;
                    prefix_digest = digest;
                    operation_id = o;
                    evidence = e;
                  }),
                  v.proven q,
                );
                terminated_proven = λ q h. ground (
                  arith,
                  Dict.get-put b.attempt_state r q terminated,
                  Dict.get-put b.continuation_proofs r q (record {
                    client_id = client;
                    prefix_digest = digest;
                    operation_id = o;
                    evidence = e;
                  }),
                  v.terminated_proven q,
                );
              })
      ]

  pub confirm_new-Inv :
      (b : LoadBalancer n) (time : ℕ) (r client digest : String)
      → Inv b
      → Inv (confirm_new b time r client digest).1
  unfolding confirm_new
  confirm_new-Inv b time r client digest v =
      elim (Bool-cases (is_admitted (Dict.get b.attempt_state r))) [
        | inr other ↦ rw other v
        | inl live ↦ rw live (elim (Option-cases (drain_of b r)) [
          | inl idle ↦ rw (idle, confirm_new) v
          | inr (o, draining) ↦
              rw (draining, confirm_new) (terminate-Inv b time r client digest o v live)
        ])
      ]

  pub confirm_continuation-Inv :
      (b : LoadBalancer n) (time : ℕ) (r client digest : String)
      → Inv b
      → Inv (confirm_continuation b time r client digest).1
  unfolding confirm_continuation
  confirm_continuation-Inv b time r client digest v =
      elim (Bool-cases (all_nonempty r client digest)) [
        | inr bad ↦ rw bad v
        | inl good ↦ rw good (elim (Option-cases (Dict.get b.continuation_proofs r)) [
          | inl new ↦ rw (new, confirm_continuation) (confirm_new-Inv b time r client digest v)
          | inr (p, known) ↦
              rw (known, confirm_continuation)
                (elim (Bool-cases (same_proof p client digest)) [
                  | inl same ↦ rw same v
                  | inr other ↦ rw other v
                ])
        ])
      ]
