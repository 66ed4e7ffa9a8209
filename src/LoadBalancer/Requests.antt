-- ===== src/LoadBalancer/Requests.antt =====
-- The life of a request: admitted, terminated by a confirmed continuation, settled by its release
-- (load_balancer.py).
use Prim.Native.Nat.{◌/◌, max}
use verl_multi_task.Common.{
  ℕ, zero, suc, ◌+◌, ◌-◌, String, Bool, true, false, Option, none, some, List, [], ◌∷◌, ◌==◌,
  if◌then◌else◌, nonempty, is_some, ltb, length, Result, ok, err, string_key, option_key,
}
use verl_multi_task.Common.Dict
use verl_multi_task.Common.Dict.{Dict, Members}
use verl_multi_task.Contracts.{
  AttemptState, admitted, terminated, settled, OperationEvidence, attempt_state_key, exit_ready,
  evidence_now,
}
use verl_multi_task.LoadBalancer.{
  NativeRouter, LoadBalancer, Outcome, Proof, BalancerError, unsettled_generation, native_failure,
  foreign_release, empty_continuation, conflicting_proof, not_eligible, not_draining, bad_evidence,
  empty_operation_id,
}

-- `state in {ADMITTED, TERMINATED}`
abbrev pub is_unsettled : Option AttemptState → Bool
is_unsettled none = false
is_unsettled (some admitted) = true
is_unsettled (some terminated) = true
is_unsettled (some settled) = false

abbrev pub is_admitted : Option AttemptState → Bool
is_admitted (some admitted) = true
is_admitted _ = false

abbrev pub is_settled : AttemptState → Bool
is_settled settled = true
is_settled _ = false

-- the request has no server, or this one
abbrev pub owned_by : Option String → String → Bool
owned_by none server = true
owned_by (some owner) server = owner == server

abbrev pub all_nonempty : String → String → String → Bool
all_nonempty request client digest =
    if nonempty request then (if nonempty client then nonempty digest else false) else false

abbrev pub same_proof : Proof → String → String → Bool
same_proof p client digest = if p.client_id == client then p.prefix_digest == digest else false

-- the loop that collects expired ids, oldest first, until `target` of them are found
unfoldable pub expired_requests : Dict String String → Dict String AttemptState → ℕ → List String
expired_requests active [] target = []
expired_requests active (_ ∷ _) zero = []
expired_requests active ((r, s) ∷ rest) (suc target) = elim (is_settled s) [
  | false ↦ expired_requests active rest (suc target)
  | true ↦ elim (is_some (Dict.get active r)) [
    | true ↦ expired_requests active rest (suc target)
    | false ↦ r ∷ expired_requests active rest target
  ]
]

module _ {n : NativeRouter} where
  unfoldable pub evict : LoadBalancer n → List String → LoadBalancer n
  evict b expired = record b {
    attempt_state = Dict.remove_all b.attempt_state expired;
    continuation_proofs = Dict.remove_all b.continuation_proofs expired;
    settled_count = b.settled_count - length expired;
  }

  unfoldable pub gc_settled_requests : LoadBalancer n → LoadBalancer n
  unfolding evict expired_requests
  gc_settled_requests b =
      if ltb b.settled_retention b.settled_count
      then evict b (
          expired_requests b.active_request_server b.attempt_state
            (max (b.settled_count - b.settled_retention) (b.settled_retention / 8)))
      else b

  -- the facts written once the native router has selected a server
  unfoldable pub admit : LoadBalancer n → String → String → LoadBalancer n
  admit b request server =
      let c =
        if Dict.get b.attempt_state request == some settled
        then record b {
          continuation_proofs = Dict.remove b.continuation_proofs request;
          settled_count = b.settled_count - 1;
        }
        else b in
      record c {
        active_request_server = Dict.put c.active_request_server request server;
        attempt_state = Dict.put c.attempt_state request admitted;
      }

  unfoldable pub acquire_server : LoadBalancer n → String → Outcome n (String × n.Handle)
  unfolding admit
  acquire_server b request =
      if is_unsettled (Dict.get b.attempt_state request)
      then (err unsettled_generation, b)
      else (let (selected, native) = n.acquire b.native request in
          let c = record b { native = native } in
          elim selected [
            | none ↦ (err native_failure, c)
            | some (server, handle) ↦ (ok (server, handle), admit c request server)
          ])

  -- the facts written after the native release of a request that is not settled
  unfoldable pub settle : LoadBalancer n → String → LoadBalancer n
  settle b request = record b {
    attempt_state = Dict.put b.attempt_state request settled;
    active_request_server = Dict.remove b.active_request_server request;
    settled_count = b.settled_count + 1;
  }

  unfoldable pub release_known : LoadBalancer n → String → String → Outcome n (Unit {0})
  unfolding settle gc_settled_requests
  release_known b server request =
      if owned_by (Dict.get b.active_request_server request) server
      then (if is_unsettled (Dict.get b.attempt_state request)
          then (
            ok tt,
            gc_settled_requests
                (settle (record b { native = n.release b.native server (some request) }) request),
          )
          else (ok tt, b))
      else (err foreign_release, b)

  -- a missing or empty request id releases only the native counters
  unfoldable pub release_server : LoadBalancer n → String → Option String → Outcome n (Unit {0})
  unfolding release_known
  release_server b server none = (ok tt, record b { native = n.release b.native server none })
  release_server b server (some request) =
      if nonempty request
      then release_known b server request
      else (ok tt, record b { native = n.release b.native server (some request) })

  unfoldable pub query_attempt : LoadBalancer n → String → Option AttemptState
  query_attempt b request = Dict.get b.attempt_state request

  -- self.continuation_handoffs.setdefault(operation_id, set()).add(request_id)
  abbrev pub hand_off : LoadBalancer n → String → String → Dict String (Members String)
  hand_off b operation_id request = Dict.put b.continuation_handoffs operation_id (
      Dict.put (elim (Dict.get b.continuation_handoffs operation_id) [ none ↦ [] | some h ↦ h ])
        request tt)

  -- a first confirmation, under the drain of the request's server
  unfoldable pub terminate :
      LoadBalancer n → ℕ → String → String → String → String → Outcome n OperationEvidence
  terminate b time request client digest operation_id =
      elim (evidence_now time operation_id exit_ready []) [
        | err e ↦ (err (bad_evidence e), b)
        | ok evidence ↦
            let proof : Proof = record {
              client_id = client;
              prefix_digest = digest;
              operation_id = operation_id;
              evidence = evidence;
            } in
            (
              ok evidence,
              record b {
                continuation_proofs = Dict.put b.continuation_proofs request proof;
                continuation_handoffs = hand_off b operation_id request;
                attempt_state = Dict.put b.attempt_state request terminated;
              },
            )
      ]

  -- the operation that drains the request's server
  abbrev pub drain_of : LoadBalancer n → String → Option String
  drain_of b request = elim (Dict.get b.active_request_server request) [
    | none ↦ none
    | some server ↦ Dict.get b.draining_operations server
  ]

  unfoldable pub confirm_new :
      LoadBalancer n → ℕ → String → String → String → Outcome n OperationEvidence
  unfolding terminate
  confirm_new b time request client digest =
      if is_admitted (Dict.get b.attempt_state request)
      then elim (drain_of b request) [
        | none ↦ (err not_draining, b)
        | some operation_id ↦ terminate b time request client digest operation_id
      ]
      else (err not_eligible, b)

  unfoldable pub confirm_continuation :
      LoadBalancer n → ℕ → String → String → String → Outcome n OperationEvidence
  unfolding confirm_new
  confirm_continuation b time request client digest =
      if all_nonempty request client digest
      then elim (Dict.get b.continuation_proofs request) [
        | none ↦ confirm_new b time request client digest
        | some previous ↦
            if same_proof previous client digest
            then (ok previous.evidence, b)
            else (err conflicting_proof, b)
      ]
      else (err empty_continuation, b)

  -- the requests of an operation whose handoff was observed; the source sorts the answer
  unfoldable pub continuation_handoff_requests :
      LoadBalancer n → String → Result BalancerError (Members String)
  continuation_handoff_requests b operation_id =
      if nonempty operation_id
      then ok (elim (Dict.get b.continuation_handoffs operation_id) [ none ↦ [] | some h ↦ h ])
      else err empty_operation_id
