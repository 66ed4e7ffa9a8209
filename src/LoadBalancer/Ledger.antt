-- ===== src/LoadBalancer/Ledger.antt =====
-- The request ledger: the settled counter, the servers and the proofs of the requests
-- (load_balancer.py).
mod Routes
mod Requests
pub mod Eviction
pub mod Calls
use verl_multi_task.Common.{
  ℕ, zero, suc, ◌+◌, ◌-◌, ◌≤◌, ◌<◌, String, ◌≡◌, refl, ap, sym, ◌∙◌, inl, inr, Bool, true, false,
  Option, none, some, List, [], ◌∷◌, ◌==◌, if◌then◌else◌, nonempty, is_some, ltb, length, elem,
  Result, ok, err, string_key, option_key, String-discrete, Option-discrete, arith, Bool-cases,
  Option-cases, Result-cases,
}
use verl_multi_task.Common.Dict
use verl_multi_task.Common.Dict.{Dict}
use verl_multi_task.Common.Dict.Counting.{
  Unique, put-Unique, remove-Unique, remove_all-Unique, count, count-put, count-remove, one,
}
use verl_multi_task.Contracts.{
  AttemptState, admitted, terminated, settled, attempt_state_key, AttemptState-discrete,
}
use verl_multi_task.LoadBalancer.{NativeRouter, LoadBalancer, Outcome, Proof}
use verl_multi_task.LoadBalancer.Requests.{
  is_unsettled, is_admitted, is_settled, expired_requests, evict, gc_settled_requests, admit,
  acquire_server, settle, release_known, release_server, terminate, confirm_new,
  confirm_continuation,
}

-- `proofs` holds a proof of a request exactly for a terminated one, or for one that was settled since.
abbrev pub may_have_proof : Option AttemptState → Bool
may_have_proof (some terminated) = true
may_have_proof (some settled) = true
may_have_proof _ = false

pub record Inv {n : NativeRouter} (b : LoadBalancer n) : Type 0 where
  pub unique : Unique b.attempt_state
  pub counted : b.settled_count ≡ count is_settled b.attempt_state
  pub served :
      (r : String)
      → is_some (Dict.get b.active_request_server r) ≡ is_unsettled (Dict.get b.attempt_state r)
  pub proven :
      (r : String)
      → is_some (Dict.get b.continuation_proofs r) ≡ true
      → may_have_proof (Dict.get b.attempt_state r) ≡ true
  pub terminated_proven :
      (r : String)
      → Dict.get b.attempt_state r ≡ some terminated
      → is_some (Dict.get b.continuation_proofs r) ≡ true

module _ {n : NativeRouter} where
  settle-Inv :
      (b : LoadBalancer n) (r : String)
      → Inv b
      → is_unsettled (Dict.get b.attempt_state r) ≡ true
      → Inv (settle b r)
  unfolding settle
  settle-Inv b r v live = record {
    unique = put-Unique b.attempt_state r settled v.unique;
    counted = ground (arith, v.counted, count-put is_settled b.attempt_state r settled);
    served = λ q. ground (
      arith,
      Dict.get-put b.attempt_state r q settled,
      Dict.get-remove b.active_request_server r q,
      v.served q,
    );
    proven = λ q h. ground (arith, Dict.get-put b.attempt_state r q settled, v.proven q);
    terminated_proven =
        λ q h. ground (arith, Dict.get-put b.attempt_state r q settled, v.terminated_proven q);
  }

  admit-Inv :
      (b : LoadBalancer n) (r s : String)
      → Inv b
      → is_unsettled (Dict.get b.attempt_state r) ≡ false
      → Inv (admit b r s)
  unfolding admit
  admit-Inv b r s v free = record {
    unique = ground (arith, put-Unique b.attempt_state r admitted v.unique);
    counted = ground (arith, v.counted, count-put is_settled b.attempt_state r admitted);
    served = λ q. ground (
      arith,
      Dict.get-put b.attempt_state r q admitted,
      Dict.get-put b.active_request_server r q s,
      v.served q,
    );
    proven = λ q h. ground (
      arith,
      Dict.get-put b.attempt_state r q admitted,
      Dict.get-remove b.continuation_proofs r q,
      v.proven q,
    );
    terminated_proven = λ q h. ground (
      arith,
      Dict.get-put b.attempt_state r q admitted,
      Dict.get-remove b.continuation_proofs r q,
      v.terminated_proven q,
    );
  }
