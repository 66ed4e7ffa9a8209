-- ===== src/LoadBalancer/Examples.antt =====
-- Concrete runs of the balancer (load_balancer.py), over a router that selects its first server.
use verl_multi_task.Common.{
  ℕ, ◌≤◌, String, ◌≡◌, refl, true, false, Option, none, some, List, [], ◌∷◌, is_some, ok, err,
  string_key, nat_key, String-discrete, Option-discrete, arith,
}
use verl_multi_task.Common.Dict
use verl_multi_task.Common.Dict.{Dict}
use verl_multi_task.Contracts.{
  ReplicaKey, replica_key_key, EvidenceType-discrete, OperationEvidence, exit_ready, terminated,
  settled, AttemptState-discrete, ReplicaKey-discrete, evidence_now,
}
use verl_multi_task.LoadBalancer.{NativeRouter, LoadBalancer, conflicting_proof, create}
use verl_multi_task.LoadBalancer.Requests.{
  is_settled, acquire_server, release_server, confirm_continuation, gc_settled_requests,
}
use verl_multi_task.LoadBalancer.Routes.{begin_drain, finish_remove}
use verl_multi_task.LoadBalancer.Ledger.{Inv}
use verl_multi_task.LoadBalancer.Ledger.Eviction.{Collected, gc_bounded}
use verl_multi_task.Common.Dict.Counting.{count}
use verl_multi_task.LoadBalancer.Ledger.Calls.{
  Call, acquires, drains, confirms, run, serve, run-create-Inv,
}
use verl_multi_task.LoadBalancer.Handoff.{release_twice, confirm_once, finish_remove_terminated}

-- the pool, and the servers whose counters were decremented
abbrev Pool : Type 0
Pool = Dict String ℕ × List String

unfoldable select : Pool → Option (String × ℕ)
select ([], released) = none
select (entry ∷ rest, released) = some entry

select-servers : (p : Pool) (s : String) (h : ℕ) → select p ≡ some (s, h) → Dict.get p.0 s ≡ some h
unfolding select Dict.get
select-servers ([], released) s h e = cc
select-servers ((t, g) ∷ rest, released) s h e = ground arith

abbrev router : NativeRouter
router = record {
  State = Pool;
  Handle = ℕ;
  handle_key = nat_key;
  servers = λ p. p.0;
  acquire = λ p q. (select p, p);
  release = λ p s q. (p.0, s ∷ p.1);
  add_server = λ p s h. (Dict.put p.0 s h, p.1);
  remove_server = λ p s. (Dict.remove p.0 s, p.1);
  acquire_selects = λ p q s h e. select-servers p s h e;
  servers-acquire = λ p q. refl;
  servers-release = λ p s q. refl;
  servers-remove_server = λ p s. refl;
  servers-add_server = λ p s h. refl;
}

abbrev key : ReplicaKey
key = record { task_session = "task-a"; replica_id = "native-0"; runtime_epoch = 0 }

abbrev pool : Pool
pool = (("server-0", 7) ∷ [], [])

abbrev fresh : LoadBalancer router
fresh = record {
  native = pool;
  routes = (key, "server-0") ∷ [];
  active_request_server = [];
  attempt_state = [];
  draining_operations = [];
  awaiting_service_restore = false;
  ready_operations = [];
  continuation_proofs = [];
  continuation_handoffs = [];
  settled_retention = 10000;
  settled_count = 0;
}

created : create router pool ((key, "server-0") ∷ []) ≡ ok fresh
unfolding create Dict.get Dict.put String-discrete
created = refl

-- one request is admitted, its server is drained, and its client confirms the prefix
abbrev draining : List (Call router)
draining = acquires "r" ∷ drains key "donate-1" ∷ []

abbrev handed_off : List (Call router)
handed_off = acquires "r" ∷ drains key "donate-1" ∷ confirms 5 "r" "client" "digest" ∷ []

abbrev proof : OperationEvidence
proof = record {
  operation_id = "donate-1";
  type = exit_ready;
  timestamp = 5;
  released_gpu_uuids = [];
}

released :
    release_server (run fresh (acquires "r" ∷ [])) "server-0" (some "r")
    ≡ (ok tt, (release_server (run fresh (acquires "r" ∷ [])) "server-0" (some "r")).1)
unfolding run serve acquire_server release_server select Dict.get Dict.put String-discrete
    Option-discrete EvidenceType-discrete
released = refl

confirmed :
    confirm_continuation (run fresh draining) 5 "r" "client" "digest"
    ≡ (ok proof, (confirm_continuation (run fresh draining) 5 "r" "client" "digest").1)
unfolding run serve acquire_server begin_drain confirm_continuation select Dict.get Dict.put
    Dict.remove String-discrete ReplicaKey-discrete evidence_now Option-discrete
    EvidenceType-discrete
confirmed = refl

removed :
    finish_remove (run fresh handed_off) key ≡ (ok tt, (finish_remove (run fresh handed_off) key).1)
unfolding run serve acquire_server begin_drain confirm_continuation finish_remove select Dict.get
    Dict.put Dict.remove String-discrete ReplicaKey-discrete AttemptState-discrete Option-discrete
    evidence_now EvidenceType-discrete
removed = refl

routed : Dict.get (run fresh handed_off).routes key ≡ some "server-0"
unfolding run serve acquire_server begin_drain confirm_continuation select Dict.get Dict.put
    Dict.remove String-discrete ReplicaKey-discrete evidence_now Option-discrete
    EvidenceType-discrete
routed = refl

serving : Dict.get (run fresh handed_off).active_request_server "r" ≡ some "server-0"
unfolding run serve acquire_server begin_drain confirm_continuation select Dict.get Dict.put
    Dict.remove String-discrete ReplicaKey-discrete evidence_now Option-discrete
    EvidenceType-discrete
serving = refl

handed_off-Inv : Inv (run fresh handed_off)
handed_off-Inv = run-create-Inv router pool ((key, "server-0") ∷ []) fresh handed_off created

run-create-Inv_example : Inv (run fresh handed_off)
run-create-Inv_example =
    run-create-Inv router pool ((key, "server-0") ∷ []) fresh handed_off created

-- two settled requests, of which one may be kept
abbrev crowded : LoadBalancer router
crowded = record fresh {
  attempt_state = ("a", settled) ∷ ("b", settled) ∷ [];
  settled_retention = 1;
  settled_count = 2;
}

crowded-Inv : Inv crowded
unfolding Dict.get String-discrete count
crowded-Inv = record {
  unique = (refl, (refl, tt));
  counted = refl;
  served = λ r. ground arith;
  proven = λ r h. cc;
  terminated_proven = λ r h. ground (arith, h);
}

forgets : Dict.get (gc_settled_requests crowded).attempt_state "a" ≡ none
unfolding gc_settled_requests Dict.get Dict.remove_all Dict.remove String-discrete
forgets = refl

gc_bounded_example :
    (count is_settled (gc_settled_requests crowded).attempt_state ≤ 1)
    × ((gc_settled_requests crowded).settled_count
        ≡ count is_settled (gc_settled_requests crowded).attempt_state)
    × Collected crowded "a" (gc_settled_requests crowded)
gc_bounded_example = gc_bounded crowded "a" crowded-Inv

finish_remove_terminated_example :
    (Dict.get (run fresh handed_off).attempt_state "r" ≡ some terminated)
    × (is_some (Dict.get (run fresh handed_off).continuation_proofs "r") ≡ true)
finish_remove_terminated_example =
    finish_remove_terminated (run fresh handed_off) (finish_remove (run fresh handed_off) key).1 key
      "server-0" "r" handed_off-Inv routed removed serving

release_twice_example :
    release_server
      (release_server (run fresh (acquires "r" ∷ [])) "server-0" (some "r")).1
      "server-0"
      (some "r")
    ≡ (ok tt, (release_server (run fresh (acquires "r" ∷ [])) "server-0" (some "r")).1)
unfolding String-discrete
release_twice_example =
    release_twice (run fresh (acquires "r" ∷ []))
      (release_server (run fresh (acquires "r" ∷ [])) "server-0" (some "r")).1 "server-0" "r" refl
      released

confirm_once_example :
    confirm_continuation
      (confirm_continuation (run fresh draining) 5 "r" "client" "digest").1
      9
      "r"
      "other"
      "digest"
    ≡ (err conflicting_proof, (confirm_continuation (run fresh draining) 5 "r" "client" "digest").1)
unfolding String-discrete
confirm_once_example =
    confirm_once (run fresh draining)
      (confirm_continuation (run fresh draining) 5 "r" "client" "digest").1 5 9 "r" "client"
      "digest" "other" "digest" proof refl confirmed
