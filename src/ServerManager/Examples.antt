-- ===== src/ServerManager/Examples.antt =====
-- Concrete replicas of a task (llm_server_manager.py).
use verl_multi_task.Common.{
  ◌≡◌, ◌≢◌, refl, true, false, none, some, List, [], ◌∷◌, err, string_key, String-discrete,
  ℕ_discrete,
}
use verl_multi_task.Common.Dict
use verl_multi_task.Contracts.{
  ReplicaKey, replica_key_key, native_replica, borrowed, creating, active, draining, dormant,
  released, ReplicaKey-discrete,
}
use verl_multi_task.TaskRunner.Lifecycle.{RankedClaim, BorrowedSpec}
use verl_multi_task.ServerManager.{
  ServerManager, BorrowedOperation, create_failed, register_replica,
}
use verl_multi_task.ServerManager.Borrowed.{
  Answers, failed, resolve_placement_groups, run_creation, landing, create_begin, create_end,
}
use verl_multi_task.ServerManager.Borrowed.Landing.{NothingLeft, failed_creation}
use verl_multi_task.Common.{Option-discrete, List-discrete}
use verl_multi_task.Contracts.{ReplicaKind-discrete}
use verl_multi_task.Contracts.Lease.{
  make_lease, as_text, raw_claim, is_missing, as_index, is_halves,
}
use verl_multi_task.Replica.{World, Replica, dead, cleanup_borrowed_runtime}
use verl_multi_task.Replica.Creation.{init_from_lease}
use verl_multi_task.ServerManager.History.{Call, register, transition, run, init}
use verl_multi_task.ServerManager.History.States.{Legal, visited, run-init_kinds, run_moves}

abbrev key : ReplicaKey
key = record { task_session = "task-a"; replica_id = "native-0"; runtime_epoch = 0 }

abbrev empty : ServerManager
empty = init "task-a" (7 ∷ []) ("host:1" ∷ []) (3 ∷ [])

abbrev calls : List Call
calls = transition key draining ∷ transition key dormant ∷ transition key released ∷ []

abbrev registered : ServerManager
registered = run empty (register key native_replica active none ∷ [])

is_registered : Dict.get registered.replica_state key ≡ some active
unfolding run init register_replica Dict.get Dict.put ReplicaKey-discrete String-discrete ℕ_discrete
is_registered = refl

run-init_kinds_example :
    let m = run empty (register key native_replica active none ∷ calls) in
    (Dict.get m.replica_kind key ≡ some borrowed → Dict.get m.replica_state key ≢ some dormant)
    × (Dict.get m.replica_kind key ≡ some native_replica
        → Dict.get m.replica_state key ≢ some released)
run-init_kinds_example =
    run-init_kinds "task-a" (7 ∷ []) ("host:1" ∷ []) (3 ∷ [])
      (register key native_replica active none ∷ calls) key

run_moves_example :
    Legal active (visited registered calls key)
    × (Dict.get (run registered calls).replica_kind key ≡ Dict.get registered.replica_kind key)
run_moves_example = run_moves registered calls key active is_registered

-- Ray knows no actor, and the clock stands still
abbrev quiet : World
quiet = record { states = λ poll name. none; started_at = 0; clock = λ poll. 0 }

abbrev claim : RankedClaim
claim = record {
  claim = record {
    claim_id = "claim-1";
    source_lease_id = "source";
    donor_task_id = "task-b";
    donor_replica_rank = 0;
    pg_id = "pg";
    node_id = "node";
    gpu_uuid = "gpu-1";
    bundle_index = 0;
  };
  rank = 0;
  node_rank = 0;
  local_rank = 0;
}

abbrev spec : BorrowedSpec
spec = record {
  operation_id = "add-1";
  lease_id = "lease-1";
  borrower_task_id = "task-a";
  borrower_replica_id = "borrowed-1";
  claims = claim ∷ [];
  expires_at = 0;
  placement_epoch = 2;
}

abbrev lent : ReplicaKey
lent = record { task_session = "task-a"; replica_id = "borrowed-1"; runtime_epoch = 2 }

abbrev created : ServerManager
created = (create_begin empty spec).1

abbrev operation : BorrowedOperation
operation = record {
  resolved_spec = spec;
  replica_rank = 0;
  error = none;
  result = none;
  destroy_evidence = none;
}

-- every actor is dead
abbrev silent : World
silent = record { states = λ poll name. some (dead ∷ []); started_at = 0; clock = λ poll. 0 }

-- the worker is created in the claim's placement group, and its group cannot be read
abbrev answers : Answers
answers = record {
  groups = record {
    table =
        (
          "pg",
          record {
            is_created = true;
            bundles = 0 ∷ [];
            bundle_nodes = (0, "node") ∷ [];
            name = some "group";
          },
        )
        ∷ [];
    named = λ name. some ("pg", 1);
  };
  constructed = true;
  creation = record {
    master_found = true;
    worker = some 3;
    group_workers = none;
    placement = none;
    launched_servers = [];
    launched = false;
    launched_address = none;
    health = none;
  };
  worker_world = silent;
  first_servers = silent;
  first_workers = silent;
  second_servers = quiet;
  second_workers = quiet;
}

abbrev new : Replica
new = record {
  replica_kind = borrowed;
  replica_rank = 0;
  runtime_epoch = 2;
  world_size = 1;
  nnodes = 1;
  name_suffix = "";
  server_name_prefix = "";
  placement_claims = [];
  servers = [];
  server_handle = none;
  server_address = none;
  server_names = [];
  workers = [];
  worker_names = [];
  cleanup_verified = false;
}

known : Dict.get created.borrowed_operations "lease-1" ≡ some operation
unfolding create_begin init register_replica Dict.get Dict.put ReplicaKey-discrete String-discrete
    ℕ_discrete
known = refl

waiting : Dict.get created.replica_state lent ≡ some creating
unfolding create_begin init register_replica Dict.get Dict.put ReplicaKey-discrete String-discrete
    ℕ_discrete
waiting = refl

kind : Dict.get created.replica_kind lent ≡ some borrowed
unfolding create_begin init register_replica Dict.get Dict.put ReplicaKey-discrete String-discrete
    ℕ_discrete
kind = refl

not_created : run_creation answers 8 new spec 0 ≡ some (failed true)
unfolding run_creation init_from_lease cleanup_borrowed_runtime resolve_placement_groups Dict.get
    String-discrete ℕ_discrete Option-discrete ReplicaKind-discrete make_lease as_text raw_claim
    is_missing as_index is_halves List-discrete
not_created = refl

failed_creation_example :
    let after = (create_end created "lease-1" lent (failed true)).1 in
    (Dict.get after.replica_state lent ≡ some (landing true))
    × (Dict.get after.replica_state lent ≡ some released → NothingLeft answers new spec 0)
    × (create_begin after spec ≡ (err create_failed, after))
failed_creation_example =
    failed_creation created answers 8 new lent operation true known waiting kind not_created
