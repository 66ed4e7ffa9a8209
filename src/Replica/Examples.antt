-- ===== src/Replica/Examples.antt =====
-- Concrete clean-ups (replica.py).
use verl_multi_task.Common.{
  zero, suc, ◌+◌, ◌*◌, ◌≡◌, refl, false, some, [], ◌∷◌, Result, ok, string_key, arith,
}
use verl_multi_task.Contracts.{borrowed}
use verl_multi_task.Replica.{
  World, Replica, RuntimeError, dead, alive, returned, cleanup_borrowed_runtime,
}
use verl_multi_task.Replica.Waiting.{Advances}
use verl_multi_task.Replica.Cleanup.{Gone, Cleaned, cleanup_borrowed_runtime-ends}

-- every actor is dead from the second poll on
abbrev world : World
world = record {
  states = λ poll name. some (elim poll [ zero ↦ alive ∷ [] | suc later ↦ dead ∷ [] ]);
  started_at = 5;
  clock = λ poll. 5 + 100 * poll;
}

world-Advances : Advances world
world-Advances = record { first = omega arith; later = λ poll. omega arith }

abbrev replica : Replica
replica = record {
  replica_kind = borrowed;
  replica_rank = 1;
  runtime_epoch = 0;
  world_size = 1;
  nnodes = 1;
  name_suffix = "";
  server_name_prefix = "";
  placement_claims = [];
  servers = 3 ∷ [];
  server_handle = some 3;
  server_address = some "host:1";
  server_names = "server" ∷ [];
  workers = 4 ∷ [];
  worker_names = "worker" ∷ [];
  cleanup_verified = false;
}

cleanup_borrowed_runtime-ends_example :
    (call : Result RuntimeError (Unit {0})) × (after : Replica) × (cleanup_borrowed_runtime world
        world replica
      ≡ some (call, after))
    × (after.cleanup_verified ≡ returned call)
    × (call ≡ ok tt → Gone world world replica after)
    × Cleaned world world replica after
cleanup_borrowed_runtime-ends_example =
    cleanup_borrowed_runtime-ends world world replica refl world-Advances world-Advances
