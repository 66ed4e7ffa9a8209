-- ===== src/Contracts/Examples.antt =====
-- Concrete leases and keys (contracts.py).
use verl_multi_task.Common.{
  ℕ, String, ◌≡◌, refl, [], ◌∷◌, pos, ok, ℕ_discrete, String-discrete, Pair-discrete,
}
use verl_multi_task.Contracts.{ReplicaKey, replica_key}
use verl_multi_task.Contracts.Native.{native_replica_key, native_replica_key-injective}
use verl_multi_task.Contracts.Lease.{
  text, int, absent, RawClaim, Claim, Lease, at_tick, make_lease, detach, as_text, as_index,
  is_halves, is_missing,
}
use verl_multi_task.Contracts.Lease.Normal.{IsLease, make_lease-IsLease, detach-IsLease}

-- a claim as a caller writes it: the legacy name of its source lease, and 1 for a whole CPU
abbrev written : String → ℕ → RawClaim
written id bundle = record {
  claim_id = text id;
  source_lease_id = absent;
  lease_id = text "source";
  donor_task_id = text "task-a";
  donor_replica_rank = int (pos 1);
  pg_id = text "pg";
  node_id = text "node";
  gpu_uuid = text id;
  bundle_index = int (pos bundle);
  gpu_fraction = absent;
  cpu_request = int (pos 1);
}

abbrev normal : String → ℕ → Claim
normal id bundle = record {
  claim_id = id;
  source_lease_id = "source";
  donor_task_id = "task-a";
  donor_replica_rank = 1;
  pg_id = "pg";
  node_id = "node";
  gpu_uuid = id;
  bundle_index = bundle;
}

abbrev lease : Lease
lease = record {
  lease_id = "lease-1";
  first_claim = normal "gpu-0" 0;
  other_claims = normal "gpu-1" 1 ∷ [];
  expires_at = 9;
}

abbrev rank : ℕ
rank = 12

abbrev key : ReplicaKey
key = record { task_session = "task-a"; replica_id = "native-12"; runtime_epoch = 3 }

made :
    make_lease "lease-1" (written "gpu-0" 0 ∷ written "gpu-1" 1 ∷ []) (at_tick (pos 9)) ≡ ok lease
unfolding make_lease as_text as_index is_halves is_missing String-discrete ℕ_discrete Pair-discrete
made = refl

native_key : native_replica_key "task-a" (pos rank) (pos 3) ≡ ok key
unfolding native_replica_key replica_key ℕ_discrete String-discrete
native_key = refl

lease_valid : IsLease lease
lease_valid =
    make_lease-IsLease "lease-1" (written "gpu-0" 0 ∷ written "gpu-1" 1 ∷ []) (at_tick (pos 9))
      lease made

make_lease-IsLease_example : IsLease lease
make_lease-IsLease_example =
    make_lease-IsLease "lease-1" (written "gpu-0" 0 ∷ written "gpu-1" 1 ∷ []) (at_tick (pos 9))
      lease made

detach-IsLease_example : detach lease ≡ ok lease
detach-IsLease_example = detach-IsLease lease lease_valid

native_replica_key-injective_example : rank ≡ rank
native_replica_key-injective_example =
    native_replica_key-injective "task-a" "task-a" rank rank (pos 3) (pos 3) key native_key
      native_key
