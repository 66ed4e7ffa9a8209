-- ===== src/GroupScheduler/Leases.antt =====
-- `open_lease` of group_scheduler.py.
use verl_multi_task.Common.{
  none, some, ◌==◌, if◌then◌else◌, Key, Result, ok, err, ◌>>◌, require, nat_key, string_key,
  pair_key, option_key, String-discrete, ℕ_discrete,
}
use verl_multi_task.Common.Dict
use verl_multi_task.Contracts.Lease.{
  Lease, LeaseError, Claim-discrete, claim_ids, bundle_keys, gpu_uuids, detach,
}
use verl_multi_task.GroupScheduler.{
  GroupScheduler, Outcome, SchedulerError, conflicting_lease, claim_id_taken, bundle_taken,
  gpu_taken, bad_lease, or_empty,
}

unfoldable pub Lease-discrete : Discrete Lease
unfolding Claim-discrete
Lease-discrete = hlevel (Claim-discrete, ℕ_discrete, String-discrete)

instance abbrev pub lease_key : Key Lease
lease_key = record { decide_eq = Lease-discrete }

-- a call of `Lease(...)` that raises raises through the method
abbrev pub as_scheduler : Result LeaseError Lease → Result SchedulerError Lease
as_scheduler (ok l) = ok l
as_scheduler (err e) = err (bad_lease e)

-- The three loops of checks, before anything is written.
unfoldable pub check_free : GroupScheduler → Lease → Result SchedulerError (Unit {0})
check_free s l = do
  require (Dict.all_free_for s.claim_id_owner (claim_ids l) l.lease_id) claim_id_taken
  require (Dict.all_free_for s.active_bundle_owner (bundle_keys l) l.lease_id) bundle_taken
  require (Dict.all_free_for s.active_gpu_owner (gpu_uuids l) l.lease_id) gpu_taken
  ok tt

unfoldable pub record_lease : GroupScheduler → Lease → GroupScheduler
record_lease s l = record s {
  leases = Dict.put s.leases l.lease_id l;
  release_history =
      Dict.put s.release_history l.lease_id (or_empty (Dict.get s.release_history l.lease_id));
  claim_id_owner = Dict.put_all s.claim_id_owner (claim_ids l) l.lease_id;
  active_bundle_owner = Dict.put_all s.active_bundle_owner (bundle_keys l) l.lease_id;
  active_gpu_owner = Dict.put_all s.active_gpu_owner (gpu_uuids l) l.lease_id;
}

-- a lease id that the ledger does not know
unfoldable pub open_new : GroupScheduler → Lease → Outcome Lease
unfolding check_free record_lease
open_new s lease = elim (as_scheduler (detach lease)) [
  | err e ↦ (err e, s)
  | ok l ↦ elim (check_free s l) [
    | err e ↦ (err e, s)
    | ok _ ↦ (as_scheduler (detach l), record_lease s l)
  ]
]

unfoldable pub open_lease : GroupScheduler → Lease → Outcome Lease
unfolding open_new
open_lease s lease = elim (Dict.get s.leases lease.lease_id) [
  | none ↦ open_new s lease
  | some existing ↦
      if existing == lease then (as_scheduler (detach existing), s) else (err conflicting_lease, s)
]
