-- ===== src/GroupScheduler/Advance.antt =====
-- `advance_lease` of group_scheduler.py: verified evidence moves a lease on.
use verl_multi_task.Common.{
  String, Bool, true, false, none, some, ◌==◌, if◌then◌else◌, same_set, is_some, Result, ok, err,
  ◌>>◌, require, nat_key, string_key, pair_key, option_key,
}
use verl_multi_task.Common.Dict
use verl_multi_task.Contracts.{
  OperationCommand, OperationEvidence, OperationKind, EvidenceType, add, donate, remove, restore,
  service_committed, released_gpus, weight_ready, exit_ready, operation_evidence_key,
  evidence_type_key, replica_key_key,
}
use verl_multi_task.Contracts.Lease.{Lease, bundle_keys, gpu_uuids}
use verl_multi_task.GroupScheduler.{
  GroupScheduler, Outcome, SchedulerError, append_history, unknown_lease, unknown_operation,
  foreign_evidence, conflicting_evidence, invalid_restore_evidence, wrong_evidence,
  reservation_lost, gpus_not_covered, rollback_without_handoff, rollback_target_mismatch,
}

-- the flag of the dict that the method returns
pub data Progress : Type 0 where
  restored restore_rolled_back add_rolled_back released : Progress

-- the answer to evidence that is already recorded
unfoldable pub replayed : OperationKind → EvidenceType → Result SchedulerError Progress
replayed restore service_committed = ok restored
replayed restore released_gpus = ok restore_rolled_back
replayed restore weight_ready = err invalid_restore_evidence
replayed restore exit_ready = err invalid_restore_evidence
replayed add type = ok add_rolled_back
replayed donate type = ok released
replayed remove type = ok released

abbrev pub covers : OperationEvidence → Lease → Bool
covers e l = same_set e.released_gpu_uuids (gpu_uuids l)

abbrev pub with_evidence : GroupScheduler → String → OperationEvidence → GroupScheduler
with_evidence s lease_id e = record s {
  release_evidence = Dict.put s.release_evidence (lease_id, e.operation_id) e;
}

abbrev pub with_history : GroupScheduler → String → OperationEvidence → GroupScheduler
with_history s lease_id e = record s { release_history = append_history s lease_id e.operation_id }

-- the two loops that give a lease's claims back
unfoldable pub free_claims : GroupScheduler → String → Lease → GroupScheduler
free_claims s lease_id l = record s {
  active_bundle_owner = Dict.release_owned s.active_bundle_owner (bundle_keys l) lease_id;
  active_gpu_owner = Dict.release_owned s.active_gpu_owner (gpu_uuids l) lease_id;
}

unfoldable pub has_reservation : GroupScheduler → String → Lease → Bool
has_reservation s lease_id l =
    if Dict.all_owned_by s.active_bundle_owner (bundle_keys l) lease_id
    then Dict.all_owned_by s.active_gpu_owner (gpu_uuids l) lease_id
    else false

-- What each kind of accepted evidence leaves behind. A RESTORE that was rolled back is not added to
-- the history; its claims are given back.
unfoldable pub after_rollback : GroupScheduler → String → Lease → OperationEvidence → GroupScheduler
unfolding free_claims
after_rollback s lease_id l e = free_claims (with_evidence s lease_id e) lease_id l

abbrev pub recorded : GroupScheduler → String → OperationEvidence → GroupScheduler
recorded s lease_id e = with_history (with_evidence s lease_id e) lease_id e

unfoldable pub after_restore : GroupScheduler → String → Lease → OperationEvidence → GroupScheduler
after_restore s lease_id l e =
    let t = recorded s lease_id e in
    record t {
      handoff_ready_leases = Dict.remove t.handoff_ready_leases lease_id;
      borrower_targets = Dict.remove t.borrower_targets lease_id;
      active_bundle_owner = Dict.remove_all t.active_bundle_owner (bundle_keys l);
      active_gpu_owner = Dict.remove_all t.active_gpu_owner (gpu_uuids l);
    }

unfoldable pub after_add_rollback :
    GroupScheduler → String → Lease → OperationEvidence → GroupScheduler
unfolding free_claims
after_add_rollback s lease_id l e =
    let t = recorded s lease_id e in
    free_claims
      (record t {
        borrower_targets = Dict.remove t.borrower_targets lease_id;
        handoff_ready_leases = Dict.remove t.handoff_ready_leases lease_id;
      })
      lease_id l

-- DONATE hands the claims, which stay reserved, to the borrower.
unfoldable pub after_donate : GroupScheduler → String → OperationEvidence → GroupScheduler
after_donate s lease_id e =
    let t = recorded s lease_id e in
    record t { handoff_ready_leases = Dict.put t.handoff_ready_leases lease_id tt }

-- REMOVE gives the claims back.
unfoldable pub after_remove : GroupScheduler → String → Lease → OperationEvidence → GroupScheduler
unfolding free_claims
after_remove s lease_id l e =
    let t = recorded s lease_id e in
    free_claims (record t { handoff_ready_leases = Dict.remove t.handoff_ready_leases lease_id })
      lease_id l

unfoldable pub advance_restore :
    GroupScheduler → String → Lease → OperationEvidence → EvidenceType → Outcome Progress
unfolding has_reservation after_rollback after_restore
advance_restore s lease_id l e weight_ready = (err wrong_evidence, s)
advance_restore s lease_id l e exit_ready = (err wrong_evidence, s)
advance_restore s lease_id l e service_committed =
    if has_reservation s lease_id l
    then (ok restored, after_restore s lease_id l e)
    else (err reservation_lost, s)
advance_restore s lease_id l e released_gpus =
    if has_reservation s lease_id l
    then (if covers e l
        then (ok restore_rolled_back, after_rollback s lease_id l e)
        else (err gpus_not_covered, s))
    else (err reservation_lost, s)

unfoldable pub check_add_rollback :
    GroupScheduler
    → OperationCommand
    → String
    → Lease
    → OperationEvidence
    → Result SchedulerError (Unit {0})
check_add_rollback s c lease_id l e = do
  require (e.type == released_gpus) wrong_evidence
  require (covers e l) gpus_not_covered
  require (is_some (Dict.get s.handoff_ready_leases c.lease_id)) rollback_without_handoff
  require (Dict.get s.borrower_targets c.lease_id == some c.target) rollback_target_mismatch
  ok tt

unfoldable pub advance_add :
    GroupScheduler → OperationCommand → String → Lease → OperationEvidence → Outcome Progress
unfolding check_add_rollback after_add_rollback
advance_add s c lease_id l e = elim (check_add_rollback s c lease_id l e) [
  | err x ↦ (err x, s)
  | ok _ ↦ (ok add_rolled_back, after_add_rollback s lease_id l e)
]

-- `DONATE` (true) and `REMOVE` (false)
unfoldable pub advance_release :
    GroupScheduler → String → Lease → OperationEvidence → Bool → Outcome Progress
unfolding after_donate after_remove
advance_release s lease_id l e is_donate =
    if e.type == released_gpus
    then (if covers e l
        then (if is_donate
            then (ok released, after_donate s lease_id e)
            else (ok released, after_remove s lease_id l e))
        else (err gpus_not_covered, s))
    else (err wrong_evidence, s)

-- evidence that is not recorded yet, by the kind of its command
unfoldable pub advance_new :
    GroupScheduler
    → OperationCommand
    → String
    → Lease
    → OperationEvidence
    → OperationKind
    → Outcome Progress
unfolding advance_restore advance_add advance_release
advance_new s c lease_id l e restore = advance_restore s lease_id l e e.type
advance_new s c lease_id l e add = advance_add s c lease_id l e
advance_new s c lease_id l e donate = advance_release s lease_id l e true
advance_new s c lease_id l e remove = advance_release s lease_id l e false

-- evidence of a command of this lease
unfoldable pub advance_known :
    GroupScheduler → OperationCommand → String → Lease → OperationEvidence → Outcome Progress
unfolding advance_new replayed
advance_known s c lease_id l e = elim (Dict.get s.release_evidence (lease_id, e.operation_id)) [
  | none ↦ advance_new s c lease_id l e c.kind
  | some existing ↦
      if existing == e then (replayed c.kind existing.type, s) else (err conflicting_evidence, s)
]

unfoldable pub advance_lease : GroupScheduler → String → OperationEvidence → Outcome Progress
unfolding advance_known
advance_lease s lease_id e = elim (Dict.get s.leases lease_id) [
  | none ↦ (err unknown_lease, s)
  | some l ↦ elim (Dict.get s.operation_commands e.operation_id) [
    | none ↦ (err unknown_operation, s)
    | some c ↦
        if c.lease_id == lease_id then advance_known s c lease_id l e else (err foreign_evidence, s)
  ]
]
