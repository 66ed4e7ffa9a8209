-- ===== src/GroupScheduler/Examples.antt =====
-- Concrete runs of the scheduler (group_scheduler.py): one GPU goes to a borrower and comes back.
use verl_multi_task.Common.{
  ℕ, String, ◌≡◌, refl, true, false, none, some, List, [], ◌∷◌, ◌++◌, ◌==◌, elem, ok, err,
  string_key, nat_key, pair_key, option_key, String-discrete, Option-discrete, Pair-discrete,
  ℕ_discrete, arith, pos,
}
use verl_multi_task.Common.Dict
use verl_multi_task.Contracts.{
  OperationKind, OperationCommand, ReplicaKey, OperationEvidence, donate, add, remove, restore,
  accepted, released_gpus, OperationKind-discrete, replica_key, EvidenceType-discrete,
  ReplicaKey-discrete, OperationCommand-discrete, OperationEvidence-discrete,
}
use verl_multi_task.Contracts.Native.{native_replica_key}
use verl_multi_task.Contracts.Lease.{
  Claim, Lease, at_tick, raw_claim, checked_expiry, detach, make_lease, gpu_uuids, as_text,
  is_missing, as_index, is_halves,
}
use verl_multi_task.Contracts.Lease.Normal.{IsLease, make_lease-IsLease}
use verl_multi_task.GroupScheduler.{init, attach_task, conflicting_evidence, gpu_taken}
use verl_multi_task.GroupScheduler.Leases.{open_lease}
use verl_multi_task.GroupScheduler.Submit.{submit_operation, accept, stage, replies}
use verl_multi_task.GroupScheduler.Advance.{advance_lease, released}
use verl_multi_task.GroupScheduler.Events.{
  Event, attaches, opens, submits, advances, run, handle, NoneAbout,
}
use verl_multi_task.GroupScheduler.Frame.{Kept}
use verl_multi_task.GroupScheduler.Frame.Calls.{run-Kept}
use verl_multi_task.GroupScheduler.Ownership.{
  owned_gpu_authorized, claim_id_unique, restore_reserves,
}
use verl_multi_task.GroupScheduler.Replay.{advance_replay, advance_error_unchanged}

abbrev claim : String → String → String → Claim
claim id pg gpu = record {
  claim_id = id;
  source_lease_id = "source";
  donor_task_id = "task-a";
  donor_replica_rank = 0;
  pg_id = pg;
  node_id = "node";
  gpu_uuid = gpu;
  bundle_index = 0;
}

abbrev lease : Lease
lease = record {
  lease_id = "lease-1";
  first_claim = claim "claim-1" "pg" "gpu-0";
  other_claims = [];
  expires_at = 0;
}

-- another lease of the same GPU
abbrev rival : Lease
rival = record {
  lease_id = "lease-2";
  first_claim = claim "claim-2" "pg-2" "gpu-0";
  other_claims = [];
  expires_at = 0;
}

abbrev command : String → OperationKind → ReplicaKey → OperationCommand
command id kind target = record {
  operation_id = id;
  kind = kind;
  target = target;
  lease_id = "lease-1";
  force = none;
}

abbrev donor : ReplicaKey
donor = record { task_session = "task-a"; replica_id = "native-0"; runtime_epoch = 0 }

abbrev borrower : ReplicaKey
borrower = record { task_session = "task-b"; replica_id = "extra"; runtime_epoch = 1 }

abbrev evidence : String → ℕ → OperationEvidence
evidence id time = record {
  operation_id = id;
  type = released_gpus;
  timestamp = time;
  released_gpu_uuids = "gpu-0" ∷ [];
}

abbrev sent : String → OperationKind → ReplicaKey → Event
sent id kind target =
    submits (command id kind target) 0 0
      (replies (record { operation_id = id; status = accepted; result = none }))

abbrev opened : List Event
opened = attaches "task-a" 1 ∷ attaches "task-b" 2 ∷ opens lease ∷ []

abbrev donating : List Event
donating = opened ++ (sent "donate-1" donate donor ∷ [])

abbrev lent : List Event
lent = donating ++ (advances "lease-1" (evidence "donate-1" 5) ∷ sent "add-1" add borrower ∷ [])

abbrev returned : List Event
returned =
    lent ++ (sent "remove-1" remove borrower ∷ advances "lease-1" (evidence "remove-1" 7) ∷ [])

opened_gpu : Dict.get (run init opened).active_gpu_owner "gpu-0" ≡ some "lease-1"
unfolding init run handle attach_task open_lease detach Dict.get Dict.put Dict.put_all
    Dict.all_free_for String-discrete as_text is_missing as_index is_halves ℕ_discrete
opened_gpu = refl

opened_lease : Dict.get (run init opened).leases "lease-1" ≡ some lease
unfolding init run handle attach_task open_lease detach Dict.get Dict.put Dict.put_all
    Dict.all_free_for String-discrete as_text is_missing as_index is_halves ℕ_discrete
opened_lease = refl

lent_borrower : Dict.get (run init lent).borrower_targets "lease-1" ≡ some borrower
unfolding init run handle attach_task open_lease submit_operation advance_lease detach Dict.get
    Dict.put Dict.put_all Dict.all_free_for String-discrete as_text is_missing as_index is_halves
    ℕ_discrete native_replica_key OperationKind-discrete EvidenceType-discrete ReplicaKey-discrete
    OperationCommand-discrete OperationEvidence-discrete Option-discrete replica_key Pair-discrete
lent_borrower = refl

restore_accepted :
    accept (run init returned) (command "restore-1" restore donor) lease 0 0
    ≡ ok (stage (run init returned) (command "restore-1" restore donor) lease)
unfolding init run handle attach_task open_lease submit_operation advance_lease detach Dict.get
    Dict.put Dict.put_all Dict.all_free_for String-discrete as_text is_missing as_index is_halves
    ℕ_discrete native_replica_key OperationKind-discrete EvidenceType-discrete ReplicaKey-discrete
    OperationCommand-discrete OperationEvidence-discrete Option-discrete replica_key Pair-discrete
    accept Dict.all_unowned Dict.release_owned Dict.remove
restore_accepted = refl

restore_is_new : Dict.get (run init returned).operation_commands "restore-1" ≡ none
unfolding init run handle attach_task open_lease submit_operation advance_lease detach Dict.get
    Dict.put Dict.put_all Dict.all_free_for String-discrete as_text is_missing as_index is_halves
    ℕ_discrete native_replica_key OperationKind-discrete EvidenceType-discrete ReplicaKey-discrete
    OperationCommand-discrete OperationEvidence-discrete Option-discrete replica_key Pair-discrete
restore_is_new = refl

donated :
    advance_lease (run init donating) "lease-1" (evidence "donate-1" 5)
    ≡ (ok released, (advance_lease (run init donating) "lease-1" (evidence "donate-1" 5)).1)
unfolding init run handle attach_task open_lease submit_operation advance_lease detach Dict.get
    Dict.put Dict.put_all Dict.all_free_for String-discrete as_text is_missing as_index is_halves
    ℕ_discrete native_replica_key OperationKind-discrete EvidenceType-discrete ReplicaKey-discrete
    OperationCommand-discrete OperationEvidence-discrete Option-discrete replica_key Pair-discrete
donated = refl

conflict :
    advance_lease (run init lent) "lease-1" (evidence "donate-1" 6)
    ≡ (err conflicting_evidence, run init lent)
unfolding init run handle attach_task open_lease submit_operation advance_lease detach Dict.get
    Dict.put Dict.put_all Dict.all_free_for String-discrete as_text is_missing as_index is_halves
    ℕ_discrete native_replica_key OperationKind-discrete EvidenceType-discrete ReplicaKey-discrete
    OperationCommand-discrete OperationEvidence-discrete Option-discrete replica_key Pair-discrete
conflict = refl

abbrev elsewhere : List Event
elsewhere = opens rival ∷ attaches "task-c" 3 ∷ advances "lease-2" (evidence "donate-1" 5) ∷ []

differ : (a b : String) → (a == b) ≡ false → ¬ (some a ≡ some b)
differ a b h same = ground arith

none_about : NoneAbout "lease-1" elsewhere
unfolding String-discrete
none_about =
    (differ "lease-2" "lease-1" refl, ((λ h. ground arith), (differ "lease-2" "lease-1" refl, tt)))

first_opens : open_lease init lease ≡ (ok lease, (open_lease init lease).1)
unfolding init run handle attach_task open_lease detach Dict.get Dict.put Dict.put_all
    Dict.all_free_for String-discrete as_text is_missing as_index is_halves ℕ_discrete
first_opens = refl

rival_refused : open_lease (run init opened) rival ≡ (err gpu_taken, run init opened)
unfolding init run handle attach_task open_lease detach Dict.get Dict.put Dict.put_all
    Dict.all_free_for String-discrete as_text is_missing as_index is_halves ℕ_discrete Pair-discrete
rival_refused = refl

lease-IsLease : IsLease lease
unfolding make_lease as_text is_missing as_index is_halves String-discrete ℕ_discrete raw_claim
    checked_expiry Pair-discrete
lease-IsLease =
    make_lease-IsLease "lease-1" (raw_claim (claim "claim-1" "pg" "gpu-0") ∷ []) (at_tick (pos 0))
      lease refl

rival-IsLease : IsLease rival
unfolding make_lease as_text is_missing as_index is_halves String-discrete ℕ_discrete raw_claim
    checked_expiry Pair-discrete
rival-IsLease =
    make_lease-IsLease "lease-2" (raw_claim (claim "claim-2" "pg-2" "gpu-0") ∷ []) (at_tick (pos 0))
      rival refl

run-Kept_example : Kept "lease-1" (run init opened) (run (run init opened) elsewhere)
run-Kept_example = run-Kept "lease-1" (run init opened) elsewhere none_about

owned_gpu_authorized_example :
    (l : Lease) × (Dict.get (run init opened).leases "lease-1" ≡ some l)
    × (elem "gpu-0" (gpu_uuids l) ≡ true)
owned_gpu_authorized_example = owned_gpu_authorized opened "gpu-0" "lease-1" opened_gpu

claim_id_unique_example : lease.lease_id ≡ lease.lease_id
unfolding String-discrete
claim_id_unique_example =
    claim_id_unique opened "lease-1" "lease-1" "claim-1" lease lease opened_lease opened_lease refl
      refl

restore_reserves_example :
    (Dict.get (run init returned).active_gpu_owner "gpu-0" ≡ none)
    × (Dict.get (run init returned).active_bundle_owner ("pg", 0) ≡ none)
    × (Dict.get
          (stage (run init returned) (command "restore-1" restore donor) lease).active_gpu_owner
          "gpu-0"
        ≡ some "lease-1")
    × (Dict.get
          (stage (run init returned) (command "restore-1" restore donor) lease).active_bundle_owner
          ("pg", 0)
        ≡ some "lease-1")
unfolding String-discrete ℕ_discrete Pair-discrete
restore_reserves_example =
    restore_reserves (run init returned)
      (stage (run init returned) (command "restore-1" restore donor) lease)
      (command "restore-1" restore donor) lease 0 0 "gpu-0" ("pg", 0) refl restore_is_new
      restore_accepted refl refl

advance_replay_example :
    advance_lease
      (advance_lease (run init donating) "lease-1" (evidence "donate-1" 5)).1
      "lease-1"
      (evidence "donate-1" 5)
    ≡ (ok released, (advance_lease (run init donating) "lease-1" (evidence "donate-1" 5)).1)
advance_replay_example =
    advance_replay (run init donating)
      (advance_lease (run init donating) "lease-1" (evidence "donate-1" 5)).1 "lease-1"
      (evidence "donate-1" 5) released donated

advance_error_unchanged_example : run init lent ≡ run init lent
advance_error_unchanged_example =
    advance_error_unchanged (run init lent) (run init lent) "lease-1" (evidence "donate-1" 6)
      conflicting_evidence conflict
