-- ===== src/GroupScheduler/Frame/Calls.antt =====
-- The frame of each call, and of a history of calls (group_scheduler.py).
use verl_multi_task.Common.{
  ℕ, String, ◌≡◌, refl, ap, inl, inr, true, some, List, [], ◌∷◌, ok, nat_key, string_key, pair_key,
  option_key, arith, Result-cases,
}
use verl_multi_task.Common.Dict
use verl_multi_task.Common.Dict.{Dict, Members}
use verl_multi_task.Contracts.{
  ReplicaKind, ReplicaKey, OperationCommand, OperationEvidence, OperationKind, add, donate, remove,
  restore, operation_command_key,
}
use verl_multi_task.Contracts.Lease.{Lease, bundle_keys, gpu_uuids}
use verl_multi_task.GroupScheduler.{GroupScheduler}
use verl_multi_task.GroupScheduler.Reports.{submit_idle_report, validate_report}
use verl_multi_task.GroupScheduler.Leases.{lease_key}
use verl_multi_task.GroupScheduler.Submit.{check_kind, stage_kind, stage, submit_operation, Reply}
use verl_multi_task.GroupScheduler.Advance.{
  with_evidence, recorded, has_reservation, after_rollback, after_restore, after_add_rollback,
  after_donate, after_remove, advance_lease,
}
use verl_multi_task.GroupScheduler.Cases.{
  submit_cases, check_new-kind, Effect, unchanged, rolled_back, restored, add_rolled_back, donated,
  removed, advance_cases,
}
use verl_multi_task.GroupScheduler.Events.{
  Event, attaches, detaches, reports, opens, submits, advances, handle, run, about, NoneAbout,
}
use verl_multi_task.GroupScheduler.Frame.{
  Kept, Kept-refl, Kept-trans, attach_task-Kept, detach_task-Kept, open_lease-Kept,
}
use verl_multi_task.GroupScheduler.Frame.Updates.{
  stage_restore-Kept, stage_add-Kept, with_command-Kept, with_evidence-Kept, with_history-Kept,
  free_claims-Kept, with_handoff-Kept, without_borrower-Kept,
}

module _ (i : String) (s : GroupScheduler) where
  submit_idle_report-Kept :
      (now : ℕ) (session : String) (candidates : List (ReplicaKey × ReplicaKind))
      → Kept i s (submit_idle_report s now session candidates).1
  unfolding submit_idle_report
  submit_idle_report-Kept now session candidates =
      elim (Result-cases (validate_report s session candidates)) [
        | inl (e, bad) ↦ rw (bad, submit_idle_report) (Kept-refl i s)
        | inr (_, good) ↦
            rw (good, submit_idle_report)
              (record {
                lease = refl;
                history = refl;
                handoff = refl;
                borrower = refl;
                gpus = λ g. refl;
                bundles = λ b. refl;
              })
      ]

  stage_kind-Kept :
      (c : OperationCommand) (l : Lease) (monotonic : ℕ) (k : OperationKind)
      (d : Dict String OperationCommand)
      → check_kind s c l monotonic k ≡ ok tt
      → ¬ (c.lease_id ≡ i)
      → Kept i s (stage_kind (record s { operation_commands = d }) c l k)
  unfolding stage_kind
  stage_kind-Kept c l monotonic add d good other =
      Kept-trans (with_command-Kept i s d) (stage_add-Kept i _ c l other)
  stage_kind-Kept c l monotonic restore d good other = Kept-trans (with_command-Kept i s d) (
      stage_restore-Kept i _ c l (unfold check_kind in ground arith)
        (unfold check_kind in ground arith) other)
  stage_kind-Kept c l monotonic donate d good other = with_command-Kept i s d
  stage_kind-Kept c l monotonic remove d good other = with_command-Kept i s d

  submit_operation-Kept :
      (c : OperationCommand) (now monotonic : ℕ) (reply : Reply)
      → ¬ (c.lease_id ≡ i)
      → Kept i s (submit_operation s c now monotonic reply).1
  submit_operation-Kept c now monotonic reply other =
      submit_cases (Kept i s) s c now monotonic reply (Kept-refl i s) λ l known new checked.
        unfold stage in
        stage_kind-Kept c l monotonic c.kind _ (check_new-kind s c l now monotonic checked) other

  remove_all-Kept :
      (j : String) (l : Lease)
      → ¬ (j ≡ i)
      → has_reservation s j l ≡ true
      → Kept i s (record s {
        active_bundle_owner = Dict.remove_all s.active_bundle_owner (bundle_keys l);
        active_gpu_owner = Dict.remove_all s.active_gpu_owner (gpu_uuids l);
      })
  remove_all-Kept j l other held = record {
    lease = refl;
    history = refl;
    handoff = refl;
    borrower = refl;
    gpus = λ g. ground (
      arith,
      Dict.get-remove_all s.active_gpu_owner (gpu_uuids l) g,
      Dict.all_owned_by-elem s.active_gpu_owner (gpu_uuids l) j g,
      held',
    );
    bundles = λ b. ground (
      arith,
      Dict.get-remove_all s.active_bundle_owner (bundle_keys l) b,
      Dict.all_owned_by-elem s.active_bundle_owner (bundle_keys l) j b,
      held',
    );
  }
    where
      held' :
          (Dict.all_owned_by s.active_bundle_owner (bundle_keys l) j ≡ true)
          × (Dict.all_owned_by s.active_gpu_owner (gpu_uuids l) j ≡ true)
      held' = unfold has_reservation in ground arith

module _ (i : String) where
  recorded-Kept :
      (s : GroupScheduler) (j : String) (e : OperationEvidence)
      → ¬ (j ≡ i)
      → Kept i s (recorded s j e)
  recorded-Kept s j e other =
      Kept-trans (with_evidence-Kept i s j e) (with_history-Kept i (with_evidence s j e) j other e)

  Effect-Kept :
      {s : GroupScheduler} {c : OperationCommand} {j : String} {l : Lease} {e : OperationEvidence}
      {t : GroupScheduler}
      → ¬ (j ≡ i)
      → Effect s c j l e t
      → Kept i s t
  unfolding after_rollback after_restore after_add_rollback after_donate after_remove
      has_reservation
  Effect-Kept {s} other unchanged = Kept-refl i s
  Effect-Kept {s} {c = c} {j = j} {l = l} {e = e} other (rolled_back k held all) =
      Kept-trans (with_evidence-Kept i s j e) (free_claims-Kept i (with_evidence s j e) j other l)
  Effect-Kept {s} {c = c} {j = j} {l = l} {e = e} other (restored k held) =
      let t = recorded s j e in
      let u = record t { borrower_targets = Dict.remove t.borrower_targets j } in
      Kept-trans (recorded-Kept s j e other) (
        Kept-trans (without_borrower-Kept i t j other) (
          Kept-trans
            (with_handoff-Kept i u j other _ (Dict.get-remove_ne s.handoff_ready_leases j i other))
            (remove_all-Kept i _ j l other held)))
  Effect-Kept {s} {c = c} {j = j} {l = l} {e = e} other (add_rolled_back k ready all) =
      let t = recorded s j e in
      let u = record t { borrower_targets = Dict.remove t.borrower_targets j } in
      Kept-trans (recorded-Kept s j e other) (
        Kept-trans (without_borrower-Kept i t j other) (
          Kept-trans
            (with_handoff-Kept i u j other _ (Dict.get-remove_ne s.handoff_ready_leases j i other))
            (free_claims-Kept i _ j other l)))
  Effect-Kept {s} {c = c} {j = j} {l = l} {e = e} other (donated k all) =
      Kept-trans (recorded-Kept s j e other) (
        with_handoff-Kept i (recorded s j e) j other _
          (Dict.get-put_ne s.handoff_ready_leases j i tt other))
  Effect-Kept {s} {c = c} {j = j} {l = l} {e = e} other (removed k all) =
      Kept-trans (recorded-Kept s j e other) (
        Kept-trans
          (with_handoff-Kept i (recorded s j e) j other _
            (Dict.get-remove_ne s.handoff_ready_leases j i other))
          (free_claims-Kept i _ j other l))

  advance_lease-Kept :
      (s : GroupScheduler) (j : String) (e : OperationEvidence)
      → ¬ (j ≡ i)
      → Kept i s (advance_lease s j e).1
  advance_lease-Kept s j e other =
      advance_cases (Kept i s) s j e (Kept-refl i s)
        λ l c t known sent ours effect. Effect-Kept other effect

  handle-Kept : (s : GroupScheduler) (x : Event) → ¬ (about x ≡ some i) → Kept i s (handle s x)
  unfolding handle
  handle-Kept s (attaches task_id runner) other = attach_task-Kept i s task_id runner
  handle-Kept s (detaches task_id) other = detach_task-Kept i s task_id
  handle-Kept s (reports now session candidates) other =
      submit_idle_report-Kept i s now session candidates
  handle-Kept s (opens l) other = open_lease-Kept i s l (λ e. other (ap some e))
  handle-Kept s (submits c now monotonic reply) other =
      submit_operation-Kept i s c now monotonic reply (λ e. other (ap some e))
  handle-Kept s (advances j e) other = advance_lease-Kept s j e (λ p. other (ap some p))

  -- However many calls arrive, none of them about lease `i`: the lease, its history, its handoff and
  -- its borrower stay as they are, and it owns exactly the GPUs and bundles that it owned.
  pub run-Kept : (s : GroupScheduler) (xs : List Event) → NoneAbout i xs → Kept i s (run s xs)
  unfolding run
  run-Kept s [] others = Kept-refl i s
  run-Kept s (x ∷ xs) others =
      Kept-trans (handle-Kept s x others.0) (run-Kept (handle s x) xs others.1)
