-- ===== src/GroupScheduler/Ledger/Steps.antt =====
-- The ownership ledger under every call, and over a history of calls (group_scheduler.py).
use verl_multi_task.Common.{
  ℕ, String, ◌≡◌, nonempty, inl, inr, none, some, List, [], ◌∷◌, ◌==◌, is_some, ok, nat_key,
  string_key, pair_key, option_key, arith, Bool-cases, Option-cases, Result-cases, map, pos,
}
use verl_multi_task.Common.Dict
use verl_multi_task.Common.Dict.{Dict}
use verl_multi_task.Contracts.{
  OperationCommand, OperationEvidence, OperationKind, add, donate, remove, restore, ReplicaKind,
  ReplicaKey,
}
use verl_multi_task.Contracts.Lease.{
  Lease, bundle_keys, gpu_uuids, detach, claims, raw_claim, at_tick,
}
use verl_multi_task.Contracts.Lease.Normal.{IsLease, make_lease-IsLease, lease_id-detach}
use verl_multi_task.GroupScheduler.{GroupScheduler, IdleReport, attach_task, detach_task}
use verl_multi_task.GroupScheduler.Reports.{submit_idle_report, validate_report}
use verl_multi_task.GroupScheduler.Leases.{check_free, open_new, open_lease, lease_key}
use verl_multi_task.GroupScheduler.Submit.{stage, stage_kind}
use verl_multi_task.GroupScheduler.Cases.{submit_cases, advance_cases}
use verl_multi_task.GroupScheduler.Events.{
  Event, attaches, detaches, reports, opens, submits, advances, handle, run,
}
use verl_multi_task.GroupScheduler.Ledger.{Inv, record_lease-Inv, Shrunk, Effect-Shrunk}

detach-valid : (l m : Lease) → detach l ≡ ok m → IsLease m
unfolding detach
detach-valid l m h =
    make_lease-IsLease l.lease_id (map raw_claim (claims l)) (at_tick (pos l.expires_at)) m h

module _ (s : GroupScheduler) (v : Inv s) where
  open_new-Inv : (l : Lease) → Dict.get s.leases l.lease_id ≡ none → Inv (open_new s l).1
  unfolding open_new
  open_new-Inv l new = elim (Result-cases (detach l)) [
    | inl (e, bad) ↦ rw (bad, open_new) v
    | inr (m, made) ↦
        rw (made, open_new)
          (elim (Result-cases (check_free s m)) [
            | inl (e, taken) ↦ rw (taken, open_new) v
            | inr (_, free) ↦
                rw (free, open_new)
                  (record_lease-Inv s m v (rw (lease_id-detach l m made) new) free
                    (detach-valid l m made))
          ])
  ]

  open_lease-Inv : (l : Lease) → Inv (open_lease s l).1
  unfolding open_lease
  open_lease-Inv l = elim (Option-cases (Dict.get s.leases l.lease_id)) [
    | inl new ↦ rw (new, open_lease) (open_new-Inv l new)
    | inr (m, known) ↦
        rw (known, open_lease)
          (elim (Bool-cases (m == l)) [ inl same ↦ rw same v | inr differs ↦ rw differs v ])
  ]

  Shrunk-Inv :
      (i : String) (e : OperationEvidence) (t : GroupScheduler) (c : OperationCommand)
      → Dict.get s.operation_commands e.operation_id ≡ some c
      → c.lease_id ≡ i
      → Shrunk i e s t
      → Inv t
  Shrunk-Inv i e t c sent ours h = record {
    named = λ j l k. v.named j l (rw (← h.leases) k);
    normal = λ j l k. v.normal j l (rw (← h.leases) k);
    gpu_backed = λ g j k. rw h.leases (v.gpu_backed g j (h.gpus g j k));
    bundle_backed = λ b j k. rw h.leases (v.bundle_backed b j (h.bundles b j k));
    claims_owned = λ j l x k m. rw h.claim_ids (v.claims_owned j l x (rw (← h.leases) k) m);
    commands_named = λ o d k. v.commands_named o d (rw (← h.commands) k);
    commands_leased = λ o d k. rw h.leases (v.commands_leased o d (rw (← h.commands) k));
    evidence_named = λ j o x k. ground (arith, h.evidence j o x k, v.evidence_named j o x);
    evidence_commanded =
        λ j o x k. rw h.commands (ground (arith, h.evidence j o x k, v.evidence_commanded j o x));
  }

  -- a new command of a known lease
  with_command-Inv :
      (c : OperationCommand) (l : Lease)
      → Dict.get s.leases c.lease_id ≡ some l
      → Dict.get s.operation_commands c.operation_id ≡ none
      → Inv (record s { operation_commands = Dict.put s.operation_commands c.operation_id c })
  with_command-Inv c l known new = record {
    named = v.named;
    normal = v.normal;
    gpu_backed = v.gpu_backed;
    bundle_backed = v.bundle_backed;
    claims_owned = v.claims_owned;
    commands_named = λ o d k.
        ground (arith, Dict.get-put s.operation_commands c.operation_id o c, v.commands_named o d);
    commands_leased = λ o d k.
        ground (arith, Dict.get-put s.operation_commands c.operation_id o c, v.commands_leased o d);
    evidence_named = v.evidence_named;
    evidence_commanded = λ j o x k.
        ground (
          arith,
          Dict.get-put s.operation_commands c.operation_id o c,
          v.evidence_commanded j o x k,
        );
  }

  -- the reservation that RESTORE stages
  reserve-Inv :
      (i : String) (l : Lease)
      → Dict.get s.leases i ≡ some l
      → Inv (record s {
        active_bundle_owner = Dict.put_all s.active_bundle_owner (bundle_keys l) i;
        active_gpu_owner = Dict.put_all s.active_gpu_owner (gpu_uuids l) i;
      })
  reserve-Inv i l known = record {
    named = v.named;
    normal = v.normal;
    gpu_backed = λ g j k.
        ground (arith, Dict.get-put_all s.active_gpu_owner (gpu_uuids l) i g, v.gpu_backed g j);
    bundle_backed = λ b j k.
        ground
          (arith, Dict.get-put_all s.active_bundle_owner (bundle_keys l) i b, v.bundle_backed b j);
    claims_owned = v.claims_owned;
    commands_named = v.commands_named;
    commands_leased = v.commands_leased;
    evidence_named = v.evidence_named;
    evidence_commanded = v.evidence_commanded;
  }

  -- runners, idle reports and borrower targets are not part of the ledger
  beside-Inv :
      (r : Dict String ℕ) (q : Dict String IdleReport) (b : Dict String ReplicaKey)
      → Inv (record s { task_runners = r; idle_reports = q; borrower_targets = b })
  beside-Inv r q b = record {
    named = v.named;
    normal = v.normal;
    gpu_backed = v.gpu_backed;
    bundle_backed = v.bundle_backed;
    claims_owned = v.claims_owned;
    commands_named = v.commands_named;
    commands_leased = v.commands_leased;
    evidence_named = v.evidence_named;
    evidence_commanded = v.evidence_commanded;
  }

stage_kind-Inv :
    (s : GroupScheduler) (c : OperationCommand) (l : Lease) (k : OperationKind)
    → Inv s
    → Dict.get s.leases c.lease_id ≡ some l
    → Inv (stage_kind s c l k)
unfolding stage_kind
stage_kind-Inv s c l add v known =
    elim (Bool-cases (is_some (Dict.get s.borrower_targets c.lease_id))) [
      | inl taken ↦ rw taken v
      | inr new ↦ rw new (beside-Inv s v _ _ _)
    ]
stage_kind-Inv s c l restore v known = reserve-Inv s v c.lease_id l known
stage_kind-Inv s c l donate v known = v
stage_kind-Inv s c l remove v known = v

attach_task-Inv : (s : GroupScheduler) (t : String) (r : ℕ) → Inv s → Inv (attach_task s t r).1
unfolding attach_task
attach_task-Inv s t r v = elim (Bool-cases (nonempty t)) [
  | inr bad ↦ rw bad v
  | inl good ↦ rw good (elim (Option-cases (Dict.get s.task_runners t)) [
    | inl new ↦ rw (new, attach_task) (beside-Inv s v _ _ _)
    | inr (x, known) ↦
        rw (known, attach_task)
          (elim (Bool-cases (x == r)) [
            | inl same ↦ rw same (beside-Inv s v _ _ _)
            | inr other ↦ rw other v
          ])
  ])
]

detach_task-Inv : (s : GroupScheduler) (t : String) → Inv s → Inv (detach_task s t).1
unfolding detach_task
detach_task-Inv s t v = elim (Bool-cases (nonempty t)) [
  | inr bad ↦ rw bad v
  | inl good ↦ rw good (beside-Inv s v _ _ _)
]

submit_idle_report-Inv :
    (s : GroupScheduler) (now : ℕ) (t : String) (cs : List (ReplicaKey × ReplicaKind))
    → Inv s
    → Inv (submit_idle_report s now t cs).1
unfolding submit_idle_report
submit_idle_report-Inv s now t cs v = elim (Result-cases (validate_report s t cs)) [
  | inl (e, bad) ↦ rw (bad, submit_idle_report) v
  | inr (_, good) ↦ rw (good, submit_idle_report) (beside-Inv s v _ _ _)
]

-- Every call, whether it returns or raises, keeps the ledger backed by the opened leases.
handle-Inv : (s : GroupScheduler) (x : Event) → Inv s → Inv (handle s x)
unfolding handle
handle-Inv s (attaches t r) v = attach_task-Inv s t r v
handle-Inv s (detaches t) v = detach_task-Inv s t v
handle-Inv s (reports now t cs) v = submit_idle_report-Inv s now t cs v
handle-Inv s (opens l) v = open_lease-Inv s v l
handle-Inv s (submits c now monotonic reply) v =
    submit_cases Inv s c now monotonic reply v λ l known new checked.
      unfold stage in stage_kind-Inv _ c l c.kind (with_command-Inv s v c l known new) known
handle-Inv s (advances i e) v =
    advance_cases Inv s i e v
      λ l c t known sent ours effect. Shrunk-Inv s v i e t c sent ours (Effect-Shrunk effect)

pub run-Inv : (s : GroupScheduler) (xs : List Event) → Inv s → Inv (run s xs)
unfolding run
run-Inv s [] v = v
run-Inv s (x ∷ xs) v = run-Inv (handle s x) xs (handle-Inv s x v)
