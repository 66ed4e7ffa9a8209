-- ===== src/GroupScheduler/Frame.antt =====
-- What a call about one lease does to another lease (group_scheduler.py).
pub mod Updates
pub mod Calls
use verl_multi_task.Common.{
  ℕ, String, ◌≡◌, refl, ap, sym, ◌∙◌, ◌⊎◌, inl, inr, Bool, true, false, Option, none, some, List,
  [], ◌∷◌, ◌==◌, if◌then◌else◌, is_some, elem, not, Result, ok, err, ◌>>=◌, ◌>>◌, require, nat_key,
  string_key, pair_key, option_key, String-discrete, ℕ_discrete, Option-discrete, Pair-discrete,
  arith, Result-cases, Bool-cases, Option-cases,
}
use verl_multi_task.Common.Dict
use verl_multi_task.Common.Dict.{Dict, Members}
use verl_multi_task.Contracts.{
  ReplicaKey, OperationCommand, OperationEvidence, OperationKind, EvidenceType, add, donate, remove,
  restore, service_committed, released_gpus, weight_ready, exit_ready, operation_command_key,
  OperationCommand-discrete,
}
use verl_multi_task.Contracts.Lease.{Lease, claim_ids, bundle_keys, gpu_uuids, detach}
use verl_multi_task.Contracts.Lease.Normal.{lease_id-detach}
use verl_multi_task.GroupScheduler.{
  GroupScheduler, Outcome, attach_task, detach_task, history_of, append_history, or_empty,
}
use verl_multi_task.GroupScheduler.Reports.{submit_idle_report}
use verl_multi_task.GroupScheduler.Leases.{
  as_scheduler, check_free, record_lease, open_new, open_lease, lease_key,
}
use verl_multi_task.GroupScheduler.Submit.{
  check_kind, check_new, stage_kind, stage, accept, submit_operation,
}
use verl_multi_task.GroupScheduler.Advance.{with_evidence, with_history, free_claims}
use verl_multi_task.GroupScheduler.Events.{
  Event, attaches, detaches, reports, opens, submits, advances, handle, run, about, NoneAbout,
}

-- What the ledger holds about lease `i` is the same in both: the lease, its history, its handoff and
-- borrower, and exactly which bundles and GPUs it owns.
pub record Kept (i : String) (s t : GroupScheduler) : Type 0 where
  pub lease : Dict.get t.leases i ≡ Dict.get s.leases i
  pub history : history_of t i ≡ history_of s i
  pub handoff : Dict.get t.handoff_ready_leases i ≡ Dict.get s.handoff_ready_leases i
  pub borrower : Dict.get t.borrower_targets i ≡ Dict.get s.borrower_targets i
  pub gpus :
      (g : String)
      → (Dict.get t.active_gpu_owner g == some i) ≡ (Dict.get s.active_gpu_owner g == some i)
  pub bundles :
      (b : String × ℕ)
      → (Dict.get t.active_bundle_owner b == some i) ≡ (Dict.get s.active_bundle_owner b == some i)

pub Kept-refl : (i : String) (s : GroupScheduler) → Kept i s s
Kept-refl i s = record {
  lease = refl;
  history = refl;
  handoff = refl;
  borrower = refl;
  gpus = λ g. refl;
  bundles = λ b. refl;
}

pub Kept-trans : {i : String} {s t u : GroupScheduler} → Kept i s t → Kept i t u → Kept i s u
Kept-trans h k = record {
  lease = k.lease ∙ h.lease;
  history = k.history ∙ h.history;
  handoff = k.handoff ∙ h.handoff;
  borrower = k.borrower ∙ h.borrower;
  gpus = λ g. k.gpus g ∙ h.gpus g;
  bundles = λ b. k.bundles b ∙ h.bundles b;
}

module _ (i : String) (s : GroupScheduler) where
  pub attach_task-Kept : (task_id : String) (runner : ℕ) → Kept i s (attach_task s task_id runner).1
  unfolding attach_task
  attach_task-Kept task_id runner = record {
    lease = ground arith;
    history = ground arith;
    handoff = ground arith;
    borrower = ground arith;
    gpus = λ g. ground arith;
    bundles = λ b. ground arith;
  }

  pub record_lease-Kept :
      (l : Lease) → check_free s l ≡ ok tt → ¬ (l.lease_id ≡ i) → Kept i s (record_lease s l)
  unfolding check_free record_lease
  record_lease-Kept l free other = record {
    lease = ground (arith, Dict.get-put s.leases l.lease_id i l);
    history = ap or_empty (Dict.get-put_ne s.release_history l.lease_id i _ other);
    handoff = refl;
    borrower = refl;
    gpus = λ g. ground (
      arith,
      Dict.get-put_all s.active_gpu_owner (gpu_uuids l) l.lease_id g,
      Dict.all_free_for-elem s.active_gpu_owner (gpu_uuids l) l.lease_id g i,
    );
    bundles = λ b. ground (
      arith,
      Dict.get-put_all s.active_bundle_owner (bundle_keys l) l.lease_id b,
      Dict.all_free_for-elem s.active_bundle_owner (bundle_keys l) l.lease_id b i,
    );
  }

  pub detach_task-Kept : (task_id : String) → Kept i s (detach_task s task_id).1
  unfolding detach_task
  detach_task-Kept task_id = record {
    lease = ground arith;
    history = ground arith;
    handoff = ground arith;
    borrower = ground arith;
    gpus = λ g. ground arith;
    bundles = λ b. ground arith;
  }

  pub open_new-Kept : (l : Lease) → ¬ (l.lease_id ≡ i) → Kept i s (open_new s l).1
  unfolding open_new
  open_new-Kept l other = elim (Result-cases (detach l)) [
    | inl (e, bad) ↦ rw (bad, open_new) (Kept-refl i s)
    | inr (m, made) ↦
        rw (made, open_new)
          (elim (Result-cases (check_free s m)) [
            | inl (e, taken) ↦ rw (taken, open_new) (Kept-refl i s)
            | inr (_, free) ↦
                rw (free, open_new)
                  (record_lease-Kept m free λ same. other (sym (lease_id-detach l m made) ∙ same))
          ])
  ]

  pub open_lease-Kept : (l : Lease) → ¬ (l.lease_id ≡ i) → Kept i s (open_lease s l).1
  unfolding open_lease
  open_lease-Kept l other = elim (Option-cases (Dict.get s.leases l.lease_id)) [
    | inl new ↦ rw (new, open_lease) (open_new-Kept l other)
    | inr (m, known) ↦
        rw (known, open_lease)
          (elim (Bool-cases (m == l)) [
            | inl same ↦ rw same (Kept-refl i s)
            | inr differs ↦ rw differs (Kept-refl i s)
          ])
  ]
