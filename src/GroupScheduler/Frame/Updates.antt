-- ===== src/GroupScheduler/Frame/Updates.antt =====
-- The parts of submit_operation and advance_lease, seen from another lease (group_scheduler.py).
use verl_multi_task.Common.{
  String, ◌≡◌, refl, ap, inl, inr, true, is_some, nat_key, string_key, pair_key, option_key, arith,
  Bool-cases,
}
use verl_multi_task.Common.Dict
use verl_multi_task.Common.Dict.{Dict, Members}
use verl_multi_task.Contracts.{
  OperationCommand, OperationEvidence, add, restore, operation_command_key,
}
use verl_multi_task.Contracts.Lease.{Lease, bundle_keys, gpu_uuids}
use verl_multi_task.GroupScheduler.{GroupScheduler, or_empty}
use verl_multi_task.GroupScheduler.Leases.{lease_key}
use verl_multi_task.GroupScheduler.Submit.{stage_kind}
use verl_multi_task.GroupScheduler.Advance.{with_evidence, with_history, free_claims}
use verl_multi_task.GroupScheduler.Frame.{Kept-refl, Kept}

module _ (i : String) (s : GroupScheduler) where
  pub stage_restore-Kept :
      (c : OperationCommand) (l : Lease)
      → Dict.all_unowned s.active_gpu_owner (gpu_uuids l) ≡ true
      → Dict.all_unowned s.active_bundle_owner (bundle_keys l) ≡ true
      → ¬ (c.lease_id ≡ i)
      → Kept i s (stage_kind s c l restore)
  unfolding stage_kind
  stage_restore-Kept c l gpus bundles other = record {
    lease = refl;
    history = refl;
    handoff = refl;
    borrower = refl;
    gpus = λ g. ground (
      arith,
      Dict.get-put_all s.active_gpu_owner (gpu_uuids l) c.lease_id g,
      Dict.all_unowned-elem s.active_gpu_owner (gpu_uuids l) g,
    );
    bundles = λ b. ground (
      arith,
      Dict.get-put_all s.active_bundle_owner (bundle_keys l) c.lease_id b,
      Dict.all_unowned-elem s.active_bundle_owner (bundle_keys l) b,
    );
  }

  pub stage_add-Kept :
      (c : OperationCommand) (l : Lease) → ¬ (c.lease_id ≡ i) → Kept i s (stage_kind s c l add)
  unfolding stage_kind
  stage_add-Kept c l other = elim (Bool-cases (is_some (Dict.get s.borrower_targets c.lease_id))) [
    | inl taken ↦ rw taken (Kept-refl i s)
    | inr new ↦ rw new (record {
      lease = refl;
      history = refl;
      handoff = refl;
      borrower = Dict.get-put_ne s.borrower_targets c.lease_id i c.target other;
      gpus = λ g. refl;
      bundles = λ b. refl;
    })
  ]

-- Recording a command touches no lease.
pub with_command-Kept :
    (i : String) (s : GroupScheduler) (d : Dict String OperationCommand)
    → Kept i s (record s { operation_commands = d })
with_command-Kept i s d = record {
  lease = refl;
  history = refl;
  handoff = refl;
  borrower = refl;
  gpus = λ g. refl;
  bundles = λ b. refl;
}

pub with_evidence-Kept :
    (i : String) (s : GroupScheduler) (j : String) (e : OperationEvidence)
    → Kept i s (with_evidence s j e)
with_evidence-Kept i s j e = record {
  lease = refl;
  history = refl;
  handoff = refl;
  borrower = refl;
  gpus = λ g. refl;
  bundles = λ b. refl;
}

module _ (i : String) (s : GroupScheduler) (j : String) (other : ¬ (j ≡ i)) where
  pub with_history-Kept : (e : OperationEvidence) → Kept i s (with_history s j e)
  with_history-Kept e = record {
    lease = refl;
    history = ap or_empty (Dict.get-put_ne s.release_history j i _ other);
    handoff = refl;
    borrower = refl;
    gpus = λ g. refl;
    bundles = λ b. refl;
  }

  pub free_claims-Kept : (l : Lease) → Kept i s (free_claims s j l)
  unfolding free_claims
  free_claims-Kept l = record {
    lease = refl;
    history = refl;
    handoff = refl;
    borrower = refl;
    gpus = λ g. ground (arith, Dict.get-release_owned s.active_gpu_owner (gpu_uuids l) j g);
    bundles = λ b. ground (arith, Dict.get-release_owned s.active_bundle_owner (bundle_keys l) j b);
  }

  -- the handoff of `j` begins or ends, and its borrower is forgotten or not
  pub with_handoff-Kept :
      (d : Members String)
      → Dict.get d i ≡ Dict.get s.handoff_ready_leases i
      → Kept i s (record s { handoff_ready_leases = d })
  with_handoff-Kept d same = record {
    lease = refl;
    history = refl;
    handoff = same;
    borrower = refl;
    gpus = λ g. refl;
    bundles = λ b. refl;
  }

  pub without_borrower-Kept :
      Kept i s (record s { borrower_targets = Dict.remove s.borrower_targets j })
  without_borrower-Kept = record {
    lease = refl;
    history = refl;
    handoff = refl;
    borrower = Dict.get-remove_ne s.borrower_targets j i other;
    gpus = λ g. refl;
    bundles = λ b. refl;
  }
