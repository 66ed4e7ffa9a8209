-- ===== src/GroupScheduler/Ownership.antt =====
-- Who owns GPUs, bundles and claim ids after any history of calls (group_scheduler.py).
use verl_multi_task.Common.{
  ℕ, String, ◌≡◌, inl, inr, true, none, some, List, elem, ok, nat_key, string_key, pair_key,
  option_key, arith, Option-cases,
}
use verl_multi_task.Common.Dict
use verl_multi_task.Contracts.{OperationCommand, OperationKind, add, donate, remove, restore}
use verl_multi_task.Contracts.Lease.{Lease, claim_ids, bundle_keys, gpu_uuids}
use verl_multi_task.GroupScheduler.{GroupScheduler, init}
use verl_multi_task.GroupScheduler.Submit.{stage, stage_kind, check_kind, accept}
use verl_multi_task.GroupScheduler.Cases.{check_new-kind, accept_cases}
use verl_multi_task.GroupScheduler.Events.{Event, run}
use verl_multi_task.GroupScheduler.Ledger.{init-Inv}
use verl_multi_task.GroupScheduler.Ledger.Steps.{run-Inv}

-- After any calls on a fresh scheduler, a GPU that is active under a lease id is among the claims of
-- the lease that was opened under that id.
pub owned_gpu_authorized :
    (xs : List Event) (g i : String)
    → Dict.get (run init xs).active_gpu_owner g ≡ some i
    → (l : Lease) × (Dict.get (run init xs).leases i ≡ some l) × (elem g (gpu_uuids l) ≡ true)
owned_gpu_authorized xs g i h = elim (Option-cases (Dict.get (run init xs).leases i)) [
  | inl unknown ↦ absurd (ground (arith, (run-Inv init xs init-Inv).gpu_backed g i h))
  | inr (l, known) ↦ (l, known, ground (arith, (run-Inv init xs init-Inv).gpu_backed g i h))
]

-- After any calls on a fresh scheduler, two opened leases that both hold a claim id are one lease.
pub claim_id_unique :
    (xs : List Event) (i j c : String) (l m : Lease)
    → Dict.get (run init xs).leases i ≡ some l
    → Dict.get (run init xs).leases j ≡ some m
    → elem c (claim_ids l) ≡ true
    → elem c (claim_ids m) ≡ true
    → i ≡ j
claim_id_unique xs i j c l m hi hj hl hm =
    let v = run-Inv init xs init-Inv in cc (v.claims_owned i l c hi hl, v.claims_owned j m c hj hm)

check_restore :
    (s : GroupScheduler) (c : OperationCommand) (l : Lease) (monotonic : ℕ) (k : OperationKind)
    → k ≡ restore
    → check_kind s c l monotonic k ≡ ok tt
    → (Dict.all_unowned s.active_gpu_owner (gpu_uuids l) ≡ true)
      × (Dict.all_unowned s.active_bundle_owner (bundle_keys l) ≡ true)
unfolding check_kind
check_restore s c l monotonic restore same h = ground arith
check_restore s c l monotonic _ same h = cc

stage_restore :
    (s : GroupScheduler) (c : OperationCommand) (l : Lease) (k : OperationKind) (g : String)
    (b : String × ℕ)
    → k ≡ restore
    → elem g (gpu_uuids l) ≡ true
    → elem b (bundle_keys l) ≡ true
    → (Dict.get (stage_kind s c l k).active_gpu_owner g ≡ some c.lease_id)
      × (Dict.get (stage_kind s c l k).active_bundle_owner b ≡ some c.lease_id)
unfolding stage_kind
stage_restore s c l restore g b same hg hb = (
  (ground (arith, Dict.get-put_all s.active_gpu_owner (gpu_uuids l) c.lease_id g)),
  (ground (arith, Dict.get-put_all s.active_bundle_owner (bundle_keys l) c.lease_id b)),
)
stage_restore s c l add g b same hg hb = absurd (cc)
stage_restore s c l donate g b same hg hb = absurd (cc)
stage_restore s c l remove g b same hg hb = absurd (cc)

-- A RESTORE with a new id is accepted only while nobody owns a GPU or bundle of its lease, and
-- the scheduler from which it is dispatched has each of them owned by that lease.
pub restore_reserves :
    (s t : GroupScheduler) (c : OperationCommand) (l : Lease) (now monotonic : ℕ) (g : String)
    (b : String × ℕ)
    → c.kind ≡ restore
    → Dict.get s.operation_commands c.operation_id ≡ none
    → accept s c l now monotonic ≡ ok t
    → elem g (gpu_uuids l) ≡ true
    → elem b (bundle_keys l) ≡ true
    → (Dict.get s.active_gpu_owner g ≡ none)
      × (Dict.get s.active_bundle_owner b ≡ none)
      × (Dict.get t.active_gpu_owner g ≡ some c.lease_id)
      × (Dict.get t.active_bundle_owner b ≡ some c.lease_id)
restore_reserves s t c l now monotonic g b kind new accepted hg hb =
    elim (accept_cases s t c l now monotonic accepted) [
      | inl (known, _) ↦ absurd (cc)
      | inr (_, checked, e) ↦
          let free =
            check_restore s c l monotonic c.kind kind
              (check_new-kind s c l now monotonic checked) in
          (
            Dict.all_unowned-elem s.active_gpu_owner (gpu_uuids l) g free.0 hg,
            Dict.all_unowned-elem s.active_bundle_owner (bundle_keys l) b free.1 hb,
            rw e (unfold stage in (stage_restore _ c l c.kind g b kind hg hb).0),
            rw e (unfold stage in (stage_restore _ c l c.kind g b kind hg hb).1),
          )
    ]
