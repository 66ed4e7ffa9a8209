-- ===== src/GroupScheduler/Ledger.antt =====
-- The ownership ledger and the leases that were opened (group_scheduler.py).
pub mod Steps
use verl_multi_task.Common.{
  ℕ, String, ◌≡◌, refl, ap, sym, subst, ◌∙◌, ◌⊎◌, inl, inr, Bool, true, false, Option, none, some,
  List, [], ◌∷◌, ◌==◌, if◌then◌else◌, is_some, elem, Result, ok, err, nat_key, string_key, pair_key,
  option_key, String-discrete, ℕ_discrete, Option-discrete, Pair-discrete, arith, Bool-cases,
  Option-cases,
}
use verl_multi_task.Common.Dict
use verl_multi_task.Common.Dict.{Dict}
use verl_multi_task.Contracts.{OperationCommand, OperationEvidence}
use verl_multi_task.Contracts.Lease.{Lease, claim_ids, bundle_keys, gpu_uuids}
use verl_multi_task.Contracts.Lease.Normal.{IsLease}
use verl_multi_task.GroupScheduler.{GroupScheduler, init}
use verl_multi_task.GroupScheduler.Leases.{check_free, record_lease}
use verl_multi_task.GroupScheduler.Advance.{
  after_rollback, after_restore, after_add_rollback, after_donate, after_remove, free_claims,
}
use verl_multi_task.GroupScheduler.Cases.{
  Effect, unchanged, rolled_back, restored, add_rolled_back, donated, removed,
}

abbrev pub covers_gpu : Option Lease → String → Bool
covers_gpu none g = false
covers_gpu (some l) g = elem g (gpu_uuids l)

abbrev pub covers_bundle : Option Lease → String × ℕ → Bool
covers_bundle none b = false
covers_bundle (some l) b = elem b (bundle_keys l)

abbrev pub lease_of_command : Option OperationCommand → Option String
lease_of_command none = none
lease_of_command (some c) = some c.lease_id

pub record Inv (s : GroupScheduler) : Type 0 where
  pub named : (i : String) (l : Lease) → Dict.get s.leases i ≡ some l → l.lease_id ≡ i
  pub normal : (i : String) (l : Lease) → Dict.get s.leases i ≡ some l → IsLease l
  pub gpu_backed :
      (g i : String)
      → Dict.get s.active_gpu_owner g ≡ some i
      → covers_gpu (Dict.get s.leases i) g ≡ true
  pub bundle_backed :
      (b : String × ℕ) (i : String)
      → Dict.get s.active_bundle_owner b ≡ some i
      → covers_bundle (Dict.get s.leases i) b ≡ true
  pub claims_owned :
      (i : String) (l : Lease) (c : String)
      → Dict.get s.leases i ≡ some l
      → elem c (claim_ids l) ≡ true
      → Dict.get s.claim_id_owner c ≡ some i
  pub commands_named :
      (o : String) (c : OperationCommand)
      → Dict.get s.operation_commands o ≡ some c
      → c.operation_id ≡ o
  pub commands_leased :
      (o : String) (c : OperationCommand)
      → Dict.get s.operation_commands o ≡ some c
      → is_some (Dict.get s.leases c.lease_id) ≡ true
  pub evidence_named :
      (i o : String) (e : OperationEvidence)
      → Dict.get s.release_evidence (i, o) ≡ some e
      → e.operation_id ≡ o
  pub evidence_commanded :
      (i o : String) (e : OperationEvidence)
      → Dict.get s.release_evidence (i, o) ≡ some e
      → lease_of_command (Dict.get s.operation_commands o) ≡ some i

pub init-Inv : Inv init
unfolding init Dict.get
init-Inv = record {
  named = λ i l h. cc;
  normal = λ i l h. absurd (cc);
  gpu_backed = λ g i h. cc;
  bundle_backed = λ b i h. cc;
  claims_owned = λ i l c h k. cc;
  commands_named = λ o c h. cc;
  commands_leased = λ o c h. cc;
  evidence_named = λ i o e h. cc;
  evidence_commanded = λ i o e h. cc;
}

-- A new lease whose claims are free is recorded with them.
record_lease-Inv :
    (s : GroupScheduler) (l : Lease)
    → Inv s
    → Dict.get s.leases l.lease_id ≡ none
    → check_free s l ≡ ok tt
    → IsLease l
    → Inv (record_lease s l)
unfolding record_lease check_free
record_lease-Inv s l v new free valid = record {
  named = λ i m h. ground (arith, Dict.get-put s.leases l.lease_id i l, v.named i m);
  normal = λ i m h. elim (Bool-cases (l.lease_id == i)) [
    | inl same ↦ subst IsLease (ground (arith, Dict.get-put s.leases l.lease_id i l)) valid
    | inr other ↦ v.normal i m (ground (arith, Dict.get-put s.leases l.lease_id i l))
  ];
  gpu_backed = λ g i h. ground (
    arith,
    Dict.get-put s.leases l.lease_id i l,
    Dict.get-put_all s.active_gpu_owner (gpu_uuids l) l.lease_id g,
    v.gpu_backed g i,
  );
  bundle_backed = λ b i h. ground (
    arith,
    Dict.get-put s.leases l.lease_id i l,
    Dict.get-put_all s.active_bundle_owner (bundle_keys l) l.lease_id b,
    v.bundle_backed b i,
  );
  claims_owned = λ i m c h k. ground (
    arith,
    Dict.get-put s.leases l.lease_id i l,
    Dict.get-put_all s.claim_id_owner (claim_ids l) l.lease_id c,
    Dict.all_free_for-elem s.claim_id_owner (claim_ids l) l.lease_id c i,
    v.claims_owned i m c,
  );
  commands_named = v.commands_named;
  commands_leased =
      λ o c h. ground (arith, Dict.get-put s.leases l.lease_id c.lease_id l, v.commands_leased o c);
  evidence_named = v.evidence_named;
  evidence_commanded = v.evidence_commanded;
}

-- A piece of evidence changes nothing but itself, and only takes ownership away.
record Shrunk (i : String) (e : OperationEvidence) (s t : GroupScheduler) : Type 0 where
  leases : t.leases ≡ s.leases
  claim_ids : t.claim_id_owner ≡ s.claim_id_owner
  commands : t.operation_commands ≡ s.operation_commands
  gpus :
      (g j : String)
      → Dict.get t.active_gpu_owner g ≡ some j
      → Dict.get s.active_gpu_owner g ≡ some j
  bundles :
      (b : String × ℕ) (j : String)
      → Dict.get t.active_bundle_owner b ≡ some j
      → Dict.get s.active_bundle_owner b ≡ some j
  evidence :
      (j o : String) (x : OperationEvidence)
      → Dict.get t.release_evidence (j, o) ≡ some x
      → (Dict.get s.release_evidence (j, o) ≡ some x) ⊎ (i ≡ j) × (e.operation_id ≡ o) × (e ≡ x)

put_evidence :
    (d : Dict (String × String) OperationEvidence) (i : String) (e : OperationEvidence)
    (j o : String) (x : OperationEvidence)
    → Dict.get (Dict.put d (i, e.operation_id) e) (j, o) ≡ some x
    → (Dict.get d (j, o) ≡ some x) ⊎ (i ≡ j) × (e.operation_id ≡ o) × (e ≡ x)
put_evidence d i e j o x h = ground (arith, Dict.get-put d (i, e.operation_id) (j, o) e)

Effect-Shrunk :
    {s : GroupScheduler} {c : OperationCommand} {i : String} {l : Lease} {e : OperationEvidence}
    {t : GroupScheduler}
    → Effect s c i l e t
    → Shrunk i e s t
unfolding after_rollback after_restore after_add_rollback after_donate after_remove free_claims
Effect-Shrunk unchanged = record {
  leases = refl;
  claim_ids = refl;
  commands = refl;
  gpus = λ g j h. h;
  bundles = λ b j h. h;
  evidence = λ j o x h. inl h;
}
Effect-Shrunk {s} {i = i} {l = l} {e = e} (rolled_back k held all) = record {
  leases = refl;
  claim_ids = refl;
  commands = refl;
  evidence = put_evidence s.release_evidence i e;
  gpus = λ g j h. ground (arith, Dict.get-release_owned s.active_gpu_owner (gpu_uuids l) i g);
  bundles =
      λ b j h. ground (arith, Dict.get-release_owned s.active_bundle_owner (bundle_keys l) i b);
}
Effect-Shrunk {s} {i = i} {l = l} {e = e} (restored k held) = record {
  leases = refl;
  claim_ids = refl;
  commands = refl;
  evidence = put_evidence s.release_evidence i e;
  gpus = λ g j h. ground (arith, Dict.get-remove_all s.active_gpu_owner (gpu_uuids l) g);
  bundles = λ b j h. ground (arith, Dict.get-remove_all s.active_bundle_owner (bundle_keys l) b);
}
Effect-Shrunk {s} {i = i} {l = l} {e = e} (add_rolled_back k ready all) = record {
  leases = refl;
  claim_ids = refl;
  commands = refl;
  evidence = put_evidence s.release_evidence i e;
  gpus = λ g j h. ground (arith, Dict.get-release_owned s.active_gpu_owner (gpu_uuids l) i g);
  bundles =
      λ b j h. ground (arith, Dict.get-release_owned s.active_bundle_owner (bundle_keys l) i b);
}
Effect-Shrunk {s} {i = i} {e = e} (donated k all) = record {
  leases = refl;
  claim_ids = refl;
  commands = refl;
  gpus = λ g j h. h;
  bundles = λ b j h. h;
  evidence = put_evidence s.release_evidence i e;
}
Effect-Shrunk {s} {i = i} {l = l} {e = e} (removed k all) = record {
  leases = refl;
  claim_ids = refl;
  commands = refl;
  evidence = put_evidence s.release_evidence i e;
  gpus = λ g j h. ground (arith, Dict.get-release_owned s.active_gpu_owner (gpu_uuids l) i g);
  bundles =
      λ b j h. ground (arith, Dict.get-release_owned s.active_bundle_owner (bundle_keys l) i b);
}
