-- ===== src/ServerManager/Borrowed/Landing.antt =====
-- Where a failed creation lands (llm_server_manager.py, with the clean-up of replica.py).
use verl_multi_task.Common.{
  ℕ, String, ◌≡◌, refl, sym, ap, subst, ◌∙◌, inl, inr, Bool, true, false, Option, none, some, [],
  ◌∷◌, nat_key, string_key, option_key, Result, ok, err, Result-cases, Option-cases, Bool-cases,
  arith,
}
use verl_multi_task.Common.Dict
use verl_multi_task.Common.Dict.{get-put}
use verl_multi_task.Contracts.{
  ReplicaKey, replica_key_key, borrowed, ReplicaState, creating, released, quarantined,
}
use verl_multi_task.TaskRunner.Lifecycle.{BorrowedSpec}
use verl_multi_task.Replica.{Replica, RuntimeError, cleanup_borrowed_runtime}
use verl_multi_task.Replica.Cleanup.{Gone, cleanup-Gone}
use verl_multi_task.Replica.Creation.{Receipt, init_from_lease}
use verl_multi_task.Replica.Creation.Proof.{Proven, init_from_lease-Proven}
use verl_multi_task.ServerManager.{
  ServerManager, BorrowedOperation, ManagerError, create_failed, runtime_failure, borrowed_spec_key,
  allowed, validate_kind_state, transition_replica, replica_state_key, ReplicaState-discrete,
}
use verl_multi_task.ServerManager.Borrowed.{
  Answers, Ending, failed, resolve_placement_groups, clean_again, run_creation, landing, land,
  replay_create, create_begin, create_end, create_end_known,
}

-- the calls of the creation, in the placement group that was resolved
abbrev pub created :
    Answers → Replica → BorrowedSpec → ℕ → String → Option (Result RuntimeError Receipt × Replica)
created a new spec rank group =
    init_from_lease a.creation a.worker_world a.first_servers a.first_workers new spec rank
      (group ∷ [])

-- Nothing of the runtime of a creation is left: no runtime was constructed, or the creation's own
-- clean-up proved that what it built is gone, or the second clean-up proved it of what the first left.
pub data NothingLeft (a : Answers) (new : Replica) (spec : BorrowedSpec) (rank : ℕ) : Type 0 where
  not_resolved :
      (problem : ManagerError)
      → resolve_placement_groups a.groups spec.claims ≡ err problem
      → NothingLeft a new spec rank
  not_constructed : a.constructed ≡ false → NothingLeft a new spec rank
  proven_first :
      (group : String) (call : Result RuntimeError Receipt) (after : Replica)
      → resolve_placement_groups a.groups spec.claims ≡ ok group
      → created a new spec rank group ≡ some (call, after)
      → Proven a.creation a.worker_world a.first_servers a.first_workers new spec rank
          (group ∷ [])
          after
      → NothingLeft a new spec rank
  proven_second :
      (group : String) (call : Result RuntimeError Receipt) (mid after : Replica)
      → resolve_placement_groups a.groups spec.claims ≡ ok group
      → created a new spec rank group ≡ some (call, mid)
      → Gone a.second_servers a.second_workers mid after
      → NothingLeft a new spec rank

module _ (a : Answers) (new : Replica) (spec : BorrowedSpec) (rank : ℕ) where
  clean_again-NothingLeft :
      (group : String) (call : Result RuntimeError Receipt) (r : Replica)
      → resolve_placement_groups a.groups spec.claims ≡ ok group
      → created a new spec rank group ≡ some (call, r)
      → clean_again a.second_servers a.second_workers r ≡ some (failed true)
      → NothingLeft a new spec rank
  unfolding clean_again
  clean_again-NothingLeft group call r resolved made_so done =
      elim (Bool-cases r.cleanup_verified) [
        | inl flagged ↦ proven_first group call r resolved made_so (
            init_from_lease-Proven a.creation a.worker_world a.first_servers a.first_workers new r
              spec rank (group ∷ []) call made_so flagged)
        | inr unproven ↦
            elim (Option-cases (cleanup_borrowed_runtime a.second_servers a.second_workers r)) [
              | inl stuck ↦ ground (arith, done, unproven, stuck)
              | inr ((cleaned, after), ended) ↦ proven_second group call r after resolved made_so (
                  cleanup-Gone a.second_servers a.second_workers r after cleaned ended unproven
                    (flag_of after (ground (arith, done, unproven, ended))))
            ]
      ]
    where
      flag_of :
          (after : Replica)
          → ◌≡◌ {A = Option Ending} (some (failed after.cleanup_verified)) (some (failed true))
          → after.cleanup_verified ≡ true
      flag_of after same = ground (arith, same)

  run_creation-NothingLeft :
      (id : ℕ) → run_creation a id new spec rank ≡ some (failed true) → NothingLeft a new spec rank
  unfolding run_creation
  run_creation-NothingLeft id done =
      elim (Result-cases (resolve_placement_groups a.groups spec.claims)) [
        | inl (problem, unresolved) ↦ not_resolved problem unresolved
        | inr (group, resolved) ↦ elim (Bool-cases a.constructed) [
          | inr missing ↦ not_constructed missing
          | inl constructed ↦ elim (Option-cases (created a new spec rank group)) [
            | inl stuck ↦ ground (arith, done, resolved, constructed, stuck)
            | inr ((err problem, after), ended) ↦
                clean_again-NothingLeft group (err problem) after resolved ended
                  (ground (arith, done, resolved, constructed, ended))
            | inr ((ok receipt, after), ended) ↦
                clean_again-NothingLeft group (ok receipt) after resolved ended
                  (ground (arith, done, resolved, constructed, ended))
          ]
        ]
      ]

land-state :
    (m : ServerManager) (key : ReplicaKey) (verified : Bool)
    → Dict.get m.replica_state key ≡ some creating
    → Dict.get m.replica_kind key ≡ some borrowed
    → (Dict.get (land m key verified).replica_state key ≡ some (landing verified))
      × ((land m key verified).borrowed_operations ≡ m.borrowed_operations)
unfolding land transition_replica allowed validate_kind_state ReplicaState-discrete
land-state m key true waiting kind = (
  ground (arith, waiting, kind, get-put m.replica_state key key released),
  ground (arith, waiting, kind),
)
land-state m key false waiting kind = (
  ground (arith, waiting, kind, get-put m.replica_state key key quarantined),
  ground (arith, waiting, kind),
)

-- the state behind a failed creation
abbrev failed_end : ServerManager → ReplicaKey → BorrowedOperation → Bool → ServerManager
failed_end m key current verified =
    let after = land m key verified in
    record after {
      borrowed_operations =
          Dict.put after.borrowed_operations current.resolved_spec.lease_id
            (record current { error = some runtime_failure; result = none });
    }

ended :
    (m : ServerManager) (key : ReplicaKey) (current : BorrowedOperation) (verified : Bool)
    → Dict.get m.borrowed_operations current.resolved_spec.lease_id ≡ some current
    → (create_end m current.resolved_spec.lease_id key (failed verified)).1
      ≡ failed_end m key current verified
unfolding create_end create_end_known
ended m key current verified known = ground (arith, known)

refused :
    (m : ServerManager) (key : ReplicaKey) (current : BorrowedOperation) (verified : Bool)
    → create_begin (failed_end m key current verified) current.resolved_spec
      ≡ (err create_failed, failed_end m key current verified)
unfolding create_begin replay_create
refused m key current verified = ground (
  arith,
  get-put (land m key verified).borrowed_operations current.resolved_spec.lease_id
      current.resolved_spec.lease_id
      (record current { error = some runtime_failure; result = none }),
)

landed :
    (verified : Bool)
    → ◌≡◌ {A = Option ReplicaState} (some (landing verified)) (some released)
    → verified ≡ true
landed true same = refl
landed false same = ground (arith, same)

-- A borrowed replica whose creation failed becomes RELEASED when its clean-up is verified, and
-- QUARANTINED when it is not. RELEASED means that nothing of its runtime is left: no runtime was
-- constructed, or every recorded actor of the runtime that this creation built was seen dead, and
-- names were recorded wherever it had handles. And a later create of the same lease with the same specification
-- raises the failure again, without a second rank.
pub failed_creation :
    (m : ServerManager) (a : Answers) (id : ℕ) (new : Replica) (key : ReplicaKey)
    (current : BorrowedOperation) (verified : Bool)
    → Dict.get m.borrowed_operations current.resolved_spec.lease_id ≡ some current
    → Dict.get m.replica_state key ≡ some creating
    → Dict.get m.replica_kind key ≡ some borrowed
    → run_creation a id new current.resolved_spec current.replica_rank ≡ some (failed verified)
    → let after = (create_end m current.resolved_spec.lease_id key (failed verified)).1 in
      (Dict.get after.replica_state key ≡ some (landing verified))
      × (Dict.get after.replica_state key ≡ some released
          → NothingLeft a new current.resolved_spec current.replica_rank)
      × (create_begin after current.resolved_spec ≡ (err create_failed, after))
failed_creation m a id new key current verified known waiting kind done =
    let state = (land-state m key verified waiting kind).0 in
    subst
      (λ x.
        (Dict.get x.replica_state key ≡ some (landing verified))
        × (Dict.get x.replica_state key ≡ some released
            → NothingLeft a new current.resolved_spec current.replica_rank)
        × (create_begin x current.resolved_spec ≡ (err create_failed, x)))
      (sym (ended m key current verified known))
      (
        state,
        λ gone.
            run_creation-NothingLeft a new current.resolved_spec current.replica_rank id
              (done ∙ ap (λ v. some (failed v)) (landed verified (sym state ∙ gone))),
        refused m key current verified,
      )
