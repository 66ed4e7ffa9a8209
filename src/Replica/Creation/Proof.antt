-- ===== src/Replica/Creation/Proof.antt =====
-- The proof flag of a runtime that was created, or was not (replica.py).
use verl_multi_task.Common.{
  ℕ, String, ◌≡◌, refl, inl, inr, true, false, some, List, [], ◌∷◌, ◌==◌, if◌then◌else◌, string_key,
  list_key, Result, ok, err, Result-cases, Option-cases, Bool-cases, arith,
}
use verl_multi_task.TaskRunner.Lifecycle.{BorrowedSpec}
use verl_multi_task.Replica.{
  World, RuntimeError, remote_failure, Replica, returned, kill_workers_verified,
  cleanup_borrowed_runtime,
}
use verl_multi_task.Replica.Cleanup.{Gone, cleanup-Gone}
use verl_multi_task.Replica.Creation.{
  Remote, Receipt, validate_placement, actor_name, planned, validate_worker_placement, undo_worker,
  place_worker, create_workers_from_claims, launched, launch, abandon, init_from_lease,
}

undo_worker_flag :
    (w : World) (r after : Replica) (worker : ℕ) (problem : RuntimeError)
    (call : Result RuntimeError (Unit {0}))
    → undo_worker w r worker problem ≡ some (call, after)
    → after.cleanup_verified ≡ r.cleanup_verified
unfolding undo_worker
undo_worker_flag w r after worker problem call done =
    elim (Option-cases (kill_workers_verified w (worker ∷ []) (actor_name r ∷ []))) [
      | inl stuck ↦ ground (arith, done, stuck)
      | inr (err second, ended) ↦ ground (arith, done, ended)
      | inr (ok _, ended) ↦ ground (arith, done, ended)
    ]

place_worker_flag :
    (a : Remote) (w : World) (r after : Replica) (call : Result RuntimeError (Unit {0}))
    → place_worker a w r ≡ some (call, after)
    → after.cleanup_verified ≡ r.cleanup_verified
unfolding place_worker
place_worker_flag a w r after call done = elim (Option-cases a.worker) [
  | inl raised ↦ ground (arith, done, raised)
  | inr (worker, made) ↦ elim (Option-cases a.group_workers) [
    | inl raised ↦
        undo_worker_flag w r after worker remote_failure call (ground (arith, done, made, raised))
    | inr (workers, grouped) ↦
        let placed : Replica = record r { workers = workers; worker_names = actor_name r ∷ [] } in
        elim (Result-cases (validate_worker_placement a placed)) [
          | inl (problem, misplaced) ↦
              undo_worker_flag w placed after worker problem call
                (ground (arith, done, made, grouped, misplaced))
          | inr (ok_placed, checked) ↦ ground (arith, done, made, grouped, checked)
        ]
  ]
]

create_workers_flag :
    (a : Remote) (w : World) (r after : Replica) (spec : BorrowedSpec) (rank : ℕ)
    (groups : List String) (call : Result RuntimeError (Unit {0}))
    → create_workers_from_claims a w r spec rank groups ≡ some (call, after)
    → after.cleanup_verified ≡ r.cleanup_verified
unfolding create_workers_from_claims
create_workers_flag a w r after spec rank groups call done =
    elim (Result-cases (validate_placement r spec rank)) [
      | inl (problem, invalid) ↦ ground (arith, done, invalid)
      | inr (claim, valid) ↦
          elim (Bool-cases (if groups == claim.claim.pg_id ∷ [] then a.master_found else false)) [
            | inr refused ↦ ground (arith, done, valid, refused)
            | inl covered ↦
                place_worker_flag a w (planned r claim) after call
                  (ground (arith, done, valid, covered))
          ]
    ]

-- The runtime that a creation built before it was cleaned up: what the creation of its worker left
-- when that failed, and what the launch of its server left otherwise.
abbrev pub Built : Remote → World → Replica → BorrowedSpec → ℕ → List String → Replica → Type 0
Built a u new spec rank groups r =
    (call : Result RuntimeError (Unit {0})) × (placed : Replica) × (create_workers_from_claims a u
        (record new { nnodes = 1; cleanup_verified = false }) spec rank groups
      ≡ some (call, placed))
    × (r ≡ (if returned call then launched a placed else placed))

-- the runtime that the creation built was cleaned up with proof
abbrev pub Proven :
    Remote → World → World → World → Replica → BorrowedSpec → ℕ → List String → Replica → Type 0
Proven a u w v new spec rank groups after =
    (r : Replica) × Built a u new spec rank groups r × Gone w v r after

abandon-Gone :
    (w v : World) (r after : Replica) (problem : RuntimeError) (call : Result RuntimeError Receipt)
    → abandon w v r problem ≡ some (call, after)
    → r.cleanup_verified ≡ false
    → after.cleanup_verified ≡ true
    → Gone w v r after
unfolding abandon
abandon-Gone w v r after problem call done before flagged =
    elim (Option-cases (cleanup_borrowed_runtime w v r)) [
      | inl stuck ↦ ground (arith, done, stuck)
      | inr ((cleaned, last), ended) ↦
          cleanup-Gone w v r after cleaned (ground (arith, done, ended)) before flagged
    ]

-- Whatever a creation answers, the runtime that it leaves has the proof flag only when a clean-up
-- proved what it built gone, and not when the creation returned.
pub init_from_lease-Proven :
    (a : Remote) (u w v : World) (new after : Replica) (spec : BorrowedSpec) (rank : ℕ)
    (groups : List String) (call : Result RuntimeError Receipt)
    → init_from_lease a u w v new spec rank groups ≡ some (call, after)
    → after.cleanup_verified ≡ true
    → Proven a u w v new spec rank groups after
unfolding init_from_lease
init_from_lease-Proven a u w v new after spec rank groups call done flagged =
    let begun : Replica = record new { nnodes = 1; cleanup_verified = false } in
    elim (Option-cases (create_workers_from_claims a u begun spec rank groups)) [
      | inl stuck ↦ ground (arith, done, stuck)
      | inr ((err problem, placed), created) ↦ (
        placed,
        (err problem, placed, created, refl),
        abandon-Gone w v placed after problem call (ground (arith, done, created))
            (create_workers_flag a u begun placed spec rank groups _ created) flagged,
      )
      | inr ((ok _, placed), created) ↦
          let flag : placed.cleanup_verified ≡ false =
            create_workers_flag a u begun placed spec rank groups _ created in
          elim (Result-cases (launch a placed).0) [
            | inl (problem, failed) ↦ (
              launched a placed,
              (ok tt, placed, created, refl),
              abandon-Gone w v (launched a placed) after problem call
                  (unfold launch in ground (arith, done, created, failed)) flag flagged,
            )
            | inr (receipt, started) ↦
                unfold launch in ground (arith, done, created, started, flag, flagged)
          ]
    ]
