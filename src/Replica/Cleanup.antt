-- ===== src/Replica/Cleanup.antt =====
-- The clean-up of a borrowed runtime: its proof flag, its handles, and its end (replica.py).
use verl_multi_task.Common.{
  ℕ, String, ◌≡◌, refl, sym, ap, subst, ◌∙◌, eq_of_==, ◌⊎◌, inl, inr, true, false, none, some, List,
  [], ◌==◌, is_some, is_nil, if◌then◌else◌, ◌∷◌, elem, string_key, Result, ok, err, Option-cases,
  Bool-cases, arith,
}
use verl_multi_task.Contracts.{borrowed, replica_kind_key}
use verl_multi_task.Replica.{
  World, RuntimeError, cleanup_unverified, not_borrowed, Replica, returned, servers_dead,
  kill_workers_verified, shutdown_servers_verified, kill_workers, cleanup_borrowed_runtime,
}
use verl_multi_task.Replica.Waiting.{
  Advances, DeadAt, wait_actor_names_dead-ends, wait_actor_names_dead-DeadAt,
}

-- The proof that the actors behind some handles are gone: if there is a handle then a name is
-- recorded, and one poll saw all recorded names dead together.
abbrev pub Dead : World → List ℕ → List String → Type 0
Dead w handles names =
    ((handles ≡ []) ⊎ (is_nil names ≡ false))
    × ((at : ℕ) × ((name : String) → elem name names ≡ true → DeadAt w at name))

accounted :
    (handles : List ℕ) (names : List String)
    → (if is_nil handles then false else is_nil names) ≡ false
    → (handles ≡ []) ⊎ (is_nil names ≡ false)
accounted [] names known = inl refl
accounted (h ∷ handles) names known = inr known

servers_dead-ends : (w : World) (r : Replica) → Advances w → is_some (servers_dead w r) ≡ true
unfolding servers_dead
servers_dead-ends w r a = ground (arith, wait_actor_names_dead-ends w r.server_names a)

kill_workers_verified-ends :
    (w : World) (workers : List ℕ) (names : List String)
    → Advances w
    → is_some (kill_workers_verified w workers names) ≡ true
unfolding kill_workers_verified
kill_workers_verified-ends w workers names a = ground (arith, wait_actor_names_dead-ends w names a)

servers_dead-Dead :
    (w : World) (r : Replica) → servers_dead w r ≡ some (ok tt) → Dead w r.servers r.server_names
unfolding servers_dead
servers_dead-Dead w r ended =
    elim (Bool-cases (if is_nil r.servers then false else is_nil r.server_names)) [
      | inl nameless ↦ ground (arith, ended, nameless)
      | inr named ↦ (
        accounted r.servers r.server_names named,
        wait_actor_names_dead-DeadAt w r.server_names (ground (arith, ended, named)),
      )
    ]

kill_workers_verified-Dead :
    (w : World) (workers : List ℕ) (names : List String)
    → kill_workers_verified w workers names ≡ some (ok tt)
    → Dead w workers names
unfolding kill_workers_verified
kill_workers_verified-Dead w workers names ended =
    elim (Bool-cases (if is_nil workers then false else is_nil names)) [
      | inl nameless ↦ ground (arith, ended, nameless)
      | inr named ↦ (
        accounted workers names named,
        wait_actor_names_dead-DeadAt w names (ground (arith, ended, named)),
      )
    ]

-- what a clean-up leaves: nothing that is not proved dead loses its handle
pub record Cleaned (w v : World) (r after : Replica) : Type 0 where
  pub servers : (after.servers ≡ r.servers) ⊎ Dead w r.servers r.server_names
  pub workers : (after.workers ≡ r.workers) ⊎ Dead v r.workers r.worker_names

pub record Gone (w v : World) (r after : Replica) : Type 0 where
  pub servers : Dead w r.servers r.server_names
  pub workers : Dead v r.workers r.worker_names
  pub no_servers : after.servers ≡ []
  pub no_workers : after.workers ≡ []

abbrev Ending : World → World → Replica → Type 0
Ending w v r =
    (call : Result RuntimeError (Unit {0})) × (after : Replica) × (cleanup_borrowed_runtime w v r
      ≡ some (call, after))
    × (after.cleanup_verified ≡ returned call)
    × (call ≡ ok tt → Gone w v r after)
    × Cleaned w v r after

ending :
    (w v : World) (r : Replica) (servers workers : Result RuntimeError (Unit {0}))
    → r.replica_kind ≡ borrowed
    → servers_dead w r ≡ some servers
    → kill_workers_verified v r.workers r.worker_names ≡ some workers
    → Ending w v r
unfolding cleanup_borrowed_runtime shutdown_servers_verified kill_workers servers_dead
    kill_workers_verified
ending w v r (err problem) (err second) kind at_servers at_workers = (
  err cleanup_unverified,
  record r { cleanup_verified = false },
  ground (arith, kind, at_servers, at_workers),
  refl,
  λ ended. cc,
  record { servers = inl refl; workers = inl refl },
)
ending w v r (err problem) (ok _) kind at_servers at_workers = (
  err cleanup_unverified,
  record r { cleanup_verified = false; workers = [] },
  ground (arith, kind, at_servers, at_workers),
  refl,
  λ ended. cc,
  record {
    servers = inl refl;
    workers = inr (kill_workers_verified-Dead v r.workers r.worker_names at_workers);
  },
)
ending w v r (ok _) (err problem) kind at_servers at_workers = (
  err cleanup_unverified,
  record r { cleanup_verified = false; servers = []; server_handle = none; server_address = none },
  ground (arith, kind, at_servers, at_workers),
  refl,
  λ ended. cc,
  record { servers = inr (servers_dead-Dead w r at_servers); workers = inl refl },
)
ending w v r (ok _) (ok _) kind at_servers at_workers =
    let servers = servers_dead-Dead w r at_servers in
    let workers = kill_workers_verified-Dead v r.workers r.worker_names at_workers in
    (
      ok tt,
      record r {
        cleanup_verified = true;
        servers = [];
        server_handle = none;
        server_address = none;
        workers = [];
      },
      ground (arith, kind, at_servers, at_workers),
      refl,
      λ ended. record {
        servers = servers;
        workers = workers;
        no_servers = refl;
        no_workers = refl;
      },
      record { servers = inr servers; workers = inr workers },
    )

-- The clean-up of a borrowed runtime ends within the timeouts of its two waits. It returns exactly
-- when it sets the proof flag; then every recorded server and worker actor was seen dead, names were
-- recorded wherever there were handles, and no handle is left. Otherwise it keeps the handles of the
-- servers, or of the workers, that it has no proof for.
pub cleanup_borrowed_runtime-ends :
    (w v : World) (r : Replica)
    → r.replica_kind ≡ borrowed
    → Advances w
    → Advances v
    → (call : Result RuntimeError (Unit {0})) × (after : Replica) × (cleanup_borrowed_runtime w v r
        ≡ some (call, after))
      × (after.cleanup_verified ≡ returned call)
      × (call ≡ ok tt → Gone w v r after)
      × Cleaned w v r after
cleanup_borrowed_runtime-ends w v r kind a b = elim (Option-cases (servers_dead w r)) [
  | inl stuck ↦ ground (arith, stuck, servers_dead-ends w r a)
  | inr (servers, at_servers) ↦
      elim (Option-cases (kill_workers_verified v r.workers r.worker_names)) [
        | inl stuck ↦ ground (arith, stuck, kill_workers_verified-ends v r.workers r.worker_names b)
        | inr (workers, at_workers) ↦ ending w v r servers workers kind at_servers at_workers
      ]
]

-- no result without an end of both waits
stuck :
    (w v : World) (r : Replica)
    → r.replica_kind ≡ borrowed
    → (servers_dead w r ≡ none) ⊎ (kill_workers_verified v r.workers r.worker_names ≡ none)
    → cleanup_borrowed_runtime w v r ≡ none
unfolding cleanup_borrowed_runtime shutdown_servers_verified kill_workers servers_dead
    kill_workers_verified
stuck w v r kind (inl servers) = ground (arith, kind, servers)
stuck w v r kind (inr workers) = elim (Option-cases (servers_dead w r)) [
  | inl none_ended ↦ ground (arith, kind, none_ended)
  | inr (ok _, at_servers) ↦ ground (arith, kind, workers, at_servers)
  | inr (err problem, at_servers) ↦ ground (arith, kind, workers, at_servers)
]

foreign :
    (w v : World) (r : Replica)
    → (r.replica_kind == borrowed) ≡ false
    → cleanup_borrowed_runtime w v r ≡ some (err not_borrowed, r)
unfolding cleanup_borrowed_runtime
foreign w v r native = ground (arith, native)

finished :
    (w v : World) (r after : Replica) (call : Result RuntimeError (Unit {0}))
    → Ending w v r
    → cleanup_borrowed_runtime w v r ≡ some (call, after)
    → after.cleanup_verified ≡ true
    → Gone w v r after
finished w v r after call (other, last, ended, flag, gone, cleaned) done flagged =
    let same : last ≡ after = ground (arith, ended, done) in
    subst (Gone w v r) same
      (gone (ok_returned other (sym flag ∙ ap Replica.cleanup_verified same ∙ flagged)))
  where
    ok_returned : (c : Result RuntimeError (Unit {0})) → returned c ≡ true → c ≡ ok tt
    ok_returned (ok _) yes_returned = refl
    ok_returned (err problem) no_return = cc

-- A clean-up sets the proof flag only when nothing of the runtime is left.
pub cleanup-Gone :
    (w v : World) (r after : Replica) (call : Result RuntimeError (Unit {0}))
    → cleanup_borrowed_runtime w v r ≡ some (call, after)
    → r.cleanup_verified ≡ false
    → after.cleanup_verified ≡ true
    → Gone w v r after
cleanup-Gone w v r after call done before flagged = elim (Bool-cases (r.replica_kind == borrowed)) [
  | inr native ↦ ground (arith, foreign w v r native, done, before, flagged)
  | inl same_kind ↦
      let kind : r.replica_kind ≡ borrowed = eq_of_== r.replica_kind borrowed same_kind in
      elim (Option-cases (servers_dead w r)) [
        | inl none_ended ↦ ground (arith, stuck w v r kind (inl none_ended), done)
        | inr (servers, at_servers) ↦
            elim (Option-cases (kill_workers_verified v r.workers r.worker_names)) [
              | inl none_ended ↦ ground (arith, stuck w v r kind (inr none_ended), done)
              | inr (workers, at_workers) ↦
                  finished w v r after call
                    (ending w v r servers workers kind at_servers at_workers) done flagged
            ]
      ]
]
