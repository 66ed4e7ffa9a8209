-- ===== src/ServerManager/History/States.antt =====
-- What the lifecycle table guarantees over any history of calls (llm_server_manager.py).
use verl_multi_task.Common.{
  ℕ, String, ◌≡◌, refl, ◌⊎◌, inl, inr, true, some, List, [], ◌∷◌, is_some, elem, ok, ◌==◌, ◌∙◌,
  arith, ◌≢◌, subst, sym, Option, Bool-cases,
}
use verl_multi_task.Common.Dict
use verl_multi_task.Common.Dict.{get-put}
use verl_multi_task.Contracts.{
  ReplicaKey, replica_key_key, ReplicaKind, borrowed, native_replica, ReplicaState, creating,
  active, draining, dormant, released, quarantined,
}
use verl_multi_task.ServerManager.{
  ServerManager, allowed, validate_kind_state, replica_state_key, ReplicaState-discrete,
}
use verl_multi_task.ServerManager.History.{Call, perform, run, init}
use verl_multi_task.ServerManager.History.Lifecycle.{Lives, same, enters, moves, perform-Lives}

-- every replica has a state and a kind, and the kind may be in that state
pub record Kinded (m : ServerManager) : Type 0 where
  pub paired :
      (k : ReplicaKey) → is_some (Dict.get m.replica_state k) ≡ is_some (Dict.get m.replica_kind k)
  pub valid :
      (k : ReplicaKey) (kind : ReplicaKind) (state : ReplicaState)
      → Dict.get m.replica_kind k ≡ some kind
      → Dict.get m.replica_state k ≡ some state
      → validate_kind_state kind state ≡ ok tt

Lives-Kinded : (m after : ServerManager) → Lives m after → Kinded m → Kinded after
Lives-Kinded m after (same s k) v = record {
  paired = λ j. ground (arith, s, k, v.paired j);
  valid = λ j kind state at_kind at_state. ground (arith, s, k, v.valid j kind state);
}
Lives-Kinded m after (enters key new_kind new_state new fits s k) v = record {
  paired = λ j. ground (
    arith,
    s,
    k,
    v.paired j,
    get-put m.replica_state key j new_state,
    get-put m.replica_kind key j new_kind,
  );
  valid = λ j kind state at_kind at_state. ground (
    arith,
    s,
    k,
    fits,
    v.valid j kind state,
    get-put m.replica_state key j new_state,
    get-put m.replica_kind key j new_kind,
  );
}
Lives-Kinded m after (moves key old_kind current new_state known listed found fits s k) v = record {
  paired = λ j. ground (arith, s, k, known, v.paired j, get-put m.replica_state key j new_state);
  valid = λ j kind state at_kind at_state.
      ground
        (arith, s, k, found, fits, v.valid j kind state, get-put m.replica_state key j new_state);
}

pub run-Kinded : (m : ServerManager) (calls : List Call) → Kinded m → Kinded (run m calls)
unfolding run
run-Kinded m [] v = v
run-Kinded m (c ∷ calls) v =
    run-Kinded (perform m c) calls (Lives-Kinded m (perform m c) (perform-Lives m c) v)

init-Kinded :
    (session : String) (replicas : List ℕ) (addresses : List String) (handles : List ℕ)
    → Kinded (init session replicas addresses handles)
unfolding init Dict.get
init-Kinded session replicas addresses handles = record {
  paired = λ k. refl;
  valid = λ k kind state h i. cc;
}

-- In any history of calls a borrowed replica is never DORMANT and a native one is never RELEASED.
pub run-init_kinds :
    (session : String) (replicas : List ℕ) (addresses : List String) (handles : List ℕ)
    (calls : List Call) (k : ReplicaKey)
    → let m = run (init session replicas addresses handles) calls in
      (Dict.get m.replica_kind k ≡ some borrowed → Dict.get m.replica_state k ≢ some dormant)
      × (Dict.get m.replica_kind k ≡ some native_replica
          → Dict.get m.replica_state k ≢ some released)
unfolding validate_kind_state
run-init_kinds session replicas addresses handles calls k =
    let v =
      run-Kinded (init session replicas addresses handles) calls
        (init-Kinded session replicas addresses handles) in
    (
      λ kind state. ground (arith, v.valid k borrowed dormant kind state),
      λ kind state. ground (arith, v.valid k native_replica released kind state),
    )

moved :
    (m after : ServerManager) (k : ReplicaKey) (s : ReplicaState)
    → Lives m after
    → Dict.get m.replica_state k ≡ some s
    → (t : ReplicaState) × (Dict.get after.replica_state k ≡ some t)
      × ((t ≡ s) ⊎ (elem t (allowed s) ≡ true))
      × (Dict.get after.replica_kind k ≡ Dict.get m.replica_kind k)
moved m after k s (same states kinds) known =
    (s, ground (arith, states, known), inl refl, ground (arith, kinds))
moved m after k s (enters key kind state new fits states kinds) known = (
  s,
  ground (arith, states, known, new, get-put m.replica_state key k state),
  inl refl,
  ground (arith, kinds, known, new, get-put m.replica_kind key k kind),
)
moved m after k s (moves key kind current state at listed found fits states kinds) known =
    elim (Bool-cases (key == k)) [
      | inl this ↦ (
        state,
        ground (arith, states, this, get-put m.replica_state key k state),
        inr (ground (arith, at, this, known, listed)),
        ground (arith, kinds),
      )
      | inr other ↦ (
        s,
        ground (arith, states, other, known, get-put m.replica_state key k state),
        inl refl,
        ground (arith, kinds),
      )
    ]

-- the legal changes of a state, written out
pub data Edge : ReplicaState → ReplicaState → Type 0 where
  serves : Edge creating active
  fails : Edge creating released
  fails_unproven : Edge creating quarantined
  drains : Edge active draining
  returns : Edge draining active
  sleeps : Edge draining dormant
  frees : Edge draining released
  frees_unproven : Edge draining quarantined
  wakes : Edge dormant active
  wakes_unproven : Edge dormant quarantined

-- A list of states, one after each call, that a replica in state s may go through: a call leaves
-- it where it is or takes it over one edge.
pub data Legal : ReplicaState → List (Option ReplicaState) → Type 0 where
  ends : {s : ReplicaState} → Legal s []
  stays :
      {s : ReplicaState} {rest : List (Option ReplicaState)}
      → Legal s rest
      → Legal s (some s ∷ rest)
  goes :
      {s t : ReplicaState} {rest : List (Option ReplicaState)}
      → Edge s t
      → Legal t rest
      → Legal s (some t ∷ rest)

-- the state of a replica after every one of the calls
unfoldable pub visited : ServerManager → List Call → ReplicaKey → List (Option ReplicaState)
visited m [] k = []
visited m (c ∷ calls) k = Dict.get (perform m c).replica_state k ∷ visited (perform m c) calls k

listed-Edge : (s t : ReplicaState) → elem t (allowed s) ≡ true → Edge s t
unfolding allowed ReplicaState-discrete
listed-Edge creating active listed = serves
listed-Edge creating released listed = fails
listed-Edge creating quarantined listed = fails_unproven
listed-Edge active draining listed = drains
listed-Edge draining active listed = returns
listed-Edge draining dormant listed = sleeps
listed-Edge draining released listed = frees
listed-Edge draining quarantined listed = frees_unproven
listed-Edge dormant active listed = wakes
listed-Edge dormant quarantined listed = wakes_unproven
listed-Edge s t listed = ground (arith, listed)

entered :
    {s t : ReplicaState} {rest : List (Option ReplicaState)}
    → (t ≡ s) ⊎ (elem t (allowed s) ≡ true)
    → Legal t rest
    → Legal s (some t ∷ rest)
entered {t = t} {rest = rest} (inl still) later =
    subst (λ x. Legal x (some t ∷ rest)) still (stays later)
entered {s} {t} (inr listed) later = goes (listed-Edge s t listed) later

-- Over any calls a registered replica stays registered with its kind, and each call leaves its state
-- or takes it over one edge of the lifecycle: an ACTIVE one drains before it sleeps or is released, and nothing
-- leads out of RELEASED and QUARANTINED.
pub run_moves :
    (m : ServerManager) (calls : List Call) (k : ReplicaKey) (s : ReplicaState)
    → Dict.get m.replica_state k ≡ some s
    → Legal s (visited m calls k)
      × (Dict.get (run m calls).replica_kind k ≡ Dict.get m.replica_kind k)
unfolding run visited
run_moves m [] k s known = (ends, refl)
run_moves m (c ∷ calls) k s known =
    let (t, now, how, kept) = moved m (perform m c) k s (perform-Lives m c) known in
    let (later, also) = run_moves (perform m c) calls k t now in
    (
      subst (λ x. Legal s (x ∷ visited (perform m c) calls k)) (sym now) (entered how later),
      also ∙ kept,
    )
