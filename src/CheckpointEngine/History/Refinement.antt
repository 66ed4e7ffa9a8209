-- ===== src/CheckpointEngine/History/Refinement.antt =====
-- The checkpoint manager against its abstract view, a directory of runtimes (checkpoint_engine_manager.py).
use verl_multi_task.Common.{
  ℕ, String, Bool, false, Option, Result, ok, err, ◌≢◌, ◌≡◌, refl, sym, subst, ap, ◌∙◌, ◌⊎◌, inl,
  inr, true, none, some, List, [], ◌∷◌, ℤ, pos, negsuc, elem, Option-cases, nat_key, arith,
}
use verl_multi_task.Common.Dict
use verl_multi_task.Common.Dict.{Dict}
use verl_multi_task.Contracts.{ReplicaKey, replica_key_key, OperationEvidence}
use verl_multi_task.CheckpointEngine.{
  Replica, NativeMembers, CheckpointManager, CheckpointError, discard_pending, register_pending,
  add_effective, commit_pending, remove_effective, mark_all_loaded_version,
}
use verl_multi_task.CheckpointEngine.Bootstrap.{Remote, Settings, bootstrap_target}
use verl_multi_task.CheckpointEngine.Membership.{
  Inv, Joined, Again, validated, register_pending-cases, add_effective-cases, commit_pending-cases,
  remove_effective-cases,
}
use verl_multi_task.CheckpointEngine.Membership.Serving.{
  Directory, serving, joined, left, refreshed, serving-get, get-serving, serving-left,
  serving-refreshed, serving-joined, left_absent,
}
use verl_multi_task.CheckpointEngine.History.{
  Call, register, bootstrap, commit, discard, add, remove, mark, perform, init,
  bootstrap_target-cases,
}
use verl_multi_task.CheckpointEngine.History.Safety.{perform-Inv, init-Inv}

-- the call returned
abbrev pub is_ok : {E A : Type 0} → Result E A → Bool
is_ok (ok value) = true
is_ok (err problem) = false

is_ok-ok : {E : Type 0} (x : Result E (Unit {0})) → is_ok x ≡ true → x ≡ ok tt
is_ok-ok (ok value) returned = refl
is_ok-ok (err problem) returned = cc

abbrev pub returned : NativeMembers → Settings → CheckpointManager → Call → Bool
returned n s m (register key replicas op) = is_ok (register_pending m key replicas op).0
returned n s m (bootstrap answers key op version) =
    is_ok (bootstrap_target s answers m key op version).0
returned n s m (commit key e version) = is_ok (commit_pending n m key e version).0
returned n s m (discard key) = true
returned n s m (add key replicas version) = is_ok (add_effective n m key replicas version).0
returned n s m (remove key) = is_ok (remove_effective n m key).0
returned n s m (mark version) = is_ok (mark_all_loaded_version m version).0

-- runtimes that may join a replica: they are free, or serve it already at this version
abbrev pub MayJoin : Directory → ReplicaKey → List Replica → ℕ → Type 0
MayJoin d key replicas version =
    (r : Replica) → elem r replicas ≡ true → (d r ≡ none) ⊎ (d r ≡ some (key, version))

-- The specification of every call: what it does to the directory d when it returns, and that it does
-- nothing when it raises. `waiting` are the targets that wait for a commit, `members` the entries.
pub data Effect (d : Directory) (waiting : ReplicaKey → Option (List Replica × String))
    (members : ReplicaKey → Option (List Replica × ℕ)) : Call → Bool → Directory → Type 0 where
  raises : (c : Call) → Effect d waiting members c false d
  registers :
      (key : ReplicaKey) (replicas : List Replica) (op : String)
      → Effect d waiting members (register key replicas op) true d
  bootstraps :
      (answers : Remote) (key : ReplicaKey) (op : String) (version : ℤ)
      → Effect d waiting members (bootstrap answers key op version) true d
  discards : (key : ReplicaKey) → Effect d waiting members (discard key) true d
  commits :
      (key : ReplicaKey) (e : OperationEvidence) (version : ℕ) (replicas : List Replica)
      → waiting key ≡ some (replicas, e.operation_id)
      → MayJoin d key replicas version
      → Effect d waiting members (commit key e (pos version)) true (joined d key replicas version)
  commits_again :
      (key : ReplicaKey) (e : OperationEvidence) (version : ℕ) (replicas : List Replica)
      → waiting key ≡ none
      → members key ≡ some (replicas, version)
      → ((r : Replica) → elem r replicas ≡ true → d r ≡ some (key, version))
      → Effect d waiting members (commit key e (pos version)) true d
  adds :
      (key : ReplicaKey) (replicas : List Replica) (version : ℕ)
      → MayJoin d key replicas version
      → Effect d waiting members
          (add key replicas (pos version))
          true
          (joined d key replicas version)
  removes : (key : ReplicaKey) → Effect d waiting members (remove key) true (left d key)
  marks : (version : ℕ) → Effect d waiting members (mark (pos version)) true (refreshed d version)

module _ (d : Directory) (waiting : ReplicaKey → Option (List Replica × String))
    (members : ReplicaKey → Option (List Replica × ℕ)) (c : Call) where
  -- a call that leaves the directory
  unmoved :
      (b : Bool) (after : Directory)
      → after ≡ d
      → (b ≡ true → Effect d waiting members c true d)
      → Effect d waiting members c b after
  unmoved true after same allowed =
      subst (Effect d waiting members c true) (sym same) (allowed refl)
  unmoved false after same allowed = subst (Effect d waiting members c false) (sym same) (raises c)

  -- a call that returned, and left another directory
  moved :
      (b : Bool) (after target : Directory)
      → b ≡ true
      → ((r : Replica) → after r ≡ target r)
      → Effect d waiting members c true target
      → Effect d waiting members c b after
  moved b after target returns same allowed =
      subst (λ x. Effect d waiting members c x after) (sym returns)
        (subst (Effect d waiting members c true) (λ i r. sym (same r) i) allowed)

-- a runtime that joins was free, or served this replica at this version already
joining :
    (n : NativeMembers) (m after : CheckpointManager) (key : ReplicaKey) (replicas : List Replica)
    (version : ℕ) (receivers : List Replica)
    → Inv m
    → Joined n m key replicas version receivers after
    → (r : Replica) → elem r replicas ≡ true
    → (serving m.effective r ≡ none) ⊎ (serving m.effective r ≡ some (key, version))
joining n m after key replicas version receivers v (valid, native, consistent, entered) r mem =
    elim (Option-cases (serving m.effective r)) [
      | inl idle ↦ inl idle
      | inr (place, served) ↦
          let (found, at, also) = serving-get m.effective r place v.unique served in
          inr (
            served
            ∙ ground (arith, at, also, consistent, validated m key place.0 replicas r valid mem))
    ]

module _ (n : NativeMembers) (s : Settings) where
  abbrev pub Does : CheckpointManager → Call → Type 0
  Does m c =
      Effect (serving m.effective) (λ key. Dict.get m.pending key) (λ key. Dict.get m.effective key)
        c (returned n s m c) (serving (perform n s m c).effective)

  -- a call that leaves the effective members
  idle :
      (m : CheckpointManager) (c : Call)
      → (perform n s m c).effective ≡ m.effective
      → (returned n s m c ≡ true
          → Effect
              (serving m.effective)
              (λ key. Dict.get m.pending key)
              (λ key. Dict.get m.effective key)
              c
              true
              (serving m.effective))
      → Does m c
  idle m c same allowed =
      unmoved (serving m.effective) (λ key. Dict.get m.pending key)
        (λ key. Dict.get m.effective key) c (returned n s m c) (serving (perform n s m c).effective)
        (ap serving same) allowed

  refused :
      (m : CheckpointManager) (c : Call) (x : Result CheckpointError (Unit {0}))
      → x ≢ ok tt
      → is_ok x ≡ true
      → Effect
          (serving m.effective)
          (λ key. Dict.get m.pending key)
          (λ key. Dict.get m.effective key)
          c
          true
          (serving m.effective)
  refused m c x failed returns = absurd (failed (is_ok-ok x returns))

  remove-Does : (m : CheckpointManager) (key : ReplicaKey) → Inv m → Does m (remove key)
  unfolding perform
  remove-Does m key v = elim (remove_effective-cases n m key) [
    | inl (failed, same) ↦
        idle m (remove key) (ap CheckpointManager.effective same) (refused m (remove key) _ failed)
    | inr (inl (absent, discarded)) ↦
        moved _ _ _ (remove key) _ _ (left (serving m.effective) key)
          (unfold remove_effective in ground (arith, absent))
          (λ r.
            ap (λ x. serving (CheckpointManager.effective x) r) discarded
            ∙ unfold discard_pending in left_absent m.effective key r v.unique absent)
          (removes key)
    | inr (inr (member, receivers, (found, native, gone))) ↦
        moved _ _ _ (remove key) _ _ (left (serving m.effective) key)
          (unfold remove_effective in ground (arith, found, native))
          (λ r.
            serving-left m _ v (perform-Inv n s m (remove key) v) key r
              (ap CheckpointManager.effective gone ∙ unfold discard_pending in refl))
          (removes key)
  ]

  -- the target of a repeated commit serves already
  again-Does :
      (m : CheckpointManager) (key : ReplicaKey) (e : OperationEvidence) (version : ℕ)
      → Inv m
      → Again n m key version
      → Effect
          (serving m.effective)
          (λ k. Dict.get m.pending k)
          (λ k. Dict.get m.effective k)
          (commit key e (pos version))
          true
          (serving m.effective)
  again-Does m key e version v (gone, replicas, found) =
      commits_again key e version replicas gone found (λ r mem.
        get-serving m.effective v.unique
          (λ j k q at_j at_k. v.exclusive j k q (ground (arith, at_j)) (ground (arith, at_k))) key
          (replicas, version) r found mem)

  commit-Does :
      (m : CheckpointManager) (key : ReplicaKey) (e : OperationEvidence) (version : ℕ)
      → Inv m
      → Does m (commit key e (pos version))
  unfolding perform
  commit-Does m key e version v = elim (commit_pending-cases n m key e version) [
    | inl (inl failed, same) ↦
        idle m (commit key e (pos version)) (ap CheckpointManager.effective same)
          (refused m (commit key e (pos version)) _ failed)
    | inl (inr again, same) ↦
        idle m (commit key e (pos version)) (ap CheckpointManager.effective same)
          (λ _. again-Does m key e version v again)
    | inr (replicas, receivers, mid, typed, returns, (entered, waits, ready, ends)) ↦
        moved _ _ _ (commit key e (pos version)) _ _
          (joined (serving m.effective) key replicas version) (ground (arith, returns))
          (λ r.
            serving-joined m _ v (perform-Inv n s m (commit key e (pos version)) v) key replicas
              version r entered.2
              (ap CheckpointManager.effective ends ∙ ap CheckpointManager.effective entered.3))
          (commits key e version replicas waits
            (joining n m mid key replicas version receivers v entered))
  ]

  add-Does :
      (m : CheckpointManager) (key : ReplicaKey) (replicas : List Replica) (version : ℤ)
      → Inv m
      → Does m (add key replicas version)
  unfolding perform
  add-Does m key replicas version v = elim (add_effective-cases n m key replicas version) [
    | inl (failed, same) ↦
        idle m (add key replicas version) (ap CheckpointManager.effective same)
          (refused m (add key replicas version) _ failed)
    | inr (loaded, receivers, versioned, returns, entered) ↦
        moved _ _ _ (add key replicas version) _ _
          (joined (serving m.effective) key replicas loaded) (ground (arith, returns))
          (λ r.
            serving-joined m _ v (perform-Inv n s m (add key replicas version) v) key replicas
              loaded r entered.2 (ap CheckpointManager.effective entered.3))
          (subst
            (λ z.
              Effect (serving m.effective) (λ k. Dict.get m.pending k) (λ k. Dict.get m.effective k)
                (add key replicas z) true (joined (serving m.effective) key replicas loaded))
            (sym versioned)
            (adds key replicas loaded (joining n m _ key replicas loaded receivers v entered)))
  ]

  -- One call does to the directory of runtimes what its specification says.
  pub perform-Does : (m : CheckpointManager) (c : Call) → Inv m → Does m c
  unfolding perform
  perform-Does m (register key replicas op) v =
      idle m (register key replicas op)
        (elim (register_pending-cases m key replicas op) [
          | inl same ↦ ap CheckpointManager.effective same
          | inr parked ↦ ap CheckpointManager.effective parked.3
        ])
        (λ _. registers key replicas op)
  perform-Does m (bootstrap answers key op version) v =
      idle m (bootstrap answers key op version)
        (elim (bootstrap_target-cases s answers m key op version) [
          | inl same ↦ ap CheckpointManager.effective same
          | inr (loaded, e, confirmed) ↦ ap CheckpointManager.effective confirmed.2
        ])
        (λ _. bootstraps answers key op version)
  perform-Does m (commit key e (pos version)) v = commit-Does m key e version v
  perform-Does m (commit key e (negsuc version)) v =
      idle m (commit key e (negsuc version)) (unfold commit_pending in ground arith)
        (refused m (commit key e (negsuc version)) _ (unfold commit_pending in ground arith))
  perform-Does m (discard key) v =
      idle m (discard key) (unfold discard_pending in refl) (λ _. discards key)
  perform-Does m (add key replicas version) v = add-Does m key replicas version v
  perform-Does m (remove key) v = remove-Does m key v
  perform-Does m (mark (negsuc version)) v =
      idle m (mark (negsuc version)) (unfold mark_all_loaded_version in refl)
        (refused m (mark (negsuc version)) _ (unfold mark_all_loaded_version in λ h. cc))
  perform-Does m (mark (pos version)) v =
      moved _ _ _ (mark (pos version)) _ _ (refreshed (serving m.effective) version)
        (unfold mark_all_loaded_version in refl)
        (λ r.
          serving-refreshed m _ v (perform-Inv n s m (mark (pos version)) v) version r
            (unfold mark_all_loaded_version in refl))
        (marks version)

  -- every one of the calls does what its specification says
  unfoldable pub Follows : CheckpointManager → List Call → Type 0
  Follows m [] = Unit {0}
  Follows m (c ∷ calls) = Does m c × Follows (perform n s m c) calls

  run-Follows : (m : CheckpointManager) (calls : List Call) → Inv m → Follows m calls
  unfolding Follows
  run-Follows m [] v = tt
  run-Follows m (c ∷ calls) v =
      (perform-Does m c v, run-Follows (perform n s m c) calls (perform-Inv n s m c v))

-- From an empty directory on, each call does to the directory of which runtime serves which replica,
-- and at which version, what its specification says: a call that raises changes nothing; a commit
-- that returns joins the waiting runtimes to the replica, or finds them there; an add joins its
-- runtimes; a remove lets the runtimes of its replica leave; a mark refreshes every version; the
-- other calls change nothing. Only a free runtime joins, or one that serves the replica already.
pub run-init-Follows :
    (n : NativeMembers) (s : Settings) (replicas : List Replica) (calls : List Call)
    → ((r : Replica) → serving (init replicas).effective r ≡ none)
      × Follows n s (init replicas) calls
unfolding init serving
run-init-Follows n s replicas calls =
    (λ r. refl, run-Follows n s (init replicas) calls (init-Inv replicas))
