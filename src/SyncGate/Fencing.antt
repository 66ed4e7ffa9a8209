-- ===== src/SyncGate/Fencing.antt =====
-- Fencing of superseded owners, and the latch of a blocked gate (replica_sync_gate.py).
use verl_multi_task.Common.{
  ℕ, ◌≤◌, String, ◌≡◌, refl, ap, ◌≢◌, ◌⊎◌, inl, inr, Bool, true, false, some, is_some, ok, err,
  nat_key, string_key, option_key, arith,
}
use verl_multi_task.SyncGate.{
  ReplicaSyncGate, GateOwner, GateKind, recovery, fenced, gate_owner_key, is_healthy, is_active,
  block, grant, release, reconcile_begin, reconcile_end, guard_commit, guard_enter, init, Step,
  grants, releases, blocks, reconciles, recovers, Reach, here, next,
}

-- The lock is held exactly while there is an owner, the owner has the newest epoch, and while the
-- gate is blocked only the operation that blocked it can own it.
pub record Inv (g : ReplicaSyncGate) : Type 0 where
  pub held : is_some g.owner ≡ g.locked
  pub newest : (o : GateOwner) → g.owner ≡ some o → o.epoch ≡ g.epoch
  pub latched : is_some g.blocked_reason ≡ is_some g.blocked_operation_id
  pub latch_owner :
      (o : GateOwner) (op : String)
      → g.owner ≡ some o
      → g.blocked_operation_id ≡ some op
      → o.operation_id ≡ op

pub init-Inv : Inv init
unfolding init
init-Inv = record { held = refl; newest = λ o h. cc; latched = refl; latch_owner = λ o op h k. cc }

grant-Inv :
    (g : ReplicaSyncGate) (op : String) (kind : GateKind) (now : ℕ)
    → g.locked ≡ false
    → Inv g
    → Inv (grant g op kind now).1
unfolding grant
grant-Inv g op kind now free v = record {
  held = ground (arith, v.held);
  newest = λ o h. ground (arith, v.held, v.newest o);
  latched = ground (arith, v.latched);
  latch_owner = λ o p h k. ground (arith, v.held, v.latched, v.latch_owner o p);
}

release-Inv : (g : ReplicaSyncGate) (o : GateOwner) → Inv g → Inv (release g o).1
unfolding release
release-Inv g o v = record {
  held = ground (arith, v.held);
  newest = λ p h. ground (arith, v.newest p);
  latched = ground (arith, v.latched);
  latch_owner = λ p q h k. ground (arith, v.latch_owner p q);
}

block-Inv :
    (g : ReplicaSyncGate) (o : GateOwner) (reason : String) → Inv g → Inv (block g o reason).1
unfolding block
block-Inv g o reason v = record {
  held = ground (arith, v.held);
  newest = λ p h. ground (arith, v.newest p);
  latched = ground (arith, v.latched);
  latch_owner = λ p q h k. ground (arith, v.latch_owner p q);
}

reconcile_begin-Inv :
    (g : ReplicaSyncGate) (op : String) (now : ℕ)
    → g.locked ≡ false
    → Inv g
    → Inv (reconcile_begin g op now).1
unfolding reconcile_begin
reconcile_begin-Inv g op now free v = record {
  held = ground (arith, v.held);
  newest = λ p h. ground (arith, v.held, v.newest p);
  latched = ground (arith, v.latched);
  latch_owner = λ p q h k. ground (arith, v.held, v.latch_owner p q);
}

reconcile_end-Inv :
    (g : ReplicaSyncGate) (returned : Bool) → Inv g → Inv (reconcile_end g returned).1
unfolding reconcile_end
reconcile_end-Inv g true v = record {
  held = refl;
  newest = λ p h. cc;
  latched = refl;
  latch_owner = λ p q h k. cc;
}
reconcile_end-Inv g false v = record {
  held = refl;
  newest = λ p h. cc;
  latched = v.latched;
  latch_owner = λ p q h k. cc;
}

pub Step-Inv : {g h : ReplicaSyncGate} → Step g h → Inv g → Inv h
Step-Inv (grants op kind now free) v = grant-Inv _ op kind now free v
Step-Inv (releases o) v = release-Inv _ o v
Step-Inv (blocks o reason) v = block-Inv _ o reason v
Step-Inv (reconciles op now free) v = reconcile_begin-Inv _ op now free v
Step-Inv (recovers o returned owns kind) v = reconcile_end-Inv _ returned v

Reach-Inv : {g h : ReplicaSyncGate} → Reach g h → Inv g → Inv h
Reach-Inv here v = v
Reach-Inv (next r s) v = Step-Inv s (Reach-Inv r v)

-- An owner that is not active and whose epoch was given out is fenced for good.
pub record IsFenced (o : GateOwner) (g : ReplicaSyncGate) : Type 0 where
  pub inactive : is_active g o ≡ false
  pub past : o.epoch ≤ g.epoch

grant-IsFenced :
    (g : ReplicaSyncGate) (o : GateOwner) (op : String) (kind : GateKind) (now : ℕ)
    → g.locked ≡ false
    → Inv g
    → IsFenced o g
    → IsFenced o (grant g op kind now).1
unfolding grant is_active
grant-IsFenced g o op kind now free v f = ground (arith, v.held)

reconcile_begin-IsFenced :
    (g : ReplicaSyncGate) (o : GateOwner) (op : String) (now : ℕ)
    → g.locked ≡ false
    → Inv g
    → IsFenced o g
    → IsFenced o (reconcile_begin g op now).1
unfolding reconcile_begin is_active
reconcile_begin-IsFenced g o op now free v f = ground (arith, v.held)

Step-IsFenced :
    {g h : ReplicaSyncGate} (o : GateOwner) → Step g h → Inv g → IsFenced o g → IsFenced o h
unfolding release block reconcile_end is_active
Step-IsFenced o (grants op kind now free) v f = grant-IsFenced _ o op kind now free v f
Step-IsFenced o (releases p) v f = ground (arith, v.held)
Step-IsFenced o (blocks p reason) v f = ground arith
Step-IsFenced o (reconciles op now free) v f = reconcile_begin-IsFenced _ o op now free v f
Step-IsFenced o (recovers p true owns kind) v f = ground arith
Step-IsFenced o (recovers p false owns kind) v f = ground arith

Reach-IsFenced :
    {g h : ReplicaSyncGate} (o : GateOwner) → Reach g h → Inv g → IsFenced o g → IsFenced o h
Reach-IsFenced o here v f = f
Reach-IsFenced o (next r s) v f = Step-IsFenced o s (Reach-Inv r v) (Reach-IsFenced o r v f)

release_fences :
    (g : ReplicaSyncGate) (o : GateOwner)
    → Inv g
    → is_active g o ≡ true
    → IsFenced o (release g o).1
unfolding release is_active
release_fences g o v active = ground (arith, v.newest o)

IsFenced-refused :
    {A : Type 0} (h : ReplicaSyncGate) (o : GateOwner) (result : A) (reason : String)
    → IsFenced o h
    → (guard_enter h o ≡ err fenced)
      × (guard_commit h o result ≡ err fenced)
      × (block h o reason ≡ (err fenced, h))
      × (release h o ≡ (false, h))
unfolding guard_enter guard_commit block release
IsFenced-refused h o result reason f =
    (simp f.inactive, simp f.inactive, simp f.inactive, simp f.inactive)

-- On a well-formed gate, after an active owner released its lease, whatever the coroutines do
-- next, that owner can no longer commit a guarded result, block the gate or release it again;
-- none of these attempts changes the gate.
pub released_owner_fenced :
    {g h : ReplicaSyncGate} {A : Type 0} (o : GateOwner) (result : A) (reason : String)
    → Inv g
    → is_active g o ≡ true
    → Reach (release g o).1 h
    → (guard_enter h o ≡ err fenced)
      × (guard_commit h o result ≡ err fenced)
      × (block h o reason ≡ (err fenced, h))
      × (release h o ≡ (false, h))
released_owner_fenced {g} {h} o result reason v active r =
    let f = Reach-IsFenced o r (release-Inv g o v) (release_fences g o v active) in
    IsFenced-refused h o result reason f

epoch-Step : {g h : ReplicaSyncGate} → Step g h → g.epoch ≤ h.epoch
unfolding grant release block reconcile_begin reconcile_end
epoch-Step (grants op kind now free) = ground arith
epoch-Step (releases p) = ground arith
epoch-Step (blocks p reason) = ground arith
epoch-Step (reconciles op now free) = ground arith
epoch-Step (recovers p true owns kind) = ground arith
epoch-Step (recovers p false owns kind) = ground arith

epoch-Reach : {g h : ReplicaSyncGate} → Reach g h → g.epoch ≤ h.epoch
epoch-Reach here = omega arith
epoch-Reach (next r s) = omega (arith, epoch-Reach r, epoch-Step s)

-- Two grants of the gate, the second some time after the first, never hand out equal owners.
pub grants_differ :
    (g h : ReplicaSyncGate) (op op' : String) (kind kind' : GateKind) (now now' : ℕ)
    (o o' : GateOwner)
    → (grant g op kind now).0 ≡ ok o
    → Reach (grant g op kind now).1 h
    → (grant h op' kind' now').0 ≡ ok o'
    → o ≢ o'
unfolding grant
grants_differ g h op op' kind kind' now now' o o' first r second same =
    ground (arith, epoch-Reach r, ap (λ (p : GateOwner). p.epoch) same)

-- whether a step is the end of a recovery whose callback returned
abbrev pub is_repair : {g h : ReplicaSyncGate} → Step g h → Bool
is_repair (recovers o returned owns kind) = returned
is_repair _ = false

-- On a well-formed gate that operation `op` has blocked, a step leaves it blocked by `op`,
-- unless it is the end of a recovery that `op` itself owns and whose callback returned.
pub latch_cleared_by_owner :
    {g h : ReplicaSyncGate} (op : String)
    → Inv g
    → g.blocked_operation_id ≡ some op
    → (step : Step g h)
    → (h.blocked_operation_id ≡ some op) × (is_healthy h ≡ false)
      ⊎ (is_repair step ≡ true)
        × ((o : GateOwner) × (g.owner ≡ some o)
            × (o.operation_id ≡ op)
            × (o.kind ≡ recovery)
            × (is_healthy h ≡ true))
unfolding grant release block reconcile_begin reconcile_end is_active
latch_cleared_by_owner op v b (grants p kind now free) = inl (ground (arith, v.latched))
latch_cleared_by_owner op v b (releases o) = inl (ground (arith, v.latched))
latch_cleared_by_owner op v b (blocks o reason) =
    inl (ground (arith, v.latched, v.latch_owner o op))
latch_cleared_by_owner op v b (reconciles p now free) = inl (ground (arith, v.latched))
latch_cleared_by_owner op v b (recovers o true owns kind) =
    inr (refl, (o, owns, v.latch_owner o op owns b, kind, refl))
latch_cleared_by_owner op v b (recovers o false owns kind) = inl (ground (arith, v.latched))
