-- ===== src/SyncGate.antt =====
-- src/multi_task_scheduler/orchestration/replica_sync_gate.py: one lock with a fenced owner.
-- The coroutines of the task are interleaved at their awaits: each step below is what one of them
-- does between two awaits. The fairness of asyncio.Lock is not modelled; whoever is granted the lock
-- finds it free. Times are read from a clock that is an argument.
pub mod Fencing
mod Examples
use verl_multi_task.Common.{
  ℕ, ◌+◌, ◌≡◌, String, Bool, true, false, Option, none, some, Key, ◌==◌, if◌then◌else◌, nonempty,
  is_some, Result, ok, err, nat_key, string_key, option_key, ℕ_discrete, String-discrete,
  Option-discrete,
}

pub data GateKind : Type 0 where
  add remove restore native_sync recovery : GateKind

unfoldable pub GateKind-discrete : Discrete GateKind
GateKind-discrete = hlevel

pub record GateOwner : Type 0 where
  pub operation_id : String
  pub kind : GateKind
  pub epoch : ℕ
  pub acquired_at : ℕ

unfoldable pub GateOwner-discrete : Discrete GateOwner
unfolding ℕ_discrete String-discrete GateKind-discrete
GateOwner-discrete = hlevel (ℕ_discrete, String-discrete, GateKind-discrete)

instance abbrev pub gate_owner_key : Key GateOwner
gate_owner_key = record { decide_eq = GateOwner-discrete }

pub data GateError : Type 0 where
  timeout reentry fenced blocked empty_operation_id empty_reason reconciliation_failed : GateError

pub record ReplicaSyncGate : Type 0 where
  pub locked : Bool
  pub owner : Option GateOwner
  pub epoch : ℕ
  pub blocked_reason : Option String
  pub blocked_operation_id : Option String

pub init : ReplicaSyncGate
init = record {
  locked = false;
  owner = none;
  epoch = 0;
  blocked_reason = none;
  blocked_operation_id = none;
}

-- `health == "HEALTHY"`
abbrev pub is_healthy : ReplicaSyncGate → Bool
is_healthy g = if is_some g.blocked_reason then false else true

unfoldable pub is_active : ReplicaSyncGate → GateOwner → Bool
is_active g o = if g.owner == some o then g.locked else false

unfoldable pub block :
    ReplicaSyncGate → GateOwner → String → Result GateError Unit × ReplicaSyncGate
unfolding is_active
block g o reason =
    if is_active g o
    then (if nonempty reason
        then (
          ok tt,
          record g { blocked_reason = some reason; blocked_operation_id = some o.operation_id },
        )
        else (err empty_reason, g))
    else (err fenced, g)

-- `acquire` up to its await: may this caller wait for the lock at all?
unfoldable pub request : ReplicaSyncGate → String → Result GateError Unit
request g operation_id =
    if nonempty operation_id
    then (if is_healthy g
        then elim g.owner [
          | none ↦ ok tt
          | some o ↦ if o.operation_id == operation_id then err reentry else ok tt
        ]
        else err blocked)
    else err empty_operation_id

abbrev take : ReplicaSyncGate → String → GateKind → ℕ → GateOwner
take g operation_id kind now = record {
  operation_id = operation_id;
  kind = kind;
  epoch = g.epoch + 1;
  acquired_at = now;
}

-- `acquire` from the moment that the free lock is granted: a gate that was blocked while the caller
-- waited is released again.
unfoldable pub grant :
    ReplicaSyncGate → String → GateKind → ℕ → Result GateError GateOwner × ReplicaSyncGate
grant g operation_id kind now =
    if is_healthy g
    then (let o = take g operation_id kind now in
        (ok o, record g { locked = true; owner = some o; epoch = g.epoch + 1 }))
    else (err blocked, record g { locked = false })

-- `GateLease.release`: false for a lease that is no longer active
unfoldable pub release : ReplicaSyncGate → GateOwner → Bool × ReplicaSyncGate
unfolding is_active
release g o =
    if is_active g o then (true, record g { owner = none; locked = false }) else (false, g)

-- `reconcile` up to its await: `ok false` when nothing is blocked, `ok true` to go on
unfoldable pub reconcile_request : ReplicaSyncGate → String → Result GateError Bool
reconcile_request g operation_id =
    if nonempty operation_id
    then (if is_some g.blocked_reason
        then (if g.blocked_operation_id == some operation_id then ok true else err fenced)
        else ok false)
    else err empty_operation_id

-- `reconcile` from the moment that the free lock is granted: the checks again, then the recovery
-- owner, who holds the lock while the callback runs
unfoldable pub reconcile_begin :
    ReplicaSyncGate → String → ℕ → Result GateError (Option GateOwner) × ReplicaSyncGate
reconcile_begin g operation_id now =
    if is_some g.blocked_reason
    then (if g.blocked_operation_id == some operation_id
        then (let o = take g operation_id recovery now in
            (ok (some o), record g { locked = true; owner = some o; epoch = g.epoch + 1 }))
        else (err fenced, record g { locked = false }))
    else (ok none, record g { locked = false })

-- the callback returned (true) or raised (false); the `finally` blocks run either way
unfoldable pub reconcile_end : ReplicaSyncGate → Bool → Result GateError Bool × ReplicaSyncGate
reconcile_end g true = (
  ok true,
  record g { locked = false; owner = none; blocked_reason = none; blocked_operation_id = none },
)
reconcile_end g false = (err reconciliation_failed, record g { locked = false; owner = none })

-- `GateLease.guard`, before the call and after it
unfoldable pub guard_enter : ReplicaSyncGate → GateOwner → Result GateError Unit
unfolding is_active
guard_enter g o = if is_active g o then ok tt else err fenced

unfoldable pub guard_commit : {A : Type 0} → ReplicaSyncGate → GateOwner → A → Result GateError A
unfolding is_active
guard_commit g o result =
    if is_active g o then (if is_healthy g then ok result else err fenced) else err fenced

-- What a coroutine may do next. A grant needs a free lock; only the recovery owner ends its recovery.
pub data Step (g : ReplicaSyncGate) : ReplicaSyncGate → Type 0 where
  grants :
      (op : String) (kind : GateKind) (now : ℕ) → g.locked ≡ false → Step g (grant g op kind now).1
  releases : (o : GateOwner) → Step g (release g o).1
  blocks : (o : GateOwner) (reason : String) → Step g (block g o reason).1
  reconciles : (op : String) (now : ℕ) → g.locked ≡ false → Step g (reconcile_begin g op now).1
  recovers :
      (o : GateOwner) (returned : Bool)
      → g.owner ≡ some o
      → o.kind ≡ recovery
      → Step g (reconcile_end g returned).1

pub data Reach (g : ReplicaSyncGate) : ReplicaSyncGate → Type 0 where
  here : Reach g g
  next : {h k : ReplicaSyncGate} → Reach g h → Step h k → Reach g k
