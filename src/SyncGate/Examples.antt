-- ===== src/SyncGate/Examples.antt =====
-- Concrete coroutines on the gate (replica_sync_gate.py).
use verl_multi_task.Common.{
  ℕ, String, ◌≡◌, refl, ◌≢◌, ◌⊎◌, true, false, some, ok, err, nat_key, string_key, option_key,
  String-discrete, Option-discrete, ℕ_discrete,
}
use verl_multi_task.SyncGate.{
  ReplicaSyncGate, GateOwner, GateKind, add, remove, recovery, fenced, GateOwner-discrete,
  is_healthy, is_active, init, block, grant, release, guard_enter, guard_commit, reconcile_begin,
  reconcile_end, grants, blocks, releases, recovers, reconciles, Reach, here, next,
}
use verl_multi_task.SyncGate.Fencing.{
  Inv, init-Inv, Step-Inv, released_owner_fenced, grants_differ, latch_cleared_by_owner,
}

abbrev holder : String → GateKind → ℕ → GateOwner
holder op kind epoch = record { operation_id = op; kind = kind; epoch = epoch; acquired_at = 0 }

-- the gate while "add-1" holds it, after it released it, and while "remove-1" holds it next
abbrev held : ReplicaSyncGate
held = (grant init "add-1" add 0).1

abbrev freed : ReplicaSyncGate
freed = (release held (holder "add-1" add 1)).1

abbrev taken : ReplicaSyncGate
taken = (grant freed "remove-1" remove 0).1

-- "add-1" blocked the gate and released it, and now recovers it
abbrev recovering : ReplicaSyncGate
recovering =
    (reconcile_begin
      (release (block held (holder "add-1" add 1) "lost worker").1 (holder "add-1" add 1)).1 "add-1"
      0).1

freed-Reach : Reach freed taken
unfolding init grant release GateOwner-discrete Option-discrete String-discrete ℕ_discrete
freed-Reach = next here (grants "remove-1" remove 0 refl)

held_active : is_active held (holder "add-1" add 1) ≡ true
unfolding init grant is_active GateOwner-discrete Option-discrete String-discrete ℕ_discrete
held_active = refl

held-Inv : Inv held
unfolding init
held-Inv = Step-Inv (grants "add-1" add 0 refl) init-Inv

recovering-Inv : Inv recovering
unfolding init grant block release GateOwner-discrete Option-discrete String-discrete ℕ_discrete
recovering-Inv = Step-Inv (reconciles "add-1" 0 refl) (
    Step-Inv (releases (holder "add-1" add 1))
      (Step-Inv (blocks (holder "add-1" add 1) "lost worker") held-Inv))

granted : (grant init "add-1" add 0).0 ≡ ok (holder "add-1" add 1)
unfolding init grant
granted = refl

granted_next : (grant freed "remove-1" remove 0).0 ≡ ok (holder "remove-1" remove 2)
unfolding init grant release GateOwner-discrete Option-discrete String-discrete ℕ_discrete
granted_next = refl

recovery_latched : recovering.blocked_operation_id ≡ some "add-1"
unfolding init grant block release reconcile_begin GateOwner-discrete Option-discrete
    String-discrete ℕ_discrete
recovery_latched = refl

recovery_owned : recovering.owner ≡ some (holder "add-1" recovery 2)
unfolding init grant block release reconcile_begin GateOwner-discrete Option-discrete
    String-discrete ℕ_discrete
recovery_owned = refl

released_owner_fenced_example :
    (guard_enter taken (holder "add-1" add 1) ≡ err fenced)
    × (guard_commit {A = String} taken (holder "add-1" add 1) "result" ≡ err fenced)
    × (block taken (holder "add-1" add 1) "late" ≡ (err fenced, taken))
    × (release taken (holder "add-1" add 1) ≡ (false, taken))
released_owner_fenced_example =
    released_owner_fenced (holder "add-1" add 1) "result" "late" held-Inv held_active freed-Reach

grants_differ_example : holder "add-1" add 1 ≢ holder "remove-1" remove 2
grants_differ_example =
    grants_differ init freed "add-1" "remove-1" add remove 0 0 (holder "add-1" add 1)
      (holder "remove-1" remove 2) granted (next here (releases (holder "add-1" add 1)))
      granted_next

latch_cleared_by_owner_example :
    ((reconcile_end recovering true).1.blocked_operation_id ≡ some "add-1")
      × (is_healthy (reconcile_end recovering true).1 ≡ false)
    ⊎ (true ≡ true)
      × ((o : GateOwner) × (recovering.owner ≡ some o)
          × (o.operation_id ≡ "add-1")
          × (o.kind ≡ recovery)
          × (is_healthy (reconcile_end recovering true).1 ≡ true))
latch_cleared_by_owner_example =
    latch_cleared_by_owner "add-1" recovering-Inv recovery_latched
      (recovers (holder "add-1" recovery 2) true recovery_owned refl)
