-- ===== src/GroupScheduler/Events.antt =====
-- The calls that reach the scheduler actor, one at a time (group_scheduler.py).
use verl_multi_task.Common.{ℕ, String, ◌≡◌, Option, none, some, List, [], ◌∷◌}
use verl_multi_task.Contracts.{ReplicaKind, ReplicaKey, OperationCommand, OperationEvidence}
use verl_multi_task.Contracts.Lease.{Lease}
use verl_multi_task.GroupScheduler.{GroupScheduler, attach_task, detach_task}
use verl_multi_task.GroupScheduler.Reports.{submit_idle_report}
use verl_multi_task.GroupScheduler.Leases.{open_lease}
use verl_multi_task.GroupScheduler.Submit.{Reply, submit_operation}
use verl_multi_task.GroupScheduler.Advance.{advance_lease}

pub data Event : Type 0 where
  attaches : String → ℕ → Event
  detaches : String → Event
  reports : ℕ → String → List (ReplicaKey × ReplicaKind) → Event
  opens : Lease → Event
  submits : OperationCommand → ℕ → ℕ → Reply → Event
  advances : String → OperationEvidence → Event

-- What the scheduler is after a call, whether the call returned or raised.
unfoldable pub handle : GroupScheduler → Event → GroupScheduler
handle s (attaches task_id runner) = (attach_task s task_id runner).1
handle s (detaches task_id) = (detach_task s task_id).1
handle s (reports now session candidates) = (submit_idle_report s now session candidates).1
handle s (opens l) = (open_lease s l).1
handle s (submits c now monotonic reply) = (submit_operation s c now monotonic reply).1
handle s (advances lease_id e) = (advance_lease s lease_id e).1

unfoldable pub run : GroupScheduler → List Event → GroupScheduler
run s [] = s
run s (e ∷ es) = run (handle s e) es

-- the lease that a call is about
abbrev pub about : Event → Option String
about (opens l) = some l.lease_id
about (submits c now monotonic reply) = some c.lease_id
about (advances lease_id e) = some lease_id
about _ = none

abbrev pub NoneAbout : String → List Event → Type 0
NoneAbout i [] = Unit {0}
NoneAbout i (e ∷ es) = ¬ (about e ≡ some i) × NoneAbout i es
