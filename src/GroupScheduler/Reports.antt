-- ===== src/GroupScheduler/Reports.antt =====
-- `submit_idle_report` of group_scheduler.py.
use verl_multi_task.Common.{
  ℕ, String, true, false, List, [], ◌∷◌, ◌==◌, if◌then◌else◌, nonempty, elem, is_some, Result, ok,
  err, ◌>>◌, require, string_key, option_key,
}
use verl_multi_task.Common.Dict
use verl_multi_task.Contracts.{ReplicaKind, ReplicaKey, replica_key_key}
use verl_multi_task.GroupScheduler.{
  GroupScheduler, Outcome, SchedulerError, report_without_session, detached_session,
  foreign_candidate, duplicate_candidate,
}

-- The loop over the candidates, with the keys seen so far.
unfoldable pub check_candidates :
    String → List ReplicaKey → List (ReplicaKey × ReplicaKind) → Result SchedulerError (Unit {0})
check_candidates session seen [] = ok tt
check_candidates session seen ((key, kind) ∷ rest) = do
  require (key.task_session == session) foreign_candidate
  require (if elem key seen then false else true) duplicate_candidate
  check_candidates session (key ∷ seen) rest

unfoldable pub validate_report :
    GroupScheduler → String → List (ReplicaKey × ReplicaKind) → Result SchedulerError (Unit {0})
unfolding check_candidates
validate_report s session candidates = do
  require (nonempty session) report_without_session
  require (is_some (Dict.get s.task_runners session)) detached_session
  check_candidates session [] candidates

unfoldable pub submit_idle_report :
    GroupScheduler → ℕ → String → List (ReplicaKey × ReplicaKind) → Outcome (Unit {0})
unfolding validate_report
submit_idle_report s monotonic session candidates = elim (validate_report s session candidates) [
  | err e ↦ (err e, s)
  | ok _ ↦ (
    ok tt,
    record s {
      idle_reports =
          Dict.put s.idle_reports session
            (record { observed_at = monotonic; candidates = candidates });
    },
  )
]
