-- ===== src/ServerManager/History.antt =====
-- Histories of the server manager's calls (llm_server_manager.py).
pub mod Lifecycle
pub mod States
use verl_multi_task.Common.{ℕ, String, ◌≡◌, Bool, Option, List, [], ◌∷◌}
use verl_multi_task.Contracts.{ReplicaKey, ReplicaKind, ReplicaState}
use verl_multi_task.TaskRunner.Lifecycle.{BorrowedSpec}
use verl_multi_task.ServerManager.{ServerManager, Runtime, register_replica, transition_replica}
use verl_multi_task.ServerManager.Service.{deactivate_service, activate_service}
use verl_multi_task.ServerManager.Borrowed.{Ending, create_begin, create_end}
use verl_multi_task.ServerManager.Release.{sleep_end, destroy_end}

-- The steps that may write the manager's state, each between two awaits, with what the calls before
-- it answered. The other methods, and the first parts of `sleep` and `destroy`, only read.
pub data Call : Type 0 where
  register :
      (key : ReplicaKey) (kind : ReplicaKind) (state : ReplicaState) (runtime : Option Runtime)
      → Call
  transition : (key : ReplicaKey) (new_state : ReplicaState) → Call
  deactivate : (key : ReplicaKey) → Call
  activate : (key : ReplicaKey) → Call
  begin_create : (spec : BorrowedSpec) → Call
  end_create : (lease_id : String) (key : ReplicaKey) (ending : Ending) → Call
  end_sleep :
      (key : ReplicaKey) (operation_id : String) (gpu : Option String) (slept : Bool) (now : ℕ)
      → Call
  end_destroy : (lease_id operation_id : String) (cleaned : Bool) (now : ℕ) → Call

unfoldable pub perform : ServerManager → Call → ServerManager
perform m (register key kind state runtime) = (register_replica m key kind state runtime).1
perform m (transition key new_state) = (transition_replica m key new_state).1
perform m (deactivate key) = (deactivate_service m key).1
perform m (activate key) = (activate_service m key).1
perform m (begin_create spec) = (create_begin m spec).1
perform m (end_create lease_id key ending) = (create_end m lease_id key ending).1
perform m (end_sleep key operation_id gpu slept now) =
    (sleep_end m key operation_id gpu slept now).1
perform m (end_destroy lease_id operation_id cleaned now) =
    (destroy_end m lease_id operation_id cleaned now).1

unfoldable pub run : ServerManager → List Call → ServerManager
unfolding perform
run m [] = m
run m (c ∷ calls) = run (perform m c) calls

-- `__init__`, with what the native manager starts with
unfoldable pub init : String → List ℕ → List String → List ℕ → ServerManager
init task_session replicas addresses handles = record {
  task_session = task_session;
  replica_state = [];
  replica_kind = [];
  runtime_inventory = [];
  next_replica_rank = 0;
  borrowed_operations = [];
  native_release_evidence = [];
  rollout_replicas = replicas;
  server_addresses = addresses;
  server_handles = handles;
}
