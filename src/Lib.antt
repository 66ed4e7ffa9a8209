-- ===== src/Lib.antt =====
-- The control plane of verl-multi-task: the parts that decide which task may use which GPU.
--
-- Several training tasks lend whole GPUs to each other. A GroupScheduler actor keeps the shared
-- ledger: leases of GPU claims, the operation commands issued under them and the evidence that they
-- ended. It sends commands (DONATE, ADD, REMOVE, RESTORE) to the TaskRunner of a task, which keeps
-- them in an OperationJournal, one unfinished operation at a time, and reports evidence back.
-- Inside a task, a ReplicaSyncGate excludes membership changes and weight synchronisation from each
-- other, a request load balancer closes and hands over the requests of a replica that goes away,
-- and a message queue admits each completed sample once. A server manager keeps the state of each
-- replica and creates and destroys borrowed runtimes; a checkpoint engine manager knows which
-- runtimes receive weights and gives a new one its first; the trainer runs each change of that
-- membership as one transaction under the gate.
--
-- Which file models which code (paths below src/multi_task_scheduler):
--   Contracts, Contracts/Native, Contracts/Lease: orchestration/contracts.py. The enums are data
--     types, the dataclasses records, and each `__post_init__` a function that returns the record or
--     the error: replica_key, operation_command, operation_record, operation_evidence, make_lease.
--   Journal: orchestration/operation_journal.py, OperationJournal: begin, query, command,
--     mark_running, reopen_unknown, finish.
--   SyncGate: orchestration/replica_sync_gate.py, ReplicaSyncGate and GateLease. A coroutine is split
--     at its awaits: acquire is `request` and then `grant`; reconcile is `reconcile_request`,
--     `reconcile_begin` and `reconcile_end`; guard is `guard_enter` and `guard_commit`. `Step` is what
--     some coroutine may do next.
--   GroupScheduler: scheduler/group_scheduler.py. Reports is submit_idle_report, Leases is
--     open_lease, Submit is submit_operation, Advance is advance_lease; Events is a history of calls.
--   TaskRunner: integration/verl/experimental_fully_async/task_runner.py. submit_operation and
--     query_operation; Lifecycle is the body of _execute_operation as a function of what its remote
--     calls answer, and Execution its accesses to the journal before (`start`) and after (`conclude`).
--   LoadBalancer: rollout/load_balancer.py. Requests is admission, release, continuation and the
--     collection of settled requests; Routes is publication, draining and removal.
--   MessageQueue: integration/verl/experimental_fully_async/message_queue.py.
--   CheckpointEngine: checkpoint/checkpoint_engine_manager.py, MultiTaskCheckpointEngineManager:
--     membership; Manifest is the manifest audit and comparison, Validation is
--     validate_parameter_sync, Bootstrap is bootstrap_target; History is any sequence of calls.
--   Replica: rollout/replica.py, the clean-up of a borrowed runtime and the health check; Creation
--     is init_from_lease and the creation of workers, Residency is sleep and wake_up.
--   ServerManager: integration/verl/experimental_fully_async/llm_server_manager.py. Service is
--     activation and deactivation, Borrowed create_borrowed_replica, Release sleep and destroy;
--     History is any sequence of calls.
--   Trainer: integration/verl/experimental_fully_async/trainer.py. remove_and_commit; Publication is
--     bootstrap_and_publish, restore_and_publish and _fit_update_weights, Reconcile is
--     _reconcile_blocked_publish and _reconcile_blocked_exit.
--
-- Conventions. A method takes the state and returns its result with the state that it leaves, also
-- where it raises, so that partial effects are visible. Each `raise` has its own constructor. A
-- dict is the list of its entries in insertion order (Common/Dict). Python's runtime type tests on
-- the arguments have no counterpart where the type already says it. Times are numbers of clock
-- ticks, and clock readings are arguments. The native router of the balancer is the parameter
-- NativeRouter, with the laws that the class relies on as its fields; the native list of weight
-- receivers is the parameter NativeMembers in the same way, and the digest of a manifest is a
-- parameter of Settings. What SQLite, the native queue, Ray, a TaskRunner, a rollouter and a trainer
-- did in a call is an argument (Effects, Reply, Remote, World, Answers). A long coroutine is split at
-- its awaits where other calls may change the state meanwhile: create_begin, run_creation and
-- create_end, sleep_begin and sleep_end, destroy_begin and destroy_end. A transaction of the trainer
-- is one function from the grant of the gate to its release, since every change of the membership is
-- made by a holder of the gate.
--
-- Bounds. `decimal`, the digits of a number, runs on fuel: the number plus one, which is at least
-- its number of digits. poll_until_dead polls at least every 100 ms, so timeout / 100 + 1 polls are
-- enough fuel. Every other loop is structural recursion on a list.
--
-- Not modelled: the rollouter, the HTTP server and the runtime profile; of the task runner its start
-- and its registration; of the replica the accelerator probe; of the server
-- manager and the trainer their set-up; the checkpoint workers and the HCCL engine, scheduler
-- discovery, diagnostics and the test drivers, which are calls of third-party libraries. `acquire`
-- of the gate may also time out while it waits, which changes nothing. quarantine_dormant_restore,
-- which a failed RESTORE calls on the rollouter, changes nothing of the trainer but the text of the
-- gate's reason.
-- The balancer's native router does not raise when it releases, adds or removes a server, and the
-- queue's ledger answers every lookup.
pub mod Common
pub mod CheckpointEngine
pub mod Contracts
pub mod Journal
pub mod SyncGate
pub mod ServerManager
pub mod Replica
pub mod GroupScheduler
pub mod LoadBalancer
pub mod MessageQueue
pub mod TaskRunner
pub mod Trainer
