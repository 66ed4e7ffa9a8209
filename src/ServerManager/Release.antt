-- ===== src/ServerManager/Release.antt =====
-- The release of a replica's GPUs: a native runtime sleeps, a borrowed one is destroyed
-- (llm_server_manager.py). Each is split at its awaits: `..._begin` is what comes before the calls of
-- the runtime, `..._end` what comes after them.
use verl_multi_task.Common.{
  ℕ, String, Bool, true, Option, none, some, List, [], ◌∷◌, map, ◌==◌, if◌then◌else◌, nonempty,
  Result, ok, err, ◌>>=◌, ◌>>◌, require, nat_key, string_key, option_key,
}
use verl_multi_task.Common.Dict
use verl_multi_task.Common.Dict.{Dict}
use verl_multi_task.Contracts.{
  ReplicaKey, replica_key_key, native_replica, borrowed, replica_kind_key, creating, draining,
  OperationEvidence, evidence_now, released_gpus,
}
use verl_multi_task.TaskRunner.Lifecycle.{RankedClaim, BorrowedSpec}
use verl_multi_task.ServerManager.{
  ServerManager, BorrowedOperation, Runtime, ManagerError, Outcome, replica_state_key,
  empty_operation_id, foreign_release, not_native, not_borrowed, not_draining, no_runtime,
  no_gpu_id, foreign_destroy, not_destroyable, cleanup_failed, several_records, runtime_failure,
  bad_evidence,
}
use verl_multi_task.ServerManager.Borrowed.{borrowed_key}

-- the records of a key, with their leases
unfoldable pub records_for :
    Dict String BorrowedOperation → ReplicaKey → Dict String BorrowedOperation
records_for [] key = []
records_for ((lease_id, operation) ∷ rest) key =
    let more = records_for rest key in
    if borrowed_key operation.resolved_spec == key then (lease_id, operation) ∷ more else more

unfoldable pub borrowed_record_for_key :
    ServerManager → ReplicaKey → Result ManagerError (String × BorrowedOperation)
unfolding records_for
borrowed_record_for_key m key = elim (records_for m.borrowed_operations key) [
  | [] ↦ err several_records
  | record_of ∷ others ↦ elim others [ [] ↦ ok record_of | other ∷ more ↦ err several_records ]
]

-- the evidence of a destroyed runtime for its own operation
abbrev pub destroyed_by : BorrowedOperation → String → Option OperationEvidence
destroyed_by operation operation_id = elim operation.destroy_evidence [
  | none ↦ none
  | some evidence ↦ if evidence.operation_id == operation_id then some evidence else none
]

unfoldable pub query_release_evidence :
    ServerManager → ReplicaKey → String → Result ManagerError (Option OperationEvidence)
unfolding borrowed_record_for_key
query_release_evidence m key operation_id =
    if nonempty operation_id
    then elim (Dict.get m.replica_kind key) [
      | none ↦ ok none
      | some native_replica ↦ elim (Dict.get m.native_release_evidence operation_id) [
        | none ↦ ok none
        | some entry ↦ if entry.0 == key then ok (some entry.1) else err foreign_release
      ]
      | some borrowed ↦ elim (borrowed_record_for_key m key) [
        | err _ ↦ ok none
        | ok operation ↦ ok (destroyed_by operation.1 operation_id)
      ]
    ]
    else err empty_operation_id

-- Either the evidence of an earlier call, or the runtime to go on with.
pub data Begun : Type 0 where
  replayed : (evidence : OperationEvidence) → Begun
  goes_on : (runtime : Runtime) → Begun

abbrev pub runtime_of : ServerManager → ReplicaKey → Result ManagerError Runtime
runtime_of m key = elim (Dict.get m.runtime_inventory key) [
  | none ↦ err no_runtime
  | some runtime ↦ ok runtime
]

unfoldable pub sleep_begin : ServerManager → ReplicaKey → String → Result ManagerError Begun
sleep_begin m key operation_id = do
  require (nonempty operation_id) empty_operation_id
  require (Dict.get m.replica_kind key == some native_replica) not_native
  elim (Dict.get m.native_release_evidence operation_id) [
    | some previous ↦ if previous.0 == key then ok (replayed previous.1) else err foreign_release
    | none ↦ do
      require (Dict.get m.replica_state key == some draining) not_draining
      runtime ← runtime_of m key
      ok (goes_on runtime)
  ]

abbrev pub released_evidence : ℕ → String → List String → Result ManagerError OperationEvidence
released_evidence now operation_id gpus = elim (evidence_now now operation_id released_gpus gpus) [
  | err problem ↦ err (bad_evidence problem)
  | ok evidence ↦ ok evidence
]

-- `gpu_uuid` is that of the runtime's one placement, if the call gave one; `slept` whether
-- `runtime.sleep()` returned
unfoldable pub sleep_end :
    ServerManager → ReplicaKey → String → Option String → Bool → ℕ → Outcome OperationEvidence
sleep_end m key operation_id gpu_uuid slept now =
    elim (do
      gpu ← elim gpu_uuid [ none ↦ err no_gpu_id | some gpu ↦ ok gpu ]
      require (nonempty gpu) no_gpu_id
      require slept runtime_failure
      released_evidence now operation_id (gpu ∷ [])) [
        | err problem ↦ (err problem, m)
        | ok evidence ↦ (
          ok evidence,
          record m {
            native_release_evidence =
                Dict.put m.native_release_evidence operation_id (key, evidence);
          },
        )
      ]

unfoldable pub destroy_begin : ServerManager → ReplicaKey → String → Result ManagerError Begun
unfolding borrowed_record_for_key
destroy_begin m key operation_id = do
  require (nonempty operation_id) empty_operation_id
  require (Dict.get m.replica_kind key == some borrowed) not_borrowed
  operation ← borrowed_record_for_key m key
  elim operation.1.destroy_evidence [
    | some previous ↦
        if previous.operation_id == operation_id
        then ok (replayed previous)
        else err foreign_destroy
    | none ↦ do
      require
          (if Dict.get m.replica_state key == some creating
            then true
            else Dict.get m.replica_state key == some draining)
          not_destroyable
      runtime ← runtime_of m key
      ok (goes_on runtime)
  ]

abbrev pub claimed_gpus : BorrowedSpec → List String
claimed_gpus spec = map (λ (c : RankedClaim). c.claim.gpu_uuid) spec.claims

-- `destroy_end` for the record of the lease
unfoldable pub destroy_known :
    ServerManager → String → BorrowedOperation → String → Bool → ℕ → Outcome OperationEvidence
destroy_known m lease_id operation operation_id cleaned now =
    elim (do
      require cleaned cleanup_failed
      released_evidence now operation_id (claimed_gpus operation.resolved_spec)) [
        | err problem ↦ (err problem, m)
        | ok evidence ↦ (
          ok evidence,
          record m {
            borrowed_operations =
                Dict.put m.borrowed_operations lease_id
                  (record operation { destroy_evidence = some evidence });
          },
        )
      ]

-- `lease_id` is that of the record that `destroy_begin` found, `cleaned` whether
-- `cleanup_borrowed_runtime` returned
unfoldable pub destroy_end : ServerManager → String → String → Bool → ℕ → Outcome OperationEvidence
unfolding destroy_known
destroy_end m lease_id operation_id cleaned now = elim (Dict.get m.borrowed_operations lease_id) [
  | none ↦ (err several_records, m)
  | some operation ↦ destroy_known m lease_id operation operation_id cleaned now
]
