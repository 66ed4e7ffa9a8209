-- ===== src/Contracts.antt =====
-- src/multi_task_scheduler/orchestration/contracts.py: the values that cross the owners' boundaries.
-- Types replace the source's isinstance checks; an argument that a check may find negative is a ℤ.
pub mod Native
pub mod Lease
mod Examples
use verl_multi_task.Common.{
  ℕ, String, ◌≡◌, Bool, true, false, Option, none, some, List, [], ◌∷◌, Key, ◌==◌, ℤ, pos, negsuc,
  if◌then◌else◌, nonempty, distinct, elem, is_nil, Result, ok, err, ◌>>=◌, ◌>>◌, require, nat_key,
  string_key, option_key, bool_key, String-discrete, Option-discrete, Bool-discrete, List-discrete,
  ℕ_discrete,
}

pub data ReplicaKind : Type 0 where
  native_replica borrowed : ReplicaKind

pub data ReplicaState : Type 0 where
  creating active draining dormant released quarantined : ReplicaState

pub data AttemptState : Type 0 where
  admitted terminated settled : AttemptState

pub data OperationKind : Type 0 where
  add donate remove restore : OperationKind

pub data OperationStatus : Type 0 where
  accepted running succeeded failed unknown : OperationStatus

pub data EvidenceType : Type 0 where
  weight_ready exit_ready service_committed released_gpus : EvidenceType

unfoldable pub ReplicaKind-discrete : Discrete ReplicaKind
ReplicaKind-discrete = hlevel

unfoldable pub AttemptState-discrete : Discrete AttemptState
AttemptState-discrete = hlevel

unfoldable pub OperationKind-discrete : Discrete OperationKind
OperationKind-discrete = hlevel

unfoldable pub OperationStatus-discrete : Discrete OperationStatus
OperationStatus-discrete = hlevel

unfoldable pub EvidenceType-discrete : Discrete EvidenceType
EvidenceType-discrete = hlevel

instance abbrev pub replica_kind_key : Key ReplicaKind
replica_kind_key = record { decide_eq = ReplicaKind-discrete }

instance abbrev pub attempt_state_key : Key AttemptState
attempt_state_key = record { decide_eq = AttemptState-discrete }

instance abbrev pub operation_kind_key : Key OperationKind
operation_kind_key = record { decide_eq = OperationKind-discrete }

instance abbrev pub operation_status_key : Key OperationStatus
operation_status_key = record { decide_eq = OperationStatus-discrete }

instance abbrev pub evidence_type_key : Key EvidenceType
evidence_type_key = record { decide_eq = EvidenceType-discrete }

-- One constructor for each `raise` of the module.
pub data ContractError : Type 0 where
  empty_task_session empty_replica_id negative_runtime_epoch negative_replica_rank : ContractError
  empty_operation_id empty_lease_id force_without_remove : ContractError
  negative_timestamp duplicate_gpu_uuids empty_gpu_uuid : ContractError
  released_without_gpu_uuids gpu_uuids_without_released : ContractError
  not_evidence foreign_evidence unexpected_evidence : ContractError

pub record ReplicaKey : Type 0 where
  pub task_session : String
  pub replica_id : String
  pub runtime_epoch : ℕ

unfoldable pub ReplicaKey-discrete : Discrete ReplicaKey
unfolding ℕ_discrete String-discrete
ReplicaKey-discrete = hlevel (ℕ_discrete, String-discrete)

instance abbrev pub replica_key_key : Key ReplicaKey
replica_key_key = record { decide_eq = ReplicaKey-discrete }

unfoldable pub replica_key : String → String → ℤ → Result ContractError ReplicaKey
replica_key task_session replica_id (pos epoch) = do
  require (nonempty task_session) empty_task_session
  require (nonempty replica_id) empty_replica_id
  ok (record { task_session = task_session; replica_id = replica_id; runtime_epoch = epoch })
replica_key task_session replica_id (negsuc _) = do
  require (nonempty task_session) empty_task_session
  require (nonempty replica_id) empty_replica_id
  err negative_runtime_epoch

pub record OperationCommand : Type 0 where
  pub operation_id : String
  pub kind : OperationKind
  pub target : ReplicaKey
  pub lease_id : String
  pub force : Option Bool

unfoldable pub OperationCommand-discrete : Discrete OperationCommand
unfolding OperationKind-discrete ReplicaKey-discrete String-discrete
OperationCommand-discrete = hlevel (OperationKind-discrete, ReplicaKey-discrete, String-discrete)

instance abbrev pub operation_command_key : Key OperationCommand
operation_command_key = record { decide_eq = OperationCommand-discrete }

-- the truth value of `bool | None`
abbrev pub truthy : Option Bool → Bool
truthy (some true) = true
truthy _ = false

unfoldable pub operation_command :
    String
    → OperationKind
    → ReplicaKey
    → String
    → Option Bool
    → Result ContractError OperationCommand
operation_command operation_id kind target lease_id force = do
  require (nonempty operation_id) empty_operation_id
  require (nonempty lease_id) empty_lease_id
  require (if kind == remove then true else if truthy force then false else true)
      force_without_remove
  ok (record {
    operation_id = operation_id;
    kind = kind;
    target = target;
    lease_id = lease_id;
    force = force;
  })

pub record OperationRecord : Type 0 where
  pub operation_id : String
  pub status : OperationStatus
  pub result : Option String

unfoldable pub operation_record :
    String → OperationStatus → Option String → Result ContractError OperationRecord
operation_record operation_id status result = do
  require (nonempty operation_id) empty_operation_id
  ok (record { operation_id = operation_id; status = status; result = result })

pub record OperationEvidence : Type 0 where
  pub operation_id : String
  pub type : EvidenceType
  pub timestamp : ℕ
  pub released_gpu_uuids : List String

unfoldable pub OperationEvidence-discrete : Discrete OperationEvidence
unfolding EvidenceType-discrete String-discrete ℕ_discrete
OperationEvidence-discrete = hlevel (EvidenceType-discrete, String-discrete, ℕ_discrete)

instance abbrev pub operation_evidence_key : Key OperationEvidence
operation_evidence_key = record { decide_eq = OperationEvidence-discrete }

abbrev pub as_nat : ℤ → ContractError → Result ContractError ℕ
as_nat (pos n) e = ok n
as_nat (negsuc n) e = err e

unfoldable pub operation_evidence :
    String → EvidenceType → ℤ → List String → Result ContractError OperationEvidence
operation_evidence operation_id type timestamp gpus = do
  require (nonempty operation_id) empty_operation_id
  time ← as_nat timestamp negative_timestamp
  require (distinct gpus) duplicate_gpu_uuids
  require (if elem "" gpus then false else true) empty_gpu_uuid
  require (if type == released_gpus then (if is_nil gpus then false else true) else true)
      released_without_gpu_uuids
  require (if type == released_gpus then true else is_nil gpus) gpu_uuids_without_released
  ok (record {
    operation_id = operation_id;
    type = type;
    timestamp = time;
    released_gpu_uuids = gpus;
  })

-- `OperationEvidence.now`: the clock's reading is an argument.
unfoldable pub evidence_now :
    ℕ → String → EvidenceType → List String → Result ContractError OperationEvidence
unfolding operation_evidence
evidence_now time_ns operation_id type gpus =
    operation_evidence operation_id type (pos time_ns) gpus

-- `none` stands for a value of another type.
unfoldable pub require_operation_evidence :
    Option OperationEvidence → String → EvidenceType → Result ContractError OperationEvidence
require_operation_evidence none operation_id expected = err not_evidence
require_operation_evidence (some value) operation_id expected = do
  require (value.operation_id == operation_id) foreign_evidence
  require (value.type == expected) unexpected_evidence
  ok value
