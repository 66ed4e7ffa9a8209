-- ===== src/ServerManager/History/Lifecycle.antt =====
-- The lifecycle of a replica over the manager's calls (llm_server_manager.py).
use verl_multi_task.Common.{
  ℕ, String, ◌≡◌, refl, sym, subst, ap, ◌∙◌, inl, inr, Bool, true, false, Option, none, some, [],
  ◌∷◌, ◌++◌, ◌==◌, if◌then◌else◌, elem, ok, Result-cases, Option-cases, Bool-cases, nat_key,
  string_key, option_key, arith,
}
use verl_multi_task.Common.Dict
use verl_multi_task.Common.Dict.{Dict, get-put}
use verl_multi_task.Contracts.{
  ReplicaKey, replica_key_key, ReplicaKind, borrowed, ReplicaState, creating, replica_kind_key,
}
use verl_multi_task.TaskRunner.Lifecycle.{BorrowedSpec}
use verl_multi_task.ServerManager.{
  ServerManager, Runtime, BorrowedOperation, allowed, validate_kind_state, register_again,
  register_replica, transition_replica, replica_state_key,
}
use verl_multi_task.ServerManager.Service.{
  service_slot, remove_first, deactivate_service, activate_service, popped, appended,
}
use verl_multi_task.ServerManager.Borrowed.{
  Ending, made, failed, create_begin, create_end, create_end_known, land, landing, borrowed_key,
}
use verl_multi_task.ServerManager.Release.{sleep_end, destroy_end, destroy_known}
use verl_multi_task.ServerManager.History.{
  Call, register, transition, deactivate, activate, begin_create, end_create, end_sleep,
  end_destroy, perform,
}

-- What a call does to the states and kinds: nothing, it enters a new replica, or it moves one replica
-- along the table.
pub data Lives (m after : ServerManager) : Type 0 where
  same : after.replica_state ≡ m.replica_state → after.replica_kind ≡ m.replica_kind → Lives m after
  enters :
      (key : ReplicaKey) (kind : ReplicaKind) (state : ReplicaState)
      → Dict.get m.replica_state key ≡ none
      → validate_kind_state kind state ≡ ok tt
      → after.replica_state ≡ Dict.put m.replica_state key state
      → after.replica_kind ≡ Dict.put m.replica_kind key kind
      → Lives m after
  moves :
      (key : ReplicaKey) (kind : ReplicaKind) (current state : ReplicaState)
      → Dict.get m.replica_state key ≡ some current
      → elem state (allowed current) ≡ true
      → Dict.get m.replica_kind key ≡ some kind
      → validate_kind_state kind state ≡ ok tt
      → after.replica_state ≡ Dict.put m.replica_state key state
      → after.replica_kind ≡ m.replica_kind
      → Lives m after

register_replica-Lives :
    (m : ServerManager) (key : ReplicaKey) (kind : ReplicaKind) (state : ReplicaState)
    (runtime : Option Runtime)
    → Lives m (register_replica m key kind state runtime).1
unfolding register_replica register_again
register_replica-Lives m key kind state runtime =
    elim (Option-cases (Dict.get m.replica_state key)) [
      | inl new ↦ elim (Result-cases (validate_kind_state kind state)) [
        | inl (problem, refused) ↦
            same (ground (arith, new, refused)) (ground (arith, new, refused))
        | inr (done, valid) ↦
            enters key kind state new (ground (arith, valid)) (ground (arith, new, valid))
              (ground (arith, new, valid))
      ]
      | inr (current, known) ↦ same (ground (arith, known)) (ground (arith, known))
    ]

transition_replica-Lives :
    (m : ServerManager) (key : ReplicaKey) (state : ReplicaState)
    → Lives m (transition_replica m key state).1
unfolding transition_replica
transition_replica-Lives m key state = elim (Option-cases (Dict.get m.replica_state key)) [
  | inl unknown ↦ same (ground (arith, unknown)) (ground (arith, unknown))
  | inr (current, known) ↦
      elim (Bool-cases (if state == current then false else elem state (allowed current))) [
        | inr stays ↦ same (ground (arith, known, stays)) (ground (arith, known, stays))
        | inl moved ↦ elim (Option-cases (Dict.get m.replica_kind key)) [
          | inl kindless ↦ same (ground (arith, known, kindless)) (ground (arith, known, kindless))
          | inr (kind, found) ↦ elim (Result-cases (validate_kind_state kind state)) [
            | inl (problem, refused) ↦
                same (ground (arith, known, found, refused)) (ground (arith, known, found, refused))
            | inr (done, valid) ↦
                moves key kind current state known (ground (arith, moved)) found
                  (ground (arith, valid)) (ground (arith, known, moved, found, valid))
                  (ground (arith, known, moved, found, valid))
          ]
        ]
      ]
]

-- only the states and the kinds count
like :
    (m after other : ServerManager)
    → other.replica_state ≡ after.replica_state
    → other.replica_kind ≡ after.replica_kind
    → Lives m after
    → Lives m other
like m after other states kinds (same s k) = same (states ∙ s) (kinds ∙ k)
like m after other states kinds (enters key kind state new valid s k) =
    enters key kind state new valid (states ∙ s) (kinds ∙ k)
like m after other states kinds (moves key kind current state known ok_move found valid s k) =
    moves key kind current state known ok_move found valid (states ∙ s) (kinds ∙ k)

unchanged : (m after : ServerManager) → after ≡ m → Lives m after
unchanged m after kept =
    same (ap ServerManager.replica_state kept) (ap ServerManager.replica_kind kept)

popped-Lives :
    (m n : ServerManager) (i : Option ℕ)
    → n.replica_state ≡ m.replica_state
    → n.replica_kind ≡ m.replica_kind
    → Lives m (popped n i)
popped-Lives m n none s k = same s k
popped-Lives m n (some i) s k = same s k

appended-Lives :
    (m n : ServerManager) (runtime : Runtime) (i : Option ℕ)
    → n.replica_state ≡ m.replica_state
    → n.replica_kind ≡ m.replica_kind
    → Lives m (appended n runtime i)
appended-Lives m n runtime (some i) s k = same s k
appended-Lives m n runtime none s k = same (ground (arith, s)) (ground (arith, k))

deactivate_service-Lives :
    (m : ServerManager) (key : ReplicaKey) → Lives m (deactivate_service m key).1
deactivate_service-Lives m key = elim (Result-cases (service_slot m key false)) [
  | inl (problem, failed_slot) ↦
      unchanged m _ (unfold deactivate_service in ground (arith, failed_slot))
  | inr (slot, found) ↦
      let done : (deactivate_service m key).1
          ≡ popped (record m { rollout_replicas = remove_first m.rollout_replicas slot.0.id })
              slot.1 =
        unfold deactivate_service in ground (arith, found) in
      subst (Lives m) (sym done) (popped-Lives m _ slot.1 refl refl)
]

activate_service-Lives : (m : ServerManager) (key : ReplicaKey) → Lives m (activate_service m key).1
activate_service-Lives m key = elim (Result-cases (service_slot m key true)) [
  | inl (problem, failed_slot) ↦
      unchanged m _ (unfold activate_service in ground (arith, failed_slot))
  | inr (slot, found) ↦
      let served =
        if elem slot.0.id m.rollout_replicas
        then m
        else record m { rollout_replicas = m.rollout_replicas ++ slot.0.id ∷ [] } in
      let done : (activate_service m key).1 ≡ appended served slot.0 slot.1 =
        unfold activate_service in ground (arith, found) in
      subst (Lives m) (sym done)
        (appended-Lives m served slot.0 slot.1 (ground arith) (ground arith))
]

create_begin-Lives : (m : ServerManager) (spec : BorrowedSpec) → Lives m (create_begin m spec).1
unfolding create_begin register_replica
create_begin-Lives m spec = elim (Option-cases (Dict.get m.borrowed_operations spec.lease_id)) [
  | inr (existing, known) ↦ same (ground (arith, known)) (ground (arith, known))
  | inl unknown ↦ elim (Option-cases (Dict.get m.replica_state (borrowed_key spec))) [
    | inr (current, registered) ↦
        same (ground (arith, unknown, registered)) (ground (arith, unknown, registered))
    | inl new ↦
        enters (borrowed_key spec) borrowed creating new (unfold validate_kind_state in refl)
          (unfold validate_kind_state in ground (arith, unknown, new))
          (unfold validate_kind_state in ground (arith, unknown, new))
  ]
]

land-Lives :
    (m : ServerManager) (key : ReplicaKey) (verified : Bool) → Lives m (land m key verified)
unfolding land
land-Lives m key verified = elim (Bool-cases (Dict.get m.replica_state key == some creating)) [
  | inl waiting ↦
      let moved : land m key verified ≡ (transition_replica m key (landing verified)).1 =
        ground (arith, waiting) in
      subst (Lives m) (sym moved) (transition_replica-Lives m key (landing verified))
  | inr landed ↦ unchanged m _ (ground (arith, landed))
]

create_end_known-Lives :
    (m : ServerManager) (lease_id : String) (current : BorrowedOperation) (key : ReplicaKey)
    (e : Ending)
    → Lives m (create_end_known m lease_id current key e).1
unfolding create_end_known
create_end_known-Lives m lease_id current key (made runtime receipt) = same refl refl
create_end_known-Lives m lease_id current key (failed verified) =
    like m (land m key verified) _ refl refl (land-Lives m key verified)

create_end-Lives :
    (m : ServerManager) (lease_id : String) (key : ReplicaKey) (ending : Ending)
    → Lives m (create_end m lease_id key ending).1
create_end-Lives m lease_id key ending =
    elim (Option-cases (Dict.get m.borrowed_operations lease_id)) [
      | inl unknown ↦ unchanged m _ (unfold create_end in ground (arith, unknown))
      | inr (current, known) ↦
          let reached : create_end m lease_id key ending
              ≡ create_end_known m lease_id current key ending =
            unfold create_end in ground (arith, known) in
          subst (λ x. Lives m x.1) (sym reached)
            (create_end_known-Lives m lease_id current key ending)
    ]

sleep_end-Lives :
    (m : ServerManager) (key : ReplicaKey) (op : String) (gpu : Option String) (slept : Bool)
    (now : ℕ)
    → Lives m (sleep_end m key op gpu slept now).1
unfolding sleep_end
sleep_end-Lives m key op gpu slept now = same (ground arith) (ground arith)

destroy_end-Lives :
    (m : ServerManager) (lease_id op : String) (cleaned : Bool) (now : ℕ)
    → Lives m (destroy_end m lease_id op cleaned now).1
unfolding destroy_end destroy_known
destroy_end-Lives m lease_id op cleaned now = same (ground arith) (ground arith)

pub perform-Lives : (m : ServerManager) (c : Call) → Lives m (perform m c)
unfolding perform
perform-Lives m (register key kind state runtime) = register_replica-Lives m key kind state runtime
perform-Lives m (transition key state) = transition_replica-Lives m key state
perform-Lives m (deactivate key) = deactivate_service-Lives m key
perform-Lives m (activate key) = activate_service-Lives m key
perform-Lives m (begin_create spec) = create_begin-Lives m spec
perform-Lives m (end_create lease_id key ending) = create_end-Lives m lease_id key ending
perform-Lives m (end_sleep key op gpu slept now) = sleep_end-Lives m key op gpu slept now
perform-Lives m (end_destroy lease_id op cleaned now) = destroy_end-Lives m lease_id op cleaned now
