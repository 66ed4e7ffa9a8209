-- ===== src/Replica/Residency.antt =====
-- The sleep and the waking of a retained native runtime (replica.py). The server's receipt is an
-- argument: `none` when the call raised or answered no dict.
use verl_multi_task.Common.{
  ℕ, String, Bool, true, false, Option, none, some, List, [], ◌∷◌, ◌==◌, Result, ok, err, ◌>>=◌,
  ◌>>◌, require, nat_key, string_key, option_key, list_key, bool_key, pair_key, if◌then◌else◌, ◌≡◌,
  arith,
}
use verl_multi_task.Contracts.{native_replica, replica_kind_key}
use verl_multi_task.Replica.{
  RuntimeError, remote_failure, several_servers, not_native, unsupported_resource, wrong_sleep,
  wrong_wake, Replica,
}

-- what Ray calls the accelerator
pub data Resource : Type 0 where
  gpu npu other : Resource

-- the fields of a receipt; `none` for an absent key
pub record Reading : Type 0 where
  pub sleep_level : Option ℕ
  pub sleeping : Option Bool
  pub fully_awake : Option Bool

unfoldable pub sleep_level_of : Resource → Result RuntimeError ℕ
sleep_level_of gpu = ok 2
sleep_level_of npu = ok 1
sleep_level_of other = err unsupported_resource

-- the checks that both methods begin with
unfoldable pub native_server : Replica → Result RuntimeError (Unit {0})
native_server r = do
  require (r.replica_kind == native_replica) not_native
  elim r.servers [
    | [] ↦ err several_servers
    | server ∷ rest ↦ elim rest [ [] ↦ ok tt | _ ∷ _ ↦ err several_servers ]
  ]

abbrev received : Option Reading → Result RuntimeError Reading
received none = err remote_failure
received (some reading) = ok reading

unfoldable pub sleep : Replica → Resource → Option Reading → Result RuntimeError Reading
unfolding native_server sleep_level_of
sleep r resource answer = do
  native_server r
  level ← sleep_level_of resource
  reading ← received answer
  require (reading.sleep_level == some level) wrong_sleep
  require (reading.sleeping == some true) wrong_sleep
  ok reading

unfoldable pub wake_up :
    Replica → Option (List String) → Option Reading → Result RuntimeError Reading
unfolding native_server
wake_up r tags answer = do
  native_server r
  reading ← received answer
  let only_weights = tags == some ("weights" ∷ [])
  require (reading.sleeping == some only_weights) wrong_wake
  require (reading.fully_awake == some (if only_weights then false else true)) wrong_wake
  ok reading

-- A receipt that proves a runtime asleep proves it awake for its weights only.
asleep_is_not_serving :
    (r : Replica) (resource : Resource) (tags : Option (List String)) (answer : Option Reading)
    (slept woken : Reading)
    → sleep r resource answer ≡ ok slept
    → wake_up r tags answer ≡ ok woken
    → tags ≡ some ("weights" ∷ [])
unfolding sleep wake_up
asleep_is_not_serving r resource tags answer slept woken sleeps wakes =
    ground (arith, sleeps, wakes)
