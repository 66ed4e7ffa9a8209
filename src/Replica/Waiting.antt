-- ===== src/Replica/Waiting.antt =====
-- The waiting loop: its fuel, and what it has seen when it returns (replica.py).
use verl_multi_task.Common.{
  ℕ, zero, suc, ◌+◌, ◌*◌, ◌≤◌, String, ◌≡◌, refl, ap, inl, inr, true, some, List, [], ◌∷◌, ◌==◌,
  is_nil, is_some, leb, elem, string_key, ok, Result-cases, Option-cases, Bool-cases, arith,
}
use verl_multi_task.Replica.{
  World, ActorState, dead, alive, all_dead, proves_death, non_dead_actor_names, poll_until_dead,
  polls_within, timeout, wait_actor_names_dead,
}

-- What `loop.time` and `asyncio.sleep(0.1)` promise: the clock does not go back, and it advances by at
-- least 100 ms between two polls.
pub record Advances (w : World) : Type 0 where
  pub first : w.started_at ≤ w.clock 0
  pub later : (poll : ℕ) → w.clock poll + 100 ≤ w.clock (suc poll)

clock-bound : (w : World) → Advances w → (poll : ℕ) → w.started_at + 100 * poll ≤ w.clock poll
clock-bound w a zero = omega (arith, a.first)
clock-bound w a (suc poll) = omega (arith, a.later poll, clock-bound w a poll)

leb-eq-true : (m n : ℕ) → m ≤ n → leb m n ≡ true
leb-eq-true m n le = ground arith

-- the loop with enough fuel for the time that is left ends
poll_until_dead-ends :
    (fuel : ℕ) (w : World) (names : List String) (poll : ℕ)
    → Advances w
    → w.started_at + timeout ≤ w.started_at + 100 * (poll + fuel)
    → is_some (poll_until_dead (suc fuel) w (w.started_at + timeout) names poll) ≡ true
unfolding poll_until_dead
poll_until_dead-ends zero w names poll a enough =
    elim (Result-cases (non_dead_actor_names w poll names)) [
      | inl (problem, failed) ↦ ground (arith, failed)
      | inr (active, answered) ↦ ground (
        arith,
        answered,
        leb-eq-true (w.started_at + timeout) (w.clock poll)
            (omega (arith, enough, clock-bound w a poll)),
      )
    ]
poll_until_dead-ends (suc fuel) w names poll a enough =
    elim (Result-cases (non_dead_actor_names w poll names)) [
      | inl (problem, failed) ↦ ground (arith, failed)
      | inr (active, answered) ↦
          ground (
            arith,
            answered,
            poll_until_dead-ends fuel w names (suc poll) a (omega (arith, enough)),
          )
    ]

-- The wait for a list of actors ends within its timeout, whatever Ray answers: it returns, or it raises.
pub wait_actor_names_dead-ends :
    (w : World) (names : List String) → Advances w → is_some (wait_actor_names_dead w names) ≡ true
unfolding wait_actor_names_dead
wait_actor_names_dead-ends w [] a = refl
wait_actor_names_dead-ends w (name ∷ names) a =
    poll_until_dead-ends 100 w (name ∷ names) 0 a (omega arith)

-- so many records that all say DEAD
abbrev pub deaths : ℕ → List ActorState
deaths zero = []
deaths (suc n) = dead ∷ deaths n

-- at this poll Ray knew one record of the actor at least, and all of them were DEAD
abbrev pub DeadAt : World → ℕ → String → Type 0
DeadAt w poll name = (others : ℕ) × (w.states poll name ≡ some (deaths (suc others)))

all_dead-deaths :
    (states : List ActorState) → all_dead states ≡ true → (n : ℕ) × (states ≡ deaths n)
all_dead-deaths [] known = (0, refl)
all_dead-deaths (alive ∷ states) known = cc
all_dead-deaths (dead ∷ states) known =
    let (n, same) = all_dead-deaths states known in (suc n, ap (λ x. dead ∷ x) same)

proves_death-deaths :
    (states : List ActorState) → proves_death states ≡ true → (n : ℕ) × (states ≡ deaths (suc n))
proves_death-deaths [] known = cc
proves_death-deaths (alive ∷ states) known = cc
proves_death-deaths (dead ∷ states) known =
    let (n, same) = all_dead-deaths states known in (n, ap (λ x. dead ∷ x) same)

non_dead_actor_names-nil :
    (w : World) (poll : ℕ) (names : List String)
    → non_dead_actor_names w poll names ≡ ok []
    → (name : String) → elem name names ≡ true
    → DeadAt w poll name
unfolding non_dead_actor_names
non_dead_actor_names-nil w poll [] quiet name mem = cc
non_dead_actor_names-nil w poll (n ∷ names) quiet name mem = elim (Option-cases (w.states poll n)) [
  | inl silent ↦ ground (arith, quiet, silent)
  | inr (states, answered) ↦ elim (Result-cases (non_dead_actor_names w poll names)) [
    | inl (problem, failed) ↦ ground (arith, quiet, answered, failed)
    | inr (rest, others) ↦ elim (Bool-cases (n == name)) [
      | inl same ↦
          let (n, certified) =
            proves_death-deaths states (ground (arith, quiet, answered, others)) in
          (n, ground (arith, same, answered, certified))
      | inr different ↦
          non_dead_actor_names-nil w poll names (ground (arith, quiet, answered, others)) name
            (ground (arith, mem, different))
    ]
  ]
]

poll_until_dead-DeadAt :
    (fuel : ℕ) (w : World) (deadline : ℕ) (names : List String) (poll : ℕ)
    → poll_until_dead fuel w deadline names poll ≡ some (ok tt)
    → (at : ℕ) × ((name : String) → elem name names ≡ true → DeadAt w at name)
unfolding poll_until_dead
poll_until_dead-DeadAt zero w deadline names poll ended = cc
poll_until_dead-DeadAt (suc fuel) w deadline names poll ended =
    elim (Result-cases (non_dead_actor_names w poll names)) [
      | inl (problem, failed) ↦ ground (arith, ended, failed)
      | inr (active, answered) ↦ elim (Bool-cases (is_nil active)) [
        | inl quiet ↦
            (poll, non_dead_actor_names-nil w poll names (ground (arith, answered, quiet)))
        | inr busy ↦
            poll_until_dead-DeadAt fuel w deadline names (suc poll)
              (ground (arith, ended, answered, busy))
      ]
    ]

-- A wait that returns saw one poll at which all of the actors were dead together.
pub wait_actor_names_dead-DeadAt :
    (w : World) (names : List String)
    → wait_actor_names_dead w names ≡ some (ok tt)
    → (at : ℕ) × ((name : String) → elem name names ≡ true → DeadAt w at name)
unfolding wait_actor_names_dead
wait_actor_names_dead-DeadAt w [] ended = (0, λ name mem. cc)
wait_actor_names_dead-DeadAt w (name ∷ names) ended =
    poll_until_dead-DeadAt (polls_within timeout) w (w.started_at + timeout) (name ∷ names) 0 ended
