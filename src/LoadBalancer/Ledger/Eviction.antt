-- ===== src/LoadBalancer/Ledger/Eviction.antt =====
-- The request ledger under `_gc_settled_requests` (load_balancer.py).
use Prim.Native.Nat.{max, min, ◌/◌}
use verl_multi_task.Common.{
  ℕ, zero, suc, ◌+◌, ◌-◌, ◌≤◌, String, ◌≡◌, refl, ◌⊎◌, inl, inr, true, false, none, some, List, [],
  ◌∷◌, is_some, ltb, length, elem, distinct, string_key, option_key, arith, Bool-cases,
}
use verl_multi_task.Common.Dict
use verl_multi_task.Common.Dict.{Dict}
use verl_multi_task.Common.Dict.Counting.{
  Unique, remove-Unique, remove_all-Unique, count, count-remove,
}
use verl_multi_task.Contracts.{AttemptState, settled}
use verl_multi_task.LoadBalancer.{NativeRouter, LoadBalancer}
use verl_multi_task.LoadBalancer.Requests.{is_settled, expired_requests, evict, gc_settled_requests}
use verl_multi_task.LoadBalancer.Ledger.{Inv}

abbrev Attempts : Type 0
Attempts = Dict String AttemptState

AllSettled : Attempts → List String → Type 0
AllSettled d [] = Unit {0}
AllSettled d (r ∷ rs) = (Dict.get d r ≡ some settled) × AllSettled d rs

AllSettled-elem :
    (d : Attempts) (rs : List String) (r : String)
    → AllSettled d rs
    → elem r rs ≡ true
    → Dict.get d r ≡ some settled
unfolding AllSettled
AllSettled-elem d [] r a h = cc
AllSettled-elem d (q ∷ rs) r a h = ground (arith, AllSettled-elem d rs r a.1)

AllSettled-remove :
    (d : Attempts) (k : String) (rs : List String)
    → elem k rs ≡ false
    → AllSettled d rs
    → AllSettled (Dict.remove d k) rs
unfolding AllSettled
AllSettled-remove d k [] other a = tt
AllSettled-remove d k (r ∷ rs) other a =
    (ground (arith, Dict.get-remove d k r), AllSettled-remove d k rs (ground arith) a.1)

-- Settled requests of the tail are settled in the whole, and none of them is the new head.
AllSettled-cons :
    (d : Attempts) (r : String) (s : AttemptState) (rs : List String)
    → Dict.get d r ≡ none
    → AllSettled d rs
    → AllSettled ((r, s) ∷ d) rs × (elem r rs ≡ false)
unfolding AllSettled Dict.get
AllSettled-cons d r s [] new a = (tt, refl)
AllSettled-cons d r s (q ∷ rs) new a =
    let h = AllSettled-cons d r s rs new a.1 in ((ground arith, h.0), ground arith)

count-remove_all :
    (d : Attempts) (rs : List String)
    → Unique d
    → distinct rs ≡ true
    → AllSettled d rs
    → count is_settled (Dict.remove_all d rs) + length rs ≡ count is_settled d
unfolding Dict.remove_all AllSettled
count-remove_all d [] u dis a = omega arith
count-remove_all d (r ∷ rs) u dis a =
    let fresh : elem r rs ≡ false = ground arith in
    ground (
      arith,
      count-remove is_settled d r u,
      count-remove_all (Dict.remove d r) rs (remove-Unique d r u) (ground arith)
          (AllSettled-remove d r rs fresh a.1),
    )

expired_sound :
    (active : Dict String String) (d : Attempts) (target : ℕ)
    → Unique d
    → AllSettled d (expired_requests active d target)
      × (distinct (expired_requests active d target) ≡ true)
unfolding expired_requests AllSettled
expired_sound active [] target u = (tt, refl)
expired_sound active ((r, s) ∷ d) zero u = (tt, refl)
expired_sound active ((r, settled) ∷ d) (suc target) u =
    elim (Bool-cases (is_some (Dict.get active r))) [
      | inl busy ↦
          let h = expired_sound active d (suc target) u.1 in
          rw (busy, expired_requests) ((AllSettled-cons d r settled _ u.0 h.0).0, h.1)
      | inr idle ↦
          let h = expired_sound active d target u.1 in
          let k = AllSettled-cons d r settled _ u.0 h.0 in
          rw (idle, expired_requests) ((unfold Dict.get in ground arith, k.0), ground arith)
    ]
expired_sound active ((r, s) ∷ d) (suc target) u =
    let h = expired_sound active d (suc target) u.1 in ((AllSettled-cons d r s _ u.0 h.0).0, h.1)

-- what is settled in the tail is settled in the whole
idle_tail :
    (active : Dict String String) (d : Attempts) (r : String) (s : AttemptState)
    → Dict.get d r ≡ none
    → ((q : String) → Dict.get ((r, s) ∷ d) q ≡ some settled → is_some (Dict.get active q) ≡ false)
    → (q : String) → Dict.get d q ≡ some settled
    → is_some (Dict.get active q) ≡ false
idle_tail active d r s new idle q h = idle q (unfold Dict.get in ground arith)

expired_length :
    (active : Dict String String) (d : Attempts) (target : ℕ)
    → Unique d
    → ((r : String) → Dict.get d r ≡ some settled → is_some (Dict.get active r) ≡ false)
    → min target (count is_settled d) ≤ length (expired_requests active d target)
unfolding expired_requests count
expired_length active [] target u idle = omega arith
expired_length active ((r, s) ∷ d) zero u idle = omega arith
expired_length active ((r, settled) ∷ d) (suc target) u idle =
    let free : is_some (Dict.get active r) ≡ false = idle r (unfold Dict.get in ground arith) in
    let tail = idle_tail active d r settled u.0 idle in
    rw (free, expired_requests) (omega (arith, expired_length active d target u.1 tail))
expired_length active ((r, s) ∷ d) (suc target) u idle =
    expired_length active d (suc target) u.1 (idle_tail active d r s u.0 idle)

-- An idle settled request may be forgotten.
evict-Inv :
    {n : NativeRouter} (b : LoadBalancer n) (rs : List String)
    → Inv b
    → distinct rs ≡ true
    → AllSettled b.attempt_state rs
    → Inv (evict b rs)
unfolding evict
evict-Inv b rs v dis a = record {
  unique = remove_all-Unique b.attempt_state rs v.unique;
  counted = omega (arith, v.counted, count-remove_all b.attempt_state rs v.unique dis a);
  served = λ q. ground (
    arith,
    Dict.get-remove_all b.attempt_state rs q,
    AllSettled-elem b.attempt_state rs q a,
    v.served q,
  );
  proven = λ q h. ground (
    arith,
    Dict.get-remove_all b.attempt_state rs q,
    Dict.get-remove_all b.continuation_proofs rs q,
    v.proven q,
  );
  terminated_proven = λ q h. ground (
    arith,
    Dict.get-remove_all b.attempt_state rs q,
    Dict.get-remove_all b.continuation_proofs rs q,
    v.terminated_proven q,
  );
}

pub gc-Inv : {n : NativeRouter} (b : LoadBalancer n) → Inv b → Inv (gc_settled_requests b)
unfolding gc_settled_requests
gc-Inv b v = elim (Bool-cases (ltb b.settled_retention b.settled_count)) [
  | inr fits ↦ rw fits v
  | inl over ↦
      let h =
        expired_sound b.active_request_server b.attempt_state
          (max (b.settled_count - b.settled_retention) (b.settled_retention / 8)) v.unique in
      rw over (evict-Inv b _ v h.1 h.0)
]

gc-settled_count :
    {n : NativeRouter} (b : LoadBalancer n)
    → Inv b
    → (gc_settled_requests b).settled_count ≤ b.settled_retention
unfolding gc_settled_requests evict
gc-settled_count b v = ground (
  arith,
  v.counted,
  expired_length b.active_request_server b.attempt_state
      (max (b.settled_count - b.settled_retention) (b.settled_retention / 8)) v.unique
      (λ q h. ground (arith, v.served q)),
)

-- what a collection does to one request: it keeps it, or forgets a settled one that no server has
abbrev pub Collected : {n : NativeRouter} → LoadBalancer n → String → LoadBalancer n → Type 0
Collected b r after =
    (Dict.get after.attempt_state r ≡ Dict.get b.attempt_state r)
    ⊎ (Dict.get b.attempt_state r ≡ some settled)
      × (is_some (Dict.get b.active_request_server r) ≡ false)
      × (Dict.get after.attempt_state r ≡ none)
      × (Dict.get after.continuation_proofs r ≡ none)

evict-Collected :
    {n : NativeRouter} (b : LoadBalancer n) (rs : List String) (r : String)
    → Inv b
    → AllSettled b.attempt_state rs
    → Collected b r (evict b rs)
unfolding evict
evict-Collected b rs r v a = elim (Bool-cases (elem r rs)) [
  | inr kept ↦ inl (ground (arith, kept, Dict.get-remove_all b.attempt_state rs r))
  | inl gone ↦
      let done = AllSettled-elem b.attempt_state rs r a gone in
      inr (
        done,
        ground (arith, v.served r, done),
        ground (arith, gone, Dict.get-remove_all b.attempt_state rs r),
        ground (arith, gone, Dict.get-remove_all b.continuation_proofs rs r),
      )
]

gc-Collected :
    {n : NativeRouter} (b : LoadBalancer n) (r : String)
    → Inv b
    → Collected b r (gc_settled_requests b)
unfolding gc_settled_requests
gc-Collected b r v = elim (Bool-cases (ltb b.settled_retention b.settled_count)) [
  | inr fits ↦ rw fits (inl refl)
  | inl over ↦
      let h =
        expired_sound b.active_request_server b.attempt_state
          (max (b.settled_count - b.settled_retention) (b.settled_retention / 8)) v.unique in
      rw over (evict-Collected b _ r v h.0)
]

-- After the collection of a well-formed balancer at most `settled_retention` settled requests are
-- left, and the counter says how many; a request that is gone was settled and at no server, and its
-- proof is gone with it.
pub gc_bounded :
    {n : NativeRouter} (b : LoadBalancer n) (r : String)
    → Inv b
    → (count is_settled (gc_settled_requests b).attempt_state ≤ b.settled_retention)
      × ((gc_settled_requests b).settled_count
          ≡ count is_settled (gc_settled_requests b).attempt_state)
      × Collected b r (gc_settled_requests b)
gc_bounded b r v =
    let exact = (gc-Inv b v).counted in
    (omega (arith, exact, gc-settled_count b v), exact, gc-Collected b r v)
