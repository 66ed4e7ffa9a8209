-- ===== src/CheckpointEngine/Membership/Serving.antt =====
-- The abstract view of the membership: which replica a runtime serves, and at which version
-- (checkpoint_engine_manager.py).
use verl_multi_task.Common.{
  ℕ, ◌≡◌, refl, ◌∙◌, ◌⊎◌, inl, inr, true, false, Option, none, some, List, [], ◌∷◌, ◌==◌,
  if◌then◌else◌, elem, Bool-cases, Option-cases, nat_key, string_key, option_key, list_key,
  pair_key, arith,
}
use verl_multi_task.Common.Dict
use verl_multi_task.Common.Dict.{Dict, get-put, get-remove}
use verl_multi_task.Common.Dict.Counting.{Unique}
use verl_multi_task.Contracts.{ReplicaKey, replica_key_key}
use verl_multi_task.CheckpointEngine.{Replica, CheckpointManager, with_version}
use verl_multi_task.CheckpointEngine.Membership.{member_of, Inv}
use verl_multi_task.CheckpointEngine.Membership.Preservation.{get-with_version}

-- the replica and version that a runtime serves
abbrev pub Directory : Type 0
Directory = Replica → Option (ReplicaKey × ℕ)

unfoldable pub serving : Dict ReplicaKey (List Replica × ℕ) → Directory
serving [] r = none
serving ((key, (replicas, version)) ∷ d) r =
    if elem r replicas then some (key, version) else serving d r

-- a directory after runtimes joined a replica, after they left it, and after a refresh of all versions
abbrev pub joined : Directory → ReplicaKey → List Replica → ℕ → Directory
joined d key replicas version r = if elem r replicas then some (key, version) else d r

abbrev pub left : Directory → ReplicaKey → Directory
left d key r = elim (d r) [ none ↦ none | some place ↦ if place.0 == key then none else some place ]

abbrev pub refreshed : Directory → ℕ → Directory
refreshed d version r = elim (d r) [ none ↦ none | some place ↦ some (place.0, version) ]

pub serving-get :
    (d : Dict ReplicaKey (List Replica × ℕ)) (r : Replica) (place : ReplicaKey × ℕ)
    → Unique d
    → serving d r ≡ some place
    → (replicas : List Replica) × (Dict.get d place.0 ≡ some (replicas, place.1))
      × (elem r replicas ≡ true)
unfolding serving Dict.get
serving-get [] r place u served = cc
serving-get ((key, (replicas, version)) ∷ d) r place u served =
    elim (Bool-cases (elem r replicas)) [
      | inl mem ↦ (replicas, ground (arith, served, mem), mem)
      | inr other ↦
          let (found, at, mem) = serving-get d r place u.1 (ground (arith, served, other)) in
          (found, ground (arith, at, u.0), mem)
    ]

serving-none :
    (d : Dict ReplicaKey (List Replica × ℕ)) (r : Replica) (k : ReplicaKey)
    → serving d r ≡ none
    → member_of d k r ≡ false
unfolding serving Dict.get
serving-none [] r k idle = refl
serving-none ((key, entry) ∷ d) r k idle = ground (arith, serving-none d r k)

module _ (d : Dict ReplicaKey (List Replica × ℕ)) (unique : Unique d)
    (exclusive : (j k : ReplicaKey) (r : Replica)
      → member_of d j r ≡ true
      → member_of d k r ≡ true
      → j ≡ k) where
  -- the directory at a runtime that an entry holds
  pub get-serving :
      (k : ReplicaKey) (entry : List Replica × ℕ) (r : Replica)
      → Dict.get d k ≡ some entry
      → elem r entry.0 ≡ true
      → serving d r ≡ some (k, entry.1)
  get-serving k entry r found mem = elim (Option-cases (serving d r)) [
    | inl idle ↦ ground (arith, serving-none d r k idle, found, mem)
    | inr (place, served) ↦
        let (replicas, at, also) = serving-get d r place unique served in
        served ∙ ground (arith, at, also, found, mem, exclusive place.0 k r)
  ]

  member_of-serving :
      (k : ReplicaKey) (r : Replica)
      → member_of d k r ≡ true
      → (version : ℕ) × (serving d r ≡ some (k, version))
  member_of-serving k r mem = elim (Option-cases (Dict.get d k)) [
    | inl absent ↦ ground (arith, mem, absent)
    | inr (entry, found) ↦ (entry.1, get-serving k entry r found (ground (arith, mem, found)))
  ]

  -- The directory at a runtime is the one value that the entries allow.
  serving_is :
      (r : Replica) (target : Option (ReplicaKey × ℕ))
      → ((place : ReplicaKey × ℕ)
          → target ≡ some place
          → (replicas : List Replica) × (Dict.get d place.0 ≡ some (replicas, place.1))
            × (elem r replicas ≡ true))
      → ((k : ReplicaKey) → target ≡ none → member_of d k r ≡ false)
      → serving d r ≡ target
  serving_is r (some place) held idle =
      let (replicas, at, mem) = held place refl in get-serving place.0 (replicas, place.1) r at mem
  serving_is r none held idle = elim (Option-cases (serving d r)) [
    | inl none_served ↦ none_served
    | inr (place, served) ↦
        let (replicas, at, mem) = serving-get d r place unique served in
        ground (arith, idle place.0 refl, at, mem)
  ]

module _ (m after : CheckpointManager) (v : Inv m) (w : Inv after) where
  exclusive_effective :
      (j k : ReplicaKey) (r : Replica)
      → member_of m.effective j r ≡ true
      → member_of m.effective k r ≡ true
      → j ≡ k
  exclusive_effective j k r at_j at_k =
      v.exclusive j k r (ground (arith, at_j)) (ground (arith, at_k))

  exclusive_after :
      (j k : ReplicaKey) (r : Replica)
      → member_of after.effective j r ≡ true
      → member_of after.effective k r ≡ true
      → j ≡ k
  exclusive_after j k r at_j at_k = w.exclusive j k r (ground (arith, at_j)) (ground (arith, at_k))

  pub serving-left :
      (key : ReplicaKey) (r : Replica)
      → after.effective ≡ Dict.remove m.effective key
      → serving after.effective r ≡ left (serving m.effective) key r
  serving-left key r removed =
      serving_is after.effective w.unique exclusive_after r (left (serving m.effective) key r)
        (λ place target. elim (Option-cases (serving m.effective r)) [
          | inl idle ↦ ground (arith, target, idle)
          | inr (old, served) ↦
              let (replicas, at, mem) = serving-get m.effective r old v.unique served in
              (
                replicas,
                ground (arith, target, served, at, removed, get-remove m.effective key place.0),
                mem,
              )
        ])
        (λ k target. elim (Option-cases (serving m.effective r)) [
          | inl idle ↦
              ground
                (arith, serving-none m.effective r k idle, removed, get-remove m.effective key k)
          | inr (old, served) ↦
              let (replicas, at, mem) = serving-get m.effective r old v.unique served in
              ground (
                arith,
                target,
                served,
                at,
                mem,
                removed,
                get-remove m.effective key k,
                exclusive_effective old.0 k r,
              )
        ])

  pub serving-refreshed :
      (version : ℕ) (r : Replica)
      → after.effective ≡ with_version m.effective version
      → serving after.effective r ≡ refreshed (serving m.effective) version r
  serving-refreshed version r marked =
      serving_is after.effective w.unique exclusive_after r
        (refreshed (serving m.effective) version r)
        (λ place target. elim (Option-cases (serving m.effective r)) [
          | inl idle ↦ ground (arith, target, idle)
          | inr (old, served) ↦
              let (replicas, at, mem) = serving-get m.effective r old v.unique served in
              (
                replicas,
                ground (
                  arith,
                  target,
                  served,
                  at,
                  marked,
                  get-with_version m.effective version place.0,
                ),
                mem,
              )
        ])
        (λ k target. elim (Option-cases (serving m.effective r)) [
          | inl idle ↦ ground (
            arith,
            serving-none m.effective r k idle,
            marked,
            get-with_version m.effective version k,
          )
          | inr (old, served) ↦ ground (arith, target, served)
        ])

  pub serving-joined :
      (key : ReplicaKey) (replicas : List Replica) (version : ℕ) (r : Replica)
      → (Dict.get m.effective key ≡ none) ⊎ (Dict.get m.effective key ≡ some (replicas, version))
      → after.effective ≡ Dict.put m.effective key (replicas, version)
      → serving after.effective r ≡ joined (serving m.effective) key replicas version r
  serving-joined key replicas version r consistent entered =
      serving_is after.effective w.unique exclusive_after r
        (joined (serving m.effective) key replicas version r)
        (λ place target. elim (Bool-cases (elem r replicas)) [
          | inl mem ↦ (
            replicas,
            ground
                (arith, target, mem, entered, get-put m.effective key place.0 (replicas, version)),
            mem,
          )
          | inr other ↦
              let (found, at, mem) =
                serving-get m.effective r place v.unique (ground (arith, target, other)) in
              (
                found,
                ground (
                  arith,
                  at,
                  mem,
                  other,
                  consistent,
                  entered,
                  get-put m.effective key place.0 (replicas, version),
                ),
                mem,
              )
        ])
        (λ k target. elim (Bool-cases (elem r replicas)) [
          | inl mem ↦ ground (arith, target, mem)
          | inr other ↦ ground (
            arith,
            other,
            entered,
            get-put m.effective key k (replicas, version),
            serving-none m.effective r k (ground (arith, target, other)),
          )
        ])

-- no runtime leaves a replica that has no entry
pub left_absent :
    (d : Dict ReplicaKey (List Replica × ℕ)) (key : ReplicaKey) (r : Replica)
    → Unique d
    → Dict.get d key ≡ none
    → serving d r ≡ left (serving d) key r
left_absent d key r u absent = elim (Option-cases (serving d r)) [
  | inl idle ↦ ground (arith, idle)
  | inr (place, served) ↦
      let (replicas, at, mem) = serving-get d r place u served in ground (arith, served, at, absent)
]
