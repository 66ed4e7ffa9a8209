-- ===== src/Common/Dict.antt =====
-- Python's `dict`: entries in the order in which their keys were first inserted.
pub mod Counting
use mathlib.Core.Path.{◌≡◌, refl}
use mathlib.Core.Bool.{Bool, true, false}
use mathlib.Core.Logic.{inl, inr}
use mathlib.Core.Option.{Option, none, some}
use mathlib.Core.List.{List, [], ◌∷◌}
use native.Mathlib.Omega.{arith}
use verl_multi_task.Common.Keys.{Key, ◌==◌, if◌then◌else◌, elem, is_some, Bool-cases, option_key}

abbrev pub Dict : Type 0 → Type 0 → Type 0
Dict K V = List (K × V)

module _ {K V : Type 0} ⦃key : Key K⦄ where
  -- d.get(k)
  unfoldable pub get : Dict K V → K → Option V
  get [] k = none
  get ((j, v) ∷ d) k = if j == k then some v else get d k

  -- d[k] = v
  unfoldable pub put : Dict K V → K → V → Dict K V
  put [] k v = (k, v) ∷ []
  put ((j, w) ∷ d) k v = if j == k then (j, v) ∷ d else (j, w) ∷ put d k v

  -- d.pop(k, None)
  unfoldable pub remove : Dict K V → K → Dict K V
  remove [] k = []
  remove ((j, w) ∷ d) k = let rest = remove d k in if j == k then rest else (j, w) ∷ rest

  pub get-put :
      (entries : Dict K V) (new k : K) (v : V)
      → get (put entries new v) k ≡ (if new == k then some v else get entries k)
  unfolding get put
  get-put [] new k v = ground arith
  get-put ((i, w) ∷ entries) new k v = ground (arith, get-put entries new k v)

  pub get-remove :
      (entries : Dict K V) (gone k : K)
      → get (remove entries gone) k ≡ (if gone == k then none else get entries k)
  unfolding get remove
  get-remove [] gone k = ground arith
  get-remove ((i, w) ∷ entries) gone k = ground (arith, get-remove entries gone k)

  pub get-put_ne : (d : Dict K V) (k j : K) (v : V) → ¬ (k ≡ j) → get (put d k v) j ≡ get d j
  get-put_ne d k j v other = ground (arith, get-put d k j v)

  pub get-remove_ne : (d : Dict K V) (k j : K) → ¬ (k ≡ j) → get (remove d k) j ≡ get d j
  get-remove_ne d k j other = ground (arith, get-remove d k j)

  -- for k in ks: d[k] = v
  unfoldable pub put_all : Dict K V → List K → V → Dict K V
  put_all d [] v = d
  put_all d (k ∷ ks) v = put_all (put d k v) ks v

  -- for k in ks: d.pop(k, None)
  unfoldable pub remove_all : Dict K V → List K → Dict K V
  remove_all d [] = d
  remove_all d (k ∷ ks) = remove_all (remove d k) ks

  pub get-put_all :
      (d : Dict K V) (ks : List K) (v : V) (j : K)
      → get (put_all d ks v) j ≡ (if elem j ks then some v else get d j)
  unfolding put_all
  get-put_all d [] v j = refl
  get-put_all d (k ∷ ks) v j = ground (arith, get-put_all (put d k v) ks v j, get-put d k j v)

  pub get-remove_all :
      (d : Dict K V) (ks : List K) (j : K)
      → get (remove_all d ks) j ≡ (if elem j ks then none else get d j)
  unfolding remove_all
  get-remove_all d [] j = refl
  get-remove_all d (k ∷ ks) j = ground (arith, get-remove_all (remove d k) ks j, get-remove d k j)

-- A set is a dict without values: `s.add(k)` is `put s k tt`, `s.discard(k)` is `remove s k`.
abbrev pub Members : Type 0 → Type 0
Members K = Dict K (Unit {0})

-- Ownership ledgers: dicts from a claimed thing to the id of its owner.
module _ {K O : Type 0} ⦃key : Key K⦄ ⦃owner : Key O⦄ where
  -- for k in ks: if d.get(k) == o: d.pop(k, None)
  unfoldable pub release_owned : Dict K O → List K → O → Dict K O
  release_owned d [] o = d
  release_owned d (k ∷ ks) o = release_owned (if get d k == some o then remove d k else d) ks o

  -- no key of the list belongs to another owner
  unfoldable pub all_free_for : Dict K O → List K → O → Bool
  all_free_for d [] o = true
  all_free_for d (k ∷ ks) o =
      if (elim (get d k) [ none ↦ true | some p ↦ p == o ]) then all_free_for d ks o else false

  -- no key of the list belongs to anyone
  unfoldable pub all_unowned : Dict K O → List K → Bool
  all_unowned d [] = true
  all_unowned d (k ∷ ks) = if is_some (get d k) then false else all_unowned d ks

  -- every key of the list belongs to the owner
  unfoldable pub all_owned_by : Dict K O → List K → O → Bool
  all_owned_by d [] o = true
  all_owned_by d (k ∷ ks) o = if get d k == some o then all_owned_by d ks o else false

  pub get-release_owned :
      (d : Dict K O) (ks : List K) (o : O) (j : K)
      → get (release_owned d ks o) j
        ≡ (if elem j ks then (if get d j == some o then none else get d j) else get d j)
  unfolding release_owned
  get-release_owned d [] o j = refl
  get-release_owned d (k ∷ ks) o j = elim (Bool-cases (get d k == some o)) [
    | inl held ↦ rw held (ground (arith, get-release_owned (remove d k) ks o j, get-remove d k j))
    | inr other ↦ rw other (ground (arith, get-release_owned d ks o j))
  ]

  pub all_free_for-elem :
      (d : Dict K O) (ks : List K) (o : O) (j : K) (p : O)
      → all_free_for d ks o ≡ true
      → elem j ks ≡ true
      → get d j ≡ some p
      → p ≡ o
  unfolding all_free_for
  all_free_for-elem d [] o j p free mem held = cc
  all_free_for-elem d (k ∷ ks) o j p free mem held = ground (arith, all_free_for-elem d ks o j p)

  pub all_unowned-elem :
      (d : Dict K O) (ks : List K) (j : K)
      → all_unowned d ks ≡ true
      → elem j ks ≡ true
      → get d j ≡ none
  unfolding all_unowned
  all_unowned-elem d [] j free mem = cc
  all_unowned-elem d (k ∷ ks) j free mem = ground (arith, all_unowned-elem d ks j)

  pub all_owned_by-elem :
      (d : Dict K O) (ks : List K) (o : O) (j : K)
      → all_owned_by d ks o ≡ true
      → elem j ks ≡ true
      → get d j ≡ some o
  unfolding all_owned_by
  all_owned_by-elem d [] o j owned mem = cc
  all_owned_by-elem d (k ∷ ks) o j owned mem = ground (arith, all_owned_by-elem d ks o j)
