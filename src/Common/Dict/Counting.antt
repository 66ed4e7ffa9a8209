-- ===== src/Common/Dict/Counting.antt =====
-- Dicts with distinct keys, and how many of their values pass a test.
use verl_multi_task.Common.Keys.{Key, if◌then◌else◌}
use Prim.Native.Nat.{ℕ, suc, ◌+◌}
use mathlib.Core.Path.{◌≡◌, refl}
use mathlib.Core.Bool.{Bool}
use mathlib.Core.Option.{Option, none, some}
use mathlib.Core.List.{List, [], ◌∷◌}
use native.Mathlib.Omega.{arith}
use verl_multi_task.Common.Dict.{Dict, get, put, remove, remove_all, get-put, get-remove}

-- 1 if the value is there and passes the test, or else 0
abbrev pub one : {V : Type 0} → (V → Bool) → Option V → ℕ
one test none = 0
one test (some v) = if test v then 1 else 0

module _ {K V : Type 0} ⦃key : Key K⦄ where
  -- no key stands twice
  abbrev pub Unique : Dict K V → Type 0
  Unique [] = Unit {0}
  Unique ((k, v) ∷ d) = (get d k ≡ none) × Unique d

  pub put-Unique : (d : Dict K V) (k : K) (v : V) → Unique d → Unique (put d k v)
  unfolding put
  put-Unique [] k v u = (unfold get in refl, tt)
  put-Unique ((j, w) ∷ d) k v u = ground (arith, put-Unique d k v u.1, get-put d k j v)

  remove_missing : (d : Dict K V) (k : K) → get d k ≡ none → remove d k ≡ d
  unfolding remove get
  remove_missing [] k h = refl
  remove_missing ((j, w) ∷ d) k h = ground (arith, remove_missing d k)

  pub remove-Unique : (d : Dict K V) (k : K) → Unique d → Unique (remove d k)
  unfolding remove
  remove-Unique [] k u = tt
  remove-Unique ((j, w) ∷ d) k u = ground (arith, remove-Unique d k u.1, get-remove d k j)

  pub remove_all-Unique : (d : Dict K V) (ks : List K) → Unique d → Unique (remove_all d ks)
  unfolding remove_all
  remove_all-Unique d [] u = u
  remove_all-Unique d (k ∷ ks) u = remove_all-Unique (remove d k) ks (remove-Unique d k u)

  module _ (test : V → Bool) where
    unfoldable pub count : Dict K V → ℕ
    count [] = 0
    count ((k, v) ∷ d) = if test v then suc (count d) else count d

    pub count-put :
        (d : Dict K V) (k : K) (v : V)
        → count (put d k v) + one test (get d k) ≡ count d + one test (some v)
    unfolding count put get
    count-put [] k v = ground arith
    count-put ((j, w) ∷ d) k v = ground (arith, count-put d k v)

    pub count-remove :
        (d : Dict K V) (k : K) → Unique d → count (remove d k) + one test (get d k) ≡ count d
    unfolding count remove get
    count-remove [] k u = ground arith
    count-remove ((j, w) ∷ d) k u = ground (arith, count-remove d k u.1, remove_missing d k)
