-- ===== src/Common/Keys.antt =====
-- Python's `==` on the values that serve as keys or are compared, as a decided equality.
use Prim.Native.Nat.{ℕ, suc, compare, Ordering}
use Prim.Native.String.{String}
use mathlib.Core.Path.{◌≡◌, refl}
use mathlib.Core.Logic.{◌⊎◌, inl, inr}
use mathlib.Core.Bool.{Bool, true, false}
use mathlib.Core.Option.{Option, none, some}
use mathlib.Core.List.{List, [], ◌∷◌}
use native.Mathlib.Decide.{ℕ_discrete}
use native.Mathlib.Omega.{arith}
use text.Mathlib.Text.{◌==◌ as str_eq}
use text.Mathlib.TextEquality.{eq_iff}

infix 1 if◌then◌else◌
abbrev pub if◌then◌else◌ {ℓ} : {A : Type ℓ} → Bool → A → A → A
if true then x else y = x
if false then x else y = y

unfoldable pub Bool-cases : (b : Bool) → (b ≡ true) ⊎ (b ≡ false)
Bool-cases true = inl refl
Bool-cases false = inr refl

abbrev pub leb : ℕ → ℕ → Bool
leb a b = elim (compare a b) [ Ordering.gt ↦ false | _ ↦ true ]

abbrev pub ltb : ℕ → ℕ → Bool
ltb a b = elim (compare a b) [ Ordering.lt ↦ true | _ ↦ false ]

unfoldable pub String-discrete : Discrete String
unfolding Bool-cases
String-discrete s t = elim (Bool-cases (str_eq s t)) [
  | inl same ↦ yes ((eq_iff s t).0 same)
  | inr other ↦ no (λ e. grind (arith, eq_iff s t))
]

pub record Key {ℓ} (A : Type ℓ) : Type ℓ where
  pub decide_eq : Discrete A

infix 50 ◌==◌
abbrev pub ◌==◌ {ℓ} : {A : Type ℓ} ⦃k : Key A⦄ → A → A → Bool
◌==◌ ⦃k⦄ a b = elim (k.decide_eq a b) [ yes _ ↦ true | no _ ↦ false ]

instance abbrev pub nat_key : Key ℕ
nat_key = record { decide_eq = ℕ_discrete }

instance abbrev pub string_key : Key String
string_key = record { decide_eq = String-discrete }

unfoldable pub Pair-discrete : {A B : Type 0} → Discrete A → Discrete B → Discrete (A × B)
Pair-discrete da db = hlevel (da, db)

instance abbrev pub pair_key : {A B : Type 0} ⦃a : Key A⦄ ⦃b : Key B⦄ → Key (A × B)
pair_key ⦃a⦄ ⦃b⦄ = record { decide_eq = Pair-discrete a.decide_eq b.decide_eq }

unfoldable pub Option-discrete : {A : Type 0} → Discrete A → Discrete (Option A)
Option-discrete da = hlevel da

unfoldable pub List-discrete : {A : Type 0} → Discrete A → Discrete (List A)
List-discrete da = hlevel da

module _ {A : Type 0} ⦃k : Key A⦄ where
  pub ==-refl : (a : A) → (a == a) ≡ true
  ==-refl a = ground arith

  pub eq_of_== : (a b : A) → (a == b) ≡ true → a ≡ b
  eq_of_== a b h = ground arith

  pub ==-ne : (a b : A) → ¬ (a ≡ b) → (a == b) ≡ false
  ==-ne a b h = ground arith

  abbrev pub elem : A → List A → Bool
  elem a [] = false
  elem a (x ∷ xs) = if x == a then true else elem a xs

  -- `len(set(xs)) == len(xs)`
  abbrev pub distinct : List A → Bool
  distinct [] = true
  distinct (x ∷ xs) = if elem x xs then false else distinct xs

  -- every member of the first list is in the second
  abbrev pub subset : List A → List A → Bool
  subset [] ys = true
  subset (x ∷ xs) ys = if elem x ys then subset xs ys else false

  -- `set(xs) == set(ys)`
  abbrev pub same_set : List A → List A → Bool
  same_set xs ys = if subset xs ys then subset ys xs else false

pub data ℤ : Type 0 where
  pos : ℕ → ℤ
  negsuc : ℕ → ℤ

unfoldable pub Bool-discrete : Discrete Bool
Bool-discrete = hlevel

instance abbrev pub bool_key : Key Bool
bool_key = record { decide_eq = Bool-discrete }

instance abbrev pub option_key : {A : Type 0} ⦃a : Key A⦄ → Key (Option A)
option_key ⦃a⦄ = record { decide_eq = Option-discrete a.decide_eq }

instance abbrev pub list_key : {A : Type 0} ⦃a : Key A⦄ → Key (List A)
list_key ⦃a⦄ = record { decide_eq = List-discrete a.decide_eq }

abbrev pub nonempty : String → Bool
nonempty s = if s == "" then false else true

abbrev pub is_some {ℓ} : {A : Type ℓ} → Option A → Bool
is_some none = false
is_some (some a) = true

abbrev pub is_nil {ℓ} : {A : Type ℓ} → List A → Bool
is_nil [] = true
is_nil (x ∷ xs) = false

pub Option-cases {ℓ} : {A : Type ℓ} (o : Option A) → (o ≡ none) ⊎ ((a : A) × (o ≡ some a))
Option-cases none = inl refl
Option-cases (some a) = inr (a, refl)

module _ {ℓ} {A : Type ℓ} where
  abbrev pub length : List A → ℕ
  length [] = 0
  length (x ∷ xs) = suc (length xs)

unfoldable pub ℤ-discrete : Discrete ℤ
unfolding ℕ_discrete
ℤ-discrete = hlevel ℕ_discrete

instance abbrev pub int_key : Key ℤ
int_key = record { decide_eq = ℤ-discrete }
