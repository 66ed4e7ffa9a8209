-- ===== src/CheckpointEngine/Manifest/Comparison.antt =====
-- The comparison of two manifests (checkpoint_engine_manager.py).
use mathlib.Core.Logic.{◌↔◌}
use text.Mathlib.TextEquality.{path_by_compare}
use verl_multi_task.Common.{
  ℕ, suc, ◌+◌, ◌≤◌, ◌<◌, String, ◌≡◌, refl, sym, ap, ◌∙◌, inl, inr, true, false, Option, none, some,
  List, [], ◌∷◌, ◌==◌, if◌then◌else◌, is_some, elem, distinct, length, eq_of_==, nat_key,
  string_key, option_key, list_key, arith, Bool-cases, Option-cases,
}
use verl_multi_task.Common.Dict
use verl_multi_task.Common.Dict.{Dict, get-put}
use verl_multi_task.CheckpointEngine.Manifest.{
  Entry, entry_key, Manifest, shape_key, by_name, insert_name, sorted_names, differences, mismatch,
  collect, manifest_mismatches,
}

-- the entries under a name: `none`, or the last one
pub named : List Entry → String → Option Entry
named [] name = none
named (entry ∷ entries) name = elim (named entries name) [
  | some later ↦ some later
  | none ↦ if entry.name == name then some entry else none
]

get-by_name :
    (entries : List Entry) (table : Dict String Entry) (name : String)
    → Dict.get (by_name table entries) name
      ≡ (elim (named entries name) [ some e ↦ some e | none ↦ Dict.get table name ])
unfolding by_name named
get-by_name [] table name = refl
get-by_name (entry ∷ entries) table name = ground (
  arith,
  get-by_name entries (Dict.put table entry.name entry) name,
  get-put table entry.name name entry,
)

differences-nil :
    (e f : Entry)
    → differences e f ≡ []
    → (e.shape ≡ f.shape) × (e.dtype ≡ f.dtype) × (e.numel ≡ f.numel) × (e.sha256 ≡ f.sha256)
unfolding differences
differences-nil e f same = ground arith

differences_refl : (e : Entry) → differences e e ≡ []
unfolding differences
differences_refl e = ground arith

elem-insert_name :
    (name other : String) (names : List String)
    → elem name (insert_name other names) ≡ (if other == name then true else elem name names)
unfolding insert_name
elem-insert_name name other [] = refl
elem-insert_name name other (x ∷ names) =
    ground (arith, elem-insert_name name other names, path_by_compare other x)

named-name :
    (entries : List Entry) (name : String) (e : Entry) → named entries name ≡ some e → e.name ≡ name
unfolding named
named-name [] name e found = cc
named-name (entry ∷ entries) name e found = ground (arith, named-name entries name e)

elem-names :
    (name : String) (entries others : List Entry)
    → elem name (sorted_names entries others)
      ≡ (if is_some (named entries name) then true else is_some (named others name))
unfolding sorted_names named
elem-names name [] [] = refl
elem-names name [] (entry ∷ others) =
    ground
      (arith, elem-insert_name name entry.name (sorted_names [] others), elem-names name [] others)
elem-names name (entry ∷ entries) others = ground (
  arith,
  elem-insert_name name entry.name (sorted_names entries others),
  elem-names name entries others,
)

-- a name that both manifests give the same entry has no mismatch, and the other way round
mismatch-none :
    (name : String) (source received : Option Entry)
    → ((e : Entry) → source ≡ some e → e.name ≡ name)
    → ((e : Entry) → received ≡ some e → e.name ≡ name)
    → mismatch name source received ≡ none
    → source ≡ received
unfolding mismatch
mismatch-none name none received at_source at_received same = cc
mismatch-none name (some e) none at_source at_received same = cc
mismatch-none name (some e) (some f) at_source at_received same =
    ap some (ground (arith, differences-nil e f, at_source e refl, at_received f refl))

mismatch-same : (name : String) (e : Entry) → mismatch name (some e) (some e) ≡ none
unfolding mismatch
mismatch-same name e = ground (arith, differences_refl e)

collect-nil :
    (names : List String) (expected actual : Dict String Entry) (k : ℕ) (name : String)
    → collect names expected actual (suc k) 0 ≡ []
    → elem name names ≡ true
    → mismatch name (Dict.get expected name) (Dict.get actual name) ≡ none
unfolding collect
collect-nil [] expected actual k name none_found mem = cc
collect-nil (n ∷ names) expected actual k name none_found mem =
    ground (arith, collect-nil names expected actual k name, eq_of_== n name)

nil-collect :
    (names : List String) (expected actual : Dict String Entry) (k : ℕ)
    → ((name : String)
        → elem name names ≡ true
        → mismatch name (Dict.get expected name) (Dict.get actual name) ≡ none)
    → collect names expected actual (suc k) 0 ≡ []
unfolding collect
nil-collect [] expected actual k same = refl
nil-collect (n ∷ names) expected actual k same = ground (
  arith,
  nil-collect names expected actual k (λ name mem. same name (ground arith)),
  same n (ground arith),
)

abbrev pub names : List Entry → List String
names [] = []
names (entry ∷ entries) = entry.name ∷ names entries

named-missing :
    (entries : List Entry) (name : String)
    → elem name (names entries) ≡ false
    → named entries name ≡ none
unfolding named
named-missing [] name missing = refl
named-missing (entry ∷ entries) name missing = ground (arith, named-missing entries name)

named-elem :
    (entries : List Entry) (name : String) (e : Entry)
    → named entries name ≡ some e
    → elem e entries ≡ true
unfolding named
named-elem [] name e found = cc
named-elem (entry ∷ entries) name e found = ground (arith, named-elem entries name e)

-- entries with distinct names are found by their names
elem-named :
    (entries : List Entry) (e : Entry)
    → distinct (names entries) ≡ true
    → elem e entries ≡ true
    → named entries e.name ≡ some e
unfolding named
elem-named [] e unique mem = cc
elem-named (entry ∷ entries) e unique mem =
    ground (arith, elem-named entries e, named-missing entries entry.name)

get-by_name_new :
    (entries : List Entry) (name : String) → Dict.get (by_name [] entries) name ≡ named entries name
get-by_name_new entries name = unfold Dict.get in ground (arith, get-by_name entries [] name)

same_names :
    (expected actual : Manifest) (k : ℕ) (name : String)
    → manifest_mismatches expected actual (suc k) ≡ []
    → named expected.parameters name ≡ named actual.parameters name
unfolding manifest_mismatches
same_names expected actual k name matching =
    elim (Bool-cases (elem name (sorted_names expected.parameters actual.parameters))) [
      | inl mem ↦
          mismatch-none name _ _ (named-name expected.parameters name)
            (named-name actual.parameters name)
            (ground (
              arith,
              collect-nil _ (by_name [] expected.parameters) (by_name [] actual.parameters) k name
                  matching mem,
              get-by_name_new expected.parameters name,
              get-by_name_new actual.parameters name,
            ))
      | inr absent ↦ ground (arith, elem-names name expected.parameters actual.parameters)
    ]

names_same :
    (expected actual : Manifest) (k : ℕ)
    → ((name : String) → named expected.parameters name ≡ named actual.parameters name)
    → manifest_mismatches expected actual (suc k) ≡ []
unfolding manifest_mismatches
names_same expected actual k same = nil-collect _ _ _ k (λ name mem.
    elim (Option-cases (named actual.parameters name)) [
      | inl missing ↦
          ground (arith, elem-names name expected.parameters actual.parameters, same name)
      | inr (e, found) ↦ ground (
        arith,
        same name,
        mismatch-same name e,
        get-by_name_new expected.parameters name,
        get-by_name_new actual.parameters name,
      )
    ])

named-moves :
    (entries others : List Entry) (name : String) (e : Entry)
    → distinct (names others) ≡ true
    → ((x : Entry) → elem x entries ≡ true → elem x others ≡ true)
    → named entries name ≡ some e
    → named others name ≡ some e
named-moves entries others name e unique included found = ground (
  arith,
  named-name entries name e found,
  elem-named others e unique (included e (named-elem entries name e found)),
)

same_named :
    (entries others : List Entry) (name : String)
    → distinct (names entries) ≡ true
    → distinct (names others) ≡ true
    → ((x : Entry) → elem x entries ≡ elem x others)
    → named entries name ≡ named others name
same_named entries others name unique unique_others same =
    elim (Option-cases (named entries name)) [
      | inr (e, found) ↦
          found
          ∙ sym
              (named-moves entries others name e unique_others (λ x mem. sym (same x) ∙ mem) found)
      | inl missing ↦ elim (Option-cases (named others name)) [
        | inl also ↦ missing ∙ sym also
        | inr (e, found) ↦
            named-moves others entries name e unique (λ x mem. same x ∙ mem) found ∙ sym found
      ]
    ]

-- Two audited manifests (their names are distinct) have no mismatch exactly when they have the same
-- entries, in whatever order, as long as the limit on the report is not zero.
pub manifest_mismatches-nil :
    (expected actual : Manifest) (k : ℕ)
    → distinct (names expected.parameters) ≡ true
    → distinct (names actual.parameters) ≡ true
    → (manifest_mismatches expected actual (suc k) ≡ [])
      ↔ ((e : Entry) → elem e expected.parameters ≡ elem e actual.parameters)
manifest_mismatches-nil expected actual k at_expected at_actual = (
  λ matching e. ground (
    arith,
    same_names expected actual k e.name matching,
    elem-named expected.parameters e,
    elem-named actual.parameters e,
    named-elem expected.parameters e.name e,
    named-elem actual.parameters e.name e,
  ),
  λ same.
      names_same expected actual k
        (λ name. same_named expected.parameters actual.parameters name at_expected at_actual same),
)

-- A report has at most as many mismatches as its limit allows, the first one always included.
collect-bound :
    (names : List String) (expected actual : Dict String Entry) (limit found : ℕ)
    → found < limit
    → length (collect names expected actual limit found) + found ≤ limit
unfolding collect
collect-bound [] expected actual limit found room = omega arith
collect-bound (n ∷ names) expected actual limit found room = ground (
  arith,
  collect-bound names expected actual limit found,
  collect-bound names expected actual limit (suc found),
)

pub length-manifest_mismatches :
    (expected actual : Manifest) (k : ℕ)
    → length (manifest_mismatches expected actual (suc k)) ≤ suc k
unfolding manifest_mismatches
length-manifest_mismatches expected actual k = omega (
  arith,
  collect-bound (sorted_names expected.parameters actual.parameters)
      (by_name [] expected.parameters) (by_name [] actual.parameters) (suc k) 0 (omega arith),
)
