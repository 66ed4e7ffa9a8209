-- ===== src/CheckpointEngine/Manifest.antt =====
-- Parameter manifests: their audit, and the comparison of two of them (checkpoint_engine_manager.py).
-- A raw manifest is what a worker answered: `none` stands for a value of another type than the field
-- has. `validate_manifest` returns the manifest that the later functions read.
pub mod Comparison
pub mod Audit
use Prim.Native.Nat.{Ordering}
use Prim.Native.String.{compare}
use verl_multi_task.Common.{
  ℕ, suc, ◌+◌, ◌*◌, String, Bool, true, false, Option, none, some, List, [], ◌∷◌, ◌++◌, Key, ◌==◌,
  ℤ, pos, if◌then◌else◌, nonempty, is_nil, elem, length, leb, Result, ok, err, ◌>>=◌, ◌>>◌, require,
  nat_key, int_key, string_key, option_key, list_key, String-discrete, List-discrete, ℕ_discrete,
}
use verl_multi_task.Common.Dict
use verl_multi_task.Common.Dict.{Dict}

pub data Shape {ℓ} (A : Type ℓ) : Type ℓ where
  list_shape : (sizes : List A) → Shape A
  tuple_shape : (sizes : List A) → Shape A

pub record RawEntry : Type 0 where
  pub name : Option String
  pub dtype : Option String
  pub sha256 : Option String
  pub shape : Option (Shape (Option ℤ))
  pub numel : Option ℤ

pub record RawManifest : Type 0 where
  pub complete : Bool
  pub parameters : Option (List (Option RawEntry))
  pub parameter_count : Option ℤ
  pub total_numel : Option ℤ
  pub global_steps : Option ℕ

pub record Entry : Type 0 where
  pub name : String
  pub dtype : String
  pub sha256 : String
  pub shape : Shape ℕ
  pub numel : ℕ

pub record Manifest : Type 0 where
  pub parameters : List Entry
  pub parameter_count : ℕ
  pub total_numel : ℕ
  pub global_steps : Option ℕ

unfoldable pub Shape-discrete : Discrete (Shape ℕ)
unfolding ℕ_discrete List-discrete
Shape-discrete = hlevel ℕ_discrete

unfoldable pub Entry-discrete : Discrete Entry
unfolding ℕ_discrete Shape-discrete String-discrete
Entry-discrete = hlevel (ℕ_discrete, Shape-discrete, String-discrete)

instance abbrev pub shape_key : Key (Shape ℕ)
shape_key = record { decide_eq = Shape-discrete }

instance abbrev pub entry_key : Key Entry
entry_key = record { decide_eq = Entry-discrete }

pub data ManifestError : Type 0 where
  incomplete no_parameters not_a_mapping bad_name bad_field bad_size size_mismatch : ManifestError
  bad_counts no_worker uncovered_worker wrong_version wrong_source_version : ManifestError
  differs_from_source digests_differ remote_failure : ManifestError

abbrev pub as_size : Option ℤ → Result ManifestError ℕ
as_size (some (pos size)) = ok size
as_size _ = err bad_size

unfoldable pub as_sizes : List (Option ℤ) → Result ManifestError (List ℕ)
as_sizes [] = ok []
as_sizes (raw ∷ rest) = do size ← as_size raw; sizes ← as_sizes rest; ok (size ∷ sizes)

unfoldable pub as_shape : Option (Shape (Option ℤ)) → Result ManifestError (Shape ℕ)
unfolding as_sizes
as_shape none = err bad_size
as_shape (some (list_shape raw)) = do sizes ← as_sizes raw; ok (list_shape sizes)
as_shape (some (tuple_shape raw)) = do sizes ← as_sizes raw; ok (tuple_shape sizes)

abbrev pub sizes : Shape ℕ → List ℕ
sizes (list_shape s) = s
sizes (tuple_shape s) = s

abbrev pub product : List ℕ → ℕ
product [] = 1
product (n ∷ ns) = n * product ns

abbrev pub as_text : Option String → ManifestError → Result ManifestError String
as_text none problem = err problem
as_text (some text) problem = if nonempty text then ok text else err problem

-- the body of the loop over the entries
unfoldable pub validate_entry : Option RawEntry → List String → Result ManifestError Entry
unfolding as_shape
validate_entry none names = err not_a_mapping
validate_entry (some raw) names = do
  name ← as_text raw.name bad_name
  require (if elem name names then false else true) bad_name
  dtype ← as_text raw.dtype bad_field
  sha256 ← as_text raw.sha256 bad_field
  shape ← as_shape raw.shape
  numel ← as_size raw.numel
  require (numel == product (sizes shape)) size_mismatch
  ok (record { name = name; dtype = dtype; sha256 = sha256; shape = shape; numel = numel })

-- the loop: the entries, behind the names that were read before
unfoldable pub validate_entries :
    List (Option RawEntry) → List String → Result ManifestError (List Entry)
unfolding validate_entry
validate_entries [] names = ok []
validate_entries (raw ∷ rest) names = do
  entry ← validate_entry raw names
  entries ← validate_entries rest (entry.name ∷ names)
  ok (entry ∷ entries)

abbrev pub sum_numel : List Entry → ℕ
sum_numel [] = 0
sum_numel (entry ∷ entries) = entry.numel + sum_numel entries

unfoldable pub validate_manifest : Option RawManifest → Result ManifestError Manifest
unfolding validate_entries
validate_manifest none = err incomplete
validate_manifest (some raw) =
    if raw.complete
    then (elim raw.parameters [
      | none ↦ err no_parameters
      | some rows ↦ do
        require (if is_nil rows then false else true) no_parameters
        entries ← validate_entries rows []
        require (raw.parameter_count == some (pos (length entries))) bad_counts
        require (raw.total_numel == some (pos (sum_numel entries))) bad_counts
        ok (record {
          parameters = entries;
          parameter_count = length entries;
          total_numel = sum_numel entries;
          global_steps = raw.global_steps;
        })
    ])
    else err incomplete

-- `{item["name"]: item for item in entries}`, on top of what was inserted before
unfoldable pub by_name : Dict String Entry → List Entry → Dict String Entry
by_name table [] = table
by_name table (entry ∷ entries) = by_name (Dict.put table entry.name entry) entries

-- insertion into a sorted list of names without duplicates
unfoldable pub insert_name : String → List String → List String
insert_name name [] = name ∷ []
insert_name name (other ∷ others) =
    let rest = insert_name name others in
    elim (compare name other) [
      | Ordering.lt ↦ name ∷ other ∷ others
      | Ordering.eq ↦ other ∷ others
      | Ordering.gt ↦ other ∷ rest
    ]

-- `sorted(set(names))` for the names of the entries of two manifests
unfoldable pub sorted_names : List Entry → List Entry → List String
unfolding insert_name
sorted_names [] [] = []
sorted_names [] (entry ∷ entries) = insert_name entry.name (sorted_names [] entries)
sorted_names (entry ∷ entries) others = insert_name entry.name (sorted_names entries others)

pub data Field : Type 0 where
  shape_field dtype_field numel_field sha256_field : Field

pub data Mismatch : Type 0 where
  one_sided : (name : String) (source received : Option Entry) → Mismatch
  differing : (name : String) (differences : List Field) → Mismatch

abbrev pub unless_equal : Bool → Field → List Field → List Field
unless_equal true field rest = rest
unless_equal false field rest = field ∷ rest

unfoldable pub differences : Entry → Entry → List Field
differences source received = unless_equal (source.shape == received.shape) shape_field (
    unless_equal (source.dtype == received.dtype) dtype_field (
      unless_equal (source.numel == received.numel) numel_field
        (unless_equal (source.sha256 == received.sha256) sha256_field [])))

-- the mismatch under one name, if there is one
unfoldable pub mismatch : String → Option Entry → Option Entry → Option Mismatch
unfolding differences
mismatch name (some source) (some received) = elim (differences source received) [
  | [] ↦ none
  | field ∷ fields ↦ some (differing name (field ∷ fields))
]
mismatch name source received = some (one_sided name source received)

-- the loop over the names, with the number of mismatches found before
unfoldable pub collect : List String → Dict String Entry → Dict String Entry → ℕ → ℕ → List Mismatch
unfolding mismatch
collect [] expected actual limit found = []
collect (name ∷ names) expected actual limit found =
    let same = collect names expected actual limit found in
    let more = collect names expected actual limit (suc found) in
    elim (mismatch name (Dict.get expected name) (Dict.get actual name)) [
      | none ↦ if leb limit found then [] else same
      | some problem ↦ problem ∷ (if leb limit (suc found) then [] else more)
    ]

unfoldable pub manifest_mismatches : Manifest → Manifest → ℕ → List Mismatch
unfolding by_name sorted_names collect
manifest_mismatches expected actual limit =
    collect (sorted_names expected.parameters actual.parameters) (by_name [] expected.parameters)
      (by_name [] actual.parameters) limit 0
