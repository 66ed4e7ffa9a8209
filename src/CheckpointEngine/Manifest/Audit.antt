-- ===== src/CheckpointEngine/Manifest/Audit.antt =====
-- What the audit of a manifest accepts (checkpoint_engine_manager.py).
use verl_multi_task.Common.{
  ℕ, String, ◌≡◌, refl, sym, ap, ◌∙◌, subst, inl, inr, Bool, true, false, Option, none, some, List,
  [], ◌∷◌, ℤ, pos, negsuc, if◌then◌else◌, nonempty, is_nil, elem, distinct, length, ok,
  Result-cases, nat_key, int_key, string_key, option_key, list_key, arith, Bool-cases, Option-cases,
}
use mathlib.Core.Logic.{◌↔◌}
use verl_multi_task.CheckpointEngine.Manifest.{
  Shape, list_shape, tuple_shape, RawEntry, RawManifest, Entry, Manifest, ManifestError, bad_name,
  bad_field, as_sizes, as_shape, as_size, as_text, sizes, product, validate_entry, validate_entries,
  sum_numel, validate_manifest,
}
use verl_multi_task.CheckpointEngine.Manifest.Comparison.{names}

-- the manifest as a worker writes it
abbrev raw_sizes : List ℕ → List (Option ℤ)
raw_sizes [] = []
raw_sizes (n ∷ ns) = some (pos n) ∷ raw_sizes ns

abbrev raw_shape : Shape ℕ → Shape (Option ℤ)
raw_shape (list_shape s) = list_shape (raw_sizes s)
raw_shape (tuple_shape s) = tuple_shape (raw_sizes s)

abbrev raw_entry : Entry → RawEntry
raw_entry e = record {
  name = some e.name;
  dtype = some e.dtype;
  sha256 = some e.sha256;
  shape = some (raw_shape e.shape);
  numel = some (pos e.numel);
}

abbrev raw_entries : List Entry → List (Option RawEntry)
raw_entries [] = []
raw_entries (e ∷ es) = some (raw_entry e) ∷ raw_entries es

abbrev pub raw_manifest : Manifest → RawManifest
raw_manifest m = record {
  complete = true;
  parameters = some (raw_entries m.parameters);
  parameter_count = some (pos m.parameter_count);
  total_numel = some (pos m.total_numel);
  global_steps = m.global_steps;
}

pub record IsEntry (e : Entry) : Type 0 where
  pub named : nonempty e.name ≡ true
  pub typed : nonempty e.dtype ≡ true
  pub hashed : nonempty e.sha256 ≡ true
  pub sized : e.numel ≡ product (sizes e.shape)

abbrev pub AreEntries : List Entry → Type 0
AreEntries [] = Unit {0}
AreEntries (e ∷ es) = IsEntry e × AreEntries es

-- what the audit is for: entries that are complete, under distinct names, with the right totals
pub record IsManifest (m : Manifest) : Type 0 where
  pub entries : AreEntries m.parameters
  pub unique : distinct (names m.parameters) ≡ true
  pub some_entry : is_nil m.parameters ≡ false
  pub counted : m.parameter_count ≡ length m.parameters
  pub summed : m.total_numel ≡ sum_numel m.parameters

as_sizes-raw : (s : List ℕ) → as_sizes (raw_sizes s) ≡ ok s
unfolding as_sizes
as_sizes-raw [] = refl
as_sizes-raw (n ∷ s) = ground (arith, as_sizes-raw s)

as_sizes-eq-ok : (raw : List (Option ℤ)) (s : List ℕ) → as_sizes raw ≡ ok s → raw ≡ raw_sizes s
unfolding as_sizes
as_sizes-eq-ok [] s read = ground arith
as_sizes-eq-ok (some (pos n) ∷ raw) s read = elim (Result-cases (as_sizes raw)) [
  | inl (problem, failed) ↦ ground arith
  | inr (rest, returned) ↦ ground (arith, as_sizes-eq-ok raw rest)
]
as_sizes-eq-ok (some (negsuc n) ∷ raw) s read = cc
as_sizes-eq-ok (none ∷ raw) s read = cc

as_shape-raw : (s : Shape ℕ) → as_shape (some (raw_shape s)) ≡ ok s
unfolding as_shape
as_shape-raw (list_shape s) = ground (arith, as_sizes-raw s)
as_shape-raw (tuple_shape s) = ground (arith, as_sizes-raw s)

as_shape-eq-ok :
    (raw : Option (Shape (Option ℤ))) (s : Shape ℕ) → as_shape raw ≡ ok s → raw ≡ some (raw_shape s)
unfolding as_shape
as_shape-eq-ok none s read = cc
as_shape-eq-ok (some (list_shape raw)) s read = elim (Result-cases (as_sizes raw)) [
  | inl (problem, failed) ↦ ground arith
  | inr (rest, returned) ↦ ground (arith, as_sizes-eq-ok raw rest)
]
as_shape-eq-ok (some (tuple_shape raw)) s read = elim (Result-cases (as_sizes raw)) [
  | inl (problem, failed) ↦ ground arith
  | inr (rest, returned) ↦ ground (arith, as_sizes-eq-ok raw rest)
]

validate_entry-raw :
    (e : Entry) (seen : List String)
    → IsEntry e
    → elem e.name seen ≡ false
    → validate_entry (some (raw_entry e)) seen ≡ ok e
unfolding validate_entry
validate_entry-raw e seen v fresh =
    ground (arith, as_shape-raw e.shape, v.named, v.typed, v.hashed, v.sized)

as_text-eq-ok :
    (raw : Option String) (problem : ManifestError) (text : String)
    → as_text raw problem ≡ ok text
    → (raw ≡ some text) × (nonempty text ≡ true)
as_text-eq-ok none problem text read = cc
as_text-eq-ok (some raw) problem text read = elim (Bool-cases (nonempty raw)) [
  | inl filled ↦ ground (arith, read, filled)
  | inr empty ↦ ground (arith, read, empty)
]

as_size-eq-ok : (raw : Option ℤ) (size : ℕ) → as_size raw ≡ ok size → raw ≡ some (pos size)
as_size-eq-ok none size read = cc
as_size-eq-ok (some (pos n)) size read = ground (arith, read)
as_size-eq-ok (some (negsuc n)) size read = cc

validate_entry-eq-ok :
    (raw : Option RawEntry) (seen : List String) (e : Entry)
    → validate_entry raw seen ≡ ok e
    → (raw ≡ some (raw_entry e)) × IsEntry e × (elem e.name seen ≡ false)
unfolding validate_entry
validate_entry-eq-ok none seen e read = cc
validate_entry-eq-ok (some raw) seen e read = elim (Result-cases (as_text raw.name bad_name)) [
  | inl (problem, failed) ↦ cc
  | inr (name, named) ↦ elim (Result-cases (as_text raw.dtype bad_field)) [
    | inl (problem, failed) ↦ ground (arith, read, named, failed)
    | inr (dtype, typed) ↦ elim (Result-cases (as_text raw.sha256 bad_field)) [
      | inl (problem, failed) ↦ ground (arith, read, named, typed, failed)
      | inr (sha256, hashed) ↦ elim (Result-cases (as_shape raw.shape)) [
        | inl (problem, failed) ↦ ground (arith, read, named, typed, hashed, failed)
        | inr (shape, shaped) ↦ elim (Result-cases (as_size raw.numel)) [
          | inl (problem, failed) ↦ ground (arith, read, named, typed, hashed, shaped, failed)
          | inr (numel, counted) ↦ ground (
            arith,
            read,
            as_text-eq-ok raw.name bad_name name named,
            as_text-eq-ok raw.dtype bad_field dtype typed,
            as_text-eq-ok raw.sha256 bad_field sha256 hashed,
            as_shape-eq-ok raw.shape shape shaped,
            as_size-eq-ok raw.numel numel counted,
          )
        ]
      ]
    ]
  ]
]

-- no name of the entries was seen, and none comes twice
fresh : List String → List Entry → Bool
fresh seen [] = true
fresh seen (e ∷ es) = if elem e.name seen then false else fresh (e.name ∷ seen) es

fresh-elem :
    (seen : List String) (es : List Entry) (name : String)
    → fresh seen es ≡ true
    → elem name seen ≡ true
    → elem name (names es) ≡ false
unfolding fresh
fresh-elem seen [] name new mem = refl
fresh-elem seen (e ∷ es) name new mem = ground (arith, fresh-elem (e.name ∷ seen) es name)

fresh-distinct :
    (seen : List String) (es : List Entry) → fresh seen es ≡ true → distinct (names es) ≡ true
unfolding fresh
fresh-distinct seen [] new = refl
fresh-distinct seen (e ∷ es) new =
    ground (arith, fresh-distinct (e.name ∷ seen) es, fresh-elem (e.name ∷ seen) es e.name)

distinct-fresh :
    (seen : List String) (es : List Entry)
    → distinct (names es) ≡ true
    → ((name : String) → elem name (names es) ≡ true → elem name seen ≡ false)
    → fresh seen es ≡ true
unfolding fresh
distinct-fresh seen [] unique apart = refl
distinct-fresh seen (e ∷ es) unique apart = ground (
  arith,
  apart e.name,
  distinct-fresh (e.name ∷ seen) es (ground arith) (λ name mem. ground (arith, apart name)),
)

validate_entries-raw :
    (es : List Entry) (seen : List String)
    → AreEntries es
    → fresh seen es ≡ true
    → validate_entries (raw_entries es) seen ≡ ok es
unfolding validate_entries fresh
validate_entries-raw [] seen v new = refl
validate_entries-raw (e ∷ es) seen v new =
    ground (arith, validate_entry-raw e seen v.0, validate_entries-raw es (e.name ∷ seen) v.1)

validate_entries-eq-ok :
    (rows : List (Option RawEntry)) (seen : List String) (es : List Entry)
    → validate_entries rows seen ≡ ok es
    → (rows ≡ raw_entries es) × AreEntries es × (fresh seen es ≡ true)
unfolding validate_entries fresh
validate_entries-eq-ok [] seen [] read = (refl, tt, refl)
validate_entries-eq-ok [] seen (e ∷ es) read = ground arith
validate_entries-eq-ok (row ∷ rows) seen es read = elim (Result-cases (validate_entry row seen)) [
  | inl (problem, failed) ↦ ground (arith, read, failed)
  | inr (first, valid) ↦ elim (Result-cases (validate_entries rows (first.name ∷ seen))) [
    | inl (problem, failed) ↦ ground (arith, read, valid, failed)
    | inr (rest, others) ↦
        let whole : first ∷ rest ≡ es = ground (arith, read, valid, others) in
        subst (λ x. (row ∷ rows ≡ raw_entries x) × AreEntries x × (fresh seen x ≡ true)) whole
          (ground (
            arith,
            validate_entry-eq-ok row seen first valid,
            validate_entries-eq-ok rows (first.name ∷ seen) rest others,
          ))
  ]
]

is_nil-raw : (es : List Entry) → is_nil (raw_entries es) ≡ is_nil es
is_nil-raw [] = refl
is_nil-raw (e ∷ es) = refl

raw_accepted : (m : Manifest) → IsManifest m → validate_manifest (some (raw_manifest m)) ≡ ok m
unfolding validate_manifest
raw_accepted m v = ground (
  arith,
  is_nil-raw m.parameters,
  v.some_entry,
  validate_entries-raw m.parameters [] v.entries
      (distinct-fresh [] m.parameters v.unique (λ name mem. refl)),
  v.counted,
  v.summed,
)

-- the manifest that is made of the entries read
accepted_record :
    (raw : RawManifest) (rows : List (Option RawEntry)) (entries : List Entry) (m : Manifest)
    → raw.complete ≡ true
    → raw.parameters ≡ some rows
    → validate_entries rows [] ≡ ok entries
    → validate_manifest (some raw) ≡ ok m
    → (m ≡ record {
      parameters = entries;
      parameter_count = length entries;
      total_numel = sum_numel entries;
      global_steps = raw.global_steps;
    })
      × (raw.parameter_count ≡ some (pos (length entries)))
      × (raw.total_numel ≡ some (pos (sum_numel entries)))
      × (is_nil rows ≡ false)
unfolding validate_manifest
accepted_record raw rows entries m complete given read accepted =
    ground (arith, accepted, complete, given, read)

accepted_raw :
    (raw : Option RawManifest) (m : Manifest)
    → validate_manifest raw ≡ ok m
    → (raw ≡ some (raw_manifest m)) × IsManifest m
unfolding validate_manifest
accepted_raw none m accepted = cc
accepted_raw (some raw) m accepted = elim (Bool-cases raw.complete) [
  | inr partial ↦ ground (arith, accepted, partial)
  | inl complete ↦ elim (Option-cases raw.parameters) [
    | inl missing ↦ ground (arith, accepted, complete, missing)
    | inr (rows, given) ↦ elim (Result-cases (validate_entries rows [])) [
      | inl (problem, failed) ↦ ground (arith, accepted, complete, given, failed)
      | inr (entries, read) ↦
          let (written, valid, new) = validate_entries-eq-ok rows [] entries read in
          let made = accepted_record raw rows entries m complete given read accepted in
          subst (λ x. (some raw ≡ some (raw_manifest x)) × IsManifest x) (sym made.0)
            (
              ground (arith, complete, given, written, made.1),
              record {
                entries = valid;
                unique = fresh-distinct [] entries new;
                some_entry = sym (is_nil-raw entries) ∙ ap is_nil (sym written) ∙ made.3;
                counted = refl;
                summed = refl;
              },
            )
    ]
  ]
]

-- The audit accepts a manifest exactly when it is the written form of one whose entries are complete,
-- with distinct names, at least one of them, and the counts that it states; it returns that manifest.
pub validate_manifest-eq-ok :
    (raw : Option RawManifest) (m : Manifest)
    → (validate_manifest raw ≡ ok m) ↔ ((raw ≡ some (raw_manifest m)) × IsManifest m)
validate_manifest-eq-ok raw m =
    (accepted_raw raw m, λ (written, v). ap validate_manifest written ∙ raw_accepted m v)
