-- ===== src/CheckpointEngine/Validation.antt =====
-- `validate_parameter_sync`: did all workers of the replicas receive the published parameters?
-- (checkpoint_engine_manager.py). The answers of the workers are arguments, and so is the digest of
-- a canonical list of entries (the SHA-256 of its JSON text).
pub mod Agreement
use Prim.Native.Nat.{Ordering}
use Prim.Native.String.{compare}
use verl_multi_task.Common.{
  ℕ, String, ◌≡◌, Bool, true, false, Option, none, some, List, [], ◌∷◌, ◌++◌, map, ◌==◌,
  if◌then◌else◌, is_nil, length, Result, ok, err, ◌>>=◌, ◌>>◌, require, nat_key, string_key,
  option_key, ℕ_discrete,
}
use verl_multi_task.CheckpointEngine.Manifest.{
  Shape, list_shape, tuple_shape, sizes, Entry, RawManifest, Manifest, ManifestError, no_worker,
  uncovered_worker, wrong_version, wrong_source_version, differs_from_source, digests_differ,
  remote_failure, validate_manifest, manifest_mismatches,
}

pub record ParameterValidation : Type 0 where
  pub version : Option ℕ
  pub worker_count : ℕ
  pub parameter_count : ℕ
  pub total_numel : ℕ
  pub manifest_digest : String
  pub source_manifest_digest : Option String

-- the shape as a list, whatever it was
abbrev pub canonical : Entry → Entry
canonical e = record e { shape = list_shape (sizes e.shape) }

-- `canonical.sort(key=...)`: before the first entry whose name is not smaller
unfoldable pub insert_entry : Entry → List Entry → List Entry
insert_entry e [] = e ∷ []
insert_entry e (other ∷ others) =
    let rest = insert_entry e others in
    elim (compare e.name other.name) [ Ordering.gt ↦ other ∷ rest | _ ↦ e ∷ other ∷ others ]

unfoldable pub canonical_entries : List Entry → List Entry
unfolding insert_entry
canonical_entries [] = []
canonical_entries (e ∷ es) = insert_entry (canonical e) (canonical_entries es)

-- the CE workers of all replicas; each replica has one at least
unfoldable pub all_workers : List (List ℕ) → Result ManifestError (List ℕ)
all_workers [] = ok []
all_workers (workers ∷ replicas) = do
  require (if is_nil workers then false else true) no_worker
  rest ← all_workers replicas
  ok (workers ++ rest)

unfoldable pub validate_manifests : List (Option RawManifest) → Result ManifestError (List Manifest)
validate_manifests [] = ok []
validate_manifests (raw ∷ rest) = do
  manifest ← validate_manifest raw
  manifests ← validate_manifests rest
  ok (manifest ∷ manifests)

abbrev pub has_version : Option ℕ → Manifest → Bool
has_version none m = true
has_version (some version) m = m.global_steps == some version

abbrev pub all_of : (Manifest → Bool) → List Manifest → Bool
all_of test [] = true
all_of test (m ∷ ms) = if test m then all_of test ms else false

abbrev pub matches : Manifest → Manifest → Bool
matches source m = is_nil (manifest_mismatches source m 8)

-- the source manifest, if there is one to compare with
unfoldable pub check_source :
    Option (Option RawManifest) → Option ℕ → List Manifest → Result ManifestError (Option Manifest)
check_source none expected_version manifests = ok none
check_source (some raw) expected_version manifests = do
  source ← validate_manifest raw
  require (has_version expected_version source) wrong_source_version
  require (all_of (matches source) manifests) differs_from_source
  ok (some source)

module _ (digest_of : List Entry → String) where
  unfoldable pub manifest_digest : Manifest → String
  unfolding canonical_entries
  manifest_digest m = digest_of (canonical_entries m.parameters)

  -- the report on manifests that passed the checks before; all have one digest
  unfoldable pub report : List Manifest → Option Manifest → Result ManifestError ParameterValidation
  unfolding manifest_digest
  report [] source = err no_worker
  report (first ∷ rest) source = do
    require (all_of (λ m. manifest_digest m == manifest_digest first) rest) digests_differ
    ok (record {
      version = first.global_steps;
      worker_count = length (first ∷ rest);
      parameter_count = first.parameter_count;
      total_numel = first.total_numel;
      manifest_digest = manifest_digest first;
      source_manifest_digest = elim source [ none ↦ none | some s ↦ some (manifest_digest s) ];
    })

  -- `answers` is `none` when a worker's call raised
  unfoldable pub validate_parameter_sync :
      List (List ℕ)
      → Option (List (Option RawManifest))
      → Option ℕ
      → Option (Option RawManifest)
      → Result ManifestError ParameterValidation
  unfolding all_workers validate_manifests check_source report
  validate_parameter_sync replicas answers expected_version source_manifest = do
    workers ← all_workers replicas
    require (if is_nil workers then false else true) no_worker
    raws ← elim answers [ none ↦ err remote_failure | some raws ↦ ok raws ]
    require (length raws == length workers) uncovered_worker
    manifests ← validate_manifests raws
    require (all_of (has_version expected_version) manifests) wrong_version
    source ← check_source source_manifest expected_version manifests
    report manifests source
