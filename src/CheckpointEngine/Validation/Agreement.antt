-- ===== src/CheckpointEngine/Validation/Agreement.antt =====
-- What a validated synchronisation guarantees (checkpoint_engine_manager.py).
use verl_multi_task.Common.{
  ℕ, String, ◌≡◌, inl, inr, true, Option, some, List, [], ◌∷◌, elem, length, ok, Result-cases,
  nat_key, string_key, option_key, arith, eq_of_==,
}
use verl_multi_task.CheckpointEngine.Manifest.{
  Entry, entry_key, RawManifest, Manifest, validate_manifest,
}
use verl_multi_task.CheckpointEngine.Manifest.Comparison.{manifest_mismatches-nil}
use verl_multi_task.CheckpointEngine.Manifest.Audit.{
  IsManifest, raw_manifest, validate_manifest-eq-ok,
}
use verl_multi_task.CheckpointEngine.Validation.{
  ParameterValidation, all_workers, validate_manifests, has_version, all_of, matches, check_source,
  validate_parameter_sync,
}

-- the answer is the written form of an audited manifest of the version, with the entries of the source
pub record Received (source : Manifest) (version : ℕ) (raw : Option RawManifest) : Type 0 where
  pub manifest : Manifest
  pub written : raw ≡ some (raw_manifest manifest)
  pub audited : IsManifest manifest
  pub versioned : manifest.global_steps ≡ some version
  pub agrees : (e : Entry) → elem e source.parameters ≡ elem e manifest.parameters

abbrev pub AllReceived : Manifest → ℕ → List (Option RawManifest) → Type 0
AllReceived source version [] = Unit {0}
AllReceived source version (raw ∷ raws) =
    Received source version raw × AllReceived source version raws

received :
    (source m : Manifest) (version : ℕ) (raw : Option RawManifest)
    → IsManifest source
    → validate_manifest raw ≡ ok m
    → has_version (some version) m ≡ true
    → matches source m ≡ true
    → Received source version raw
received source m version raw v read versioned matching =
    let (written, audited) = (validate_manifest-eq-ok raw m).0 read in
    record {
      manifest = m;
      written = written;
      audited = audited;
      versioned = eq_of_== m.global_steps (some version) versioned;
      agrees =
          (manifest_mismatches-nil source m 7 v.unique audited.unique).0 (ground (arith, matching));
    }

all_received :
    (source : Manifest) (version : ℕ) (raws : List (Option RawManifest)) (manifests : List Manifest)
    → IsManifest source
    → validate_manifests raws ≡ ok manifests
    → all_of (has_version (some version)) manifests ≡ true
    → all_of (matches source) manifests ≡ true
    → AllReceived source version raws
unfolding validate_manifests
all_received source version [] manifests v read versioned matching = tt
all_received source version (raw ∷ raws) manifests v read versioned matching =
    elim (Result-cases (validate_manifest raw)) [
      | inl (problem, failed) ↦ ground (arith, read, failed)
      | inr (m, first) ↦ elim (Result-cases (validate_manifests raws)) [
        | inl (problem, failed) ↦ ground (arith, read, first, failed)
        | inr (ms, others) ↦
            let whole : m ∷ ms ≡ manifests = ground (arith, read, first, others) in
            (
              received source m version raw v first (ground (arith, whole, versioned))
                  (ground (arith, whole, matching)),
              all_received source version raws ms v others (ground (arith, whole, versioned))
                  (ground (arith, whole, matching)),
            )
      ]
    ]

-- a source that passed its check
check_source-eq-ok :
    (raw : Option RawManifest) (version : ℕ) (manifests : List Manifest) (checked : Option Manifest)
    → check_source (some raw) (some version) manifests ≡ ok checked
    → (source : Manifest) × (validate_manifest raw ≡ ok source)
      × (has_version (some version) source ≡ true)
      × (all_of (matches source) manifests ≡ true)
unfolding check_source
check_source-eq-ok raw version manifests checked passed =
    elim (Result-cases (validate_manifest raw)) [
      | inl (problem, failed) ↦ ground (arith, passed, failed)
      | inr (source, read) ↦
          (source, read, ground (arith, passed, read), ground (arith, passed, read))
    ]

-- A validation against a source manifest that returns has one answer for each CE worker of the
-- replicas, the source is an audited manifest of the expected version, and every answer is an audited
-- manifest of that version with exactly the source's entries.
pub validate_parameter_sync-AllReceived :
    (digest_of : List Entry → String) (replicas : List (List ℕ)) (raws : List (Option RawManifest))
    (version : ℕ) (raw : Option RawManifest) (result : ParameterValidation)
    → validate_parameter_sync digest_of replicas (some raws) (some version) (some raw) ≡ ok result
    → (source : Manifest) × (raw ≡ some (raw_manifest source))
      × IsManifest source
      × (source.global_steps ≡ some version)
      × ((workers : List ℕ) × (all_workers replicas ≡ ok workers) × (length raws ≡ length workers))
      × AllReceived source version raws
unfolding validate_parameter_sync
validate_parameter_sync-AllReceived digest_of replicas raws version raw result valid =
    elim (Result-cases (all_workers replicas)) [
      | inl (problem, failed) ↦ ground (arith, valid, failed)
      | inr (workers, gathered) ↦ elim (Result-cases (validate_manifests raws)) [
        | inl (problem, failed) ↦ ground (arith, valid, gathered, failed)
        | inr (manifests, read) ↦
            elim (Result-cases (check_source (some raw) (some version) manifests)) [
              | inl (problem, failed) ↦ ground (arith, valid, gathered, read, failed)
              | inr (checked, passed) ↦
                  let (source, source_read, versioned, matching) =
                    check_source-eq-ok raw version manifests checked passed in
                  let (written, audited) = (validate_manifest-eq-ok raw source).0 source_read in
                  (
                    source,
                    written,
                    audited,
                    eq_of_== source.global_steps (some version) versioned,
                    (workers, gathered, ground (arith, valid, gathered)),
                    all_received source version raws manifests audited read
                        (ground (arith, valid, gathered, read)) matching,
                  )
            ]
      ]
    ]
