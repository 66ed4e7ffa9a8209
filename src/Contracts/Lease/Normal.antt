-- ===== src/Contracts/Lease/Normal.antt =====
-- The normal form of a lease (contracts.py, `Lease.__post_init__`).
use verl_multi_task.Common.{
  String, ◌≡◌, refl, true, List, [], ◌∷◌, map, nonempty, distinct, ok, nat_key, string_key,
  pair_key, arith,
}
use verl_multi_task.Contracts.Lease.{
  Value, RawClaim, Claim, LeaseError, Lease, Expiry, as_text, as_index, text, is_halves,
  claim_source, normalize_claim, normalize_claims, lease_of, checked_expiry, make_lease, raw_claim,
  detach, claim_ids, gpu_uuids, bundle_keys, one_donor, is_missing, bad_source_lease_id,
  bad_claim_id, bad_donor_task_id, bad_pg_id, bad_node_id, bad_gpu_uuid,
}

-- The texts of a normalised claim are not empty.
pub record IsNormal (c : Claim) : Type 0 where
  pub has_claim_id : nonempty c.claim_id ≡ true
  pub has_source : nonempty c.source_lease_id ≡ true
  pub has_donor : nonempty c.donor_task_id ≡ true
  pub has_pg : nonempty c.pg_id ≡ true
  pub has_node : nonempty c.node_id ≡ true
  pub has_gpu : nonempty c.gpu_uuid ≡ true

as_text-nonempty :
    (v : Value) (e : LeaseError) (s : String) → as_text v e ≡ ok s → nonempty s ≡ true
unfolding as_text
as_text-nonempty (text t) e s h = ground arith
as_text-nonempty _ e s h = cc

claim_source-nonempty : (v w : Value) (s : String) → claim_source v w ≡ ok s → nonempty s ≡ true
unfolding claim_source
claim_source-nonempty v w s h =
    ground
      (arith, as_text-nonempty v bad_source_lease_id s, as_text-nonempty w bad_source_lease_id s)

normalize_claim-IsNormal : (r : RawClaim) (c : Claim) → normalize_claim r ≡ ok c → IsNormal c
unfolding normalize_claim
normalize_claim-IsNormal r c h = ground (
  arith,
  as_text-nonempty r.claim_id bad_claim_id c.claim_id,
  claim_source-nonempty r.source_lease_id r.lease_id c.source_lease_id,
  as_text-nonempty r.donor_task_id bad_donor_task_id c.donor_task_id,
  as_text-nonempty r.pg_id bad_pg_id c.pg_id,
  as_text-nonempty r.node_id bad_node_id c.node_id,
  as_text-nonempty r.gpu_uuid bad_gpu_uuid c.gpu_uuid,
)

normalize_claim-raw_claim : (c : Claim) → IsNormal c → normalize_claim (raw_claim c) ≡ ok c
unfolding normalize_claim raw_claim as_text as_index is_halves is_missing
normalize_claim-raw_claim c n = ground arith

AllNormal : List Claim → Type 0
AllNormal [] = Unit {0}
AllNormal (c ∷ cs) = IsNormal c × AllNormal cs

normalize_claims-AllNormal :
    (rs : List RawClaim) (cs : List Claim) → normalize_claims rs ≡ ok cs → AllNormal cs
unfolding normalize_claims AllNormal
normalize_claims-AllNormal [] [] h = tt
normalize_claims-AllNormal [] (c ∷ cs) h = cc
normalize_claims-AllNormal (r ∷ rs) [] h = ground arith
normalize_claims-AllNormal (r ∷ rs) (c ∷ cs) h =
    (normalize_claim-IsNormal r c (ground arith), normalize_claims-AllNormal rs cs (ground arith))

normalize_claims-raw_claim :
    (cs : List Claim) → AllNormal cs → normalize_claims (map raw_claim cs) ≡ ok cs
unfolding normalize_claims AllNormal
normalize_claims-raw_claim [] n = refl
normalize_claims-raw_claim (c ∷ cs) n =
    rw (normalize_claim-raw_claim c n.0, normalize_claims-raw_claim cs n.1)

-- What every lease that was built satisfies.
pub record IsLease (l : Lease) : Type 0 where
  pub named : nonempty l.lease_id ≡ true
  pub claim_ids_distinct : distinct (claim_ids l) ≡ true
  pub gpus_distinct : distinct (gpu_uuids l) ≡ true
  pub bundles_distinct : distinct (bundle_keys l) ≡ true
  pub donor : one_donor l.first_claim l.other_claims ≡ true
  first_normal : IsNormal l.first_claim
  others_normal : AllNormal l.other_claims

-- `Lease(...)` returns only leases whose claims are normal, pairwise different in claim id, GPU and
-- bundle, and all of one donor replica.
pub make_lease-IsLease :
    (id : String) (rs : List RawClaim) (e : Expiry) (l : Lease)
    → make_lease id rs e ≡ ok l
    → IsLease l
unfolding make_lease lease_of
make_lease-IsLease id [] e l h = ground arith
make_lease-IsLease id (r ∷ rs) e l h = record {
  named = ground arith;
  claim_ids_distinct = ground arith;
  gpus_distinct = ground arith;
  bundles_distinct = ground arith;
  donor = ground arith;
  first_normal = normalize_claim-IsNormal r l.first_claim (ground arith);
  others_normal = normalize_claims-AllNormal rs l.other_claims (ground arith);
}

-- Building a valid lease again from its own fields gives that lease.
pub detach-IsLease : (l : Lease) → IsLease l → detach l ≡ ok l
unfolding detach make_lease lease_of checked_expiry
detach-IsLease l v =
    rw
      (
        normalize_claim-raw_claim l.first_claim v.first_normal,
        normalize_claims-raw_claim l.other_claims v.others_normal,
      )
      (rw (v.named, v.claim_ids_distinct, v.gpus_distinct, v.bundles_distinct, v.donor))

-- Rebuilding keeps the lease's id.
pub lease_id-detach : (l m : Lease) → detach l ≡ ok m → m.lease_id ≡ l.lease_id
unfolding detach make_lease lease_of checked_expiry
lease_id-detach l m h = ground arith
