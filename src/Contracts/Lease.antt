-- ===== src/Contracts/Lease.antt =====
-- `Lease` of contracts.py: the authorised claims, normalised once when the lease is built.
-- A float is modelled where the source can accept it: a multiple of one half, as a number of halves.
pub mod Normal
use verl_multi_task.Common.{
  ℕ, ◌+◌, String, ◌≡◌, refl, ap, Bool, true, false, Option, none, some, List, [], ◌∷◌, map, Key,
  ◌==◌, ℤ, pos, negsuc, if◌then◌else◌, nonempty, distinct, elem, Result, ok, err, ◌>>=◌, ◌>>◌,
  require, nat_key, string_key, pair_key, String-discrete, Pair-discrete, ℕ_discrete, arith,
}

-- What `claim.get(name)` finds; `other` is a value of any type that no check accepts.
pub data Value : Type 0 where
  absent none_value other : Value
  text : String → Value
  int : ℤ → Value
  halves : ℕ → Value

-- The keys of a claim that the module reads.
pub record RawClaim : Type 0 where
  pub claim_id : Value
  pub source_lease_id : Value
  pub lease_id : Value
  pub donor_task_id : Value
  pub donor_replica_rank : Value
  pub pg_id : Value
  pub node_id : Value
  pub gpu_uuid : Value
  pub bundle_index : Value
  pub gpu_fraction : Value
  pub cpu_request : Value

-- A normalised claim; its gpu_fraction is 0.5 and its cpu_request 1.0 by the checks.
pub record Claim : Type 0 where
  pub claim_id : String
  pub source_lease_id : String
  pub donor_task_id : String
  pub donor_replica_rank : ℕ
  pub pg_id : String
  pub node_id : String
  pub gpu_uuid : String
  pub bundle_index : ℕ

unfoldable pub Claim-discrete : Discrete Claim
unfolding ℕ_discrete String-discrete
Claim-discrete = hlevel (ℕ_discrete, String-discrete)

instance abbrev pub claim_key : Key Claim
claim_key = record { decide_eq = Claim-discrete }

pub data LeaseError : Type 0 where
  empty_lease_id no_claims bad_claim_id source_conflict bad_source_lease_id : LeaseError
  bad_donor_task_id bad_donor_replica_rank bad_pg_id bad_node_id bad_gpu_uuid : LeaseError
  bad_bundle_index bad_gpu_fraction bad_cpu_request : LeaseError
  repeated_claim_id repeated_gpu_uuid repeated_bundle several_donors : LeaseError
  expiry_not_finite negative_expiry : LeaseError

-- `isinstance(v, str) and v`
unfoldable pub as_text : Value → LeaseError → Result LeaseError String
as_text (text s) e = if s == "" then err e else ok s
as_text _ e = err e

-- `type(v) is int and v >= 0`
unfoldable pub as_index : Value → LeaseError → Result LeaseError ℕ
as_index (int (pos n)) e = ok n
as_index _ e = err e

-- `type(v) in (int, float)` and `float(v)` is the given number of halves
unfoldable pub is_halves : ℕ → Value → Bool
is_halves h (int (pos n)) = n + n == h
is_halves h (halves n) = n == h
is_halves _ _ = false

-- `claim.get(name, default)`
abbrev pub or_default : Value → Value → Value
or_default absent d = d
or_default v d = v

unfoldable pub is_missing : Value → Bool
is_missing absent = true
is_missing none_value = true
is_missing _ = false

unfoldable pub same_value : Value → Value → Bool
same_value (text s) (text t) = s == t
same_value (int (pos m)) (int (pos n)) = m == n
same_value (int (negsuc m)) (int (negsuc n)) = m == n
same_value (halves m) (halves n) = m == n
same_value (halves m) (int (pos n)) = m == n + n
same_value (int (pos m)) (halves n) = m + m == n
same_value _ _ = false

-- `source_lease_id`, or else the legacy `lease_id`, which must not contradict it
unfoldable pub claim_source : Value → Value → Result LeaseError String
claim_source source legacy = if is_missing source then as_text legacy bad_source_lease_id else do
  require (if is_missing legacy then true else same_value legacy source) source_conflict
  as_text source bad_source_lease_id

unfoldable pub normalize_claim : RawClaim → Result LeaseError Claim
unfolding claim_source
normalize_claim c = do
  claim_id ← as_text c.claim_id bad_claim_id
  source ← claim_source c.source_lease_id c.lease_id
  donor ← as_text c.donor_task_id bad_donor_task_id
  rank ← as_index c.donor_replica_rank bad_donor_replica_rank
  pg ← as_text c.pg_id bad_pg_id
  node ← as_text c.node_id bad_node_id
  gpu ← as_text c.gpu_uuid bad_gpu_uuid
  bundle ← as_index c.bundle_index bad_bundle_index
  require (is_halves 1 (or_default c.gpu_fraction (halves 1))) bad_gpu_fraction
  require (is_halves 2 (or_default c.cpu_request (halves 2))) bad_cpu_request
  ok (record {
    claim_id = claim_id;
    source_lease_id = source;
    donor_task_id = donor;
    donor_replica_rank = rank;
    pg_id = pg;
    node_id = node;
    gpu_uuid = gpu;
    bundle_index = bundle;
  })

unfoldable pub normalize_claims : List RawClaim → Result LeaseError (List Claim)
unfolding normalize_claim
normalize_claims [] = ok []
normalize_claims (c ∷ cs) = do
  claim ← normalize_claim c
  claims ← normalize_claims cs
  ok (claim ∷ claims)

-- `expires_at`: a finite number, in ticks
pub data Expiry : Type 0 where
  at_tick : ℤ → Expiry
  not_finite : Expiry

pub record Lease : Type 0 where
  pub lease_id : String
  -- the claims are not empty: the first, and the others
  pub first_claim : Claim
  pub other_claims : List Claim
  pub expires_at : ℕ

abbrev pub claims : Lease → List Claim
claims l = l.first_claim ∷ l.other_claims

abbrev pub claim_ids : Lease → List String
claim_ids l = map (λ c. c.claim_id) (claims l)

abbrev pub bundle_key : Claim → String × ℕ
bundle_key c = (c.pg_id, c.bundle_index)

abbrev pub bundle_keys : Lease → List (String × ℕ)
bundle_keys l = map bundle_key (claims l)

abbrev pub gpu_uuids : Lease → List String
gpu_uuids l = map (λ c. c.gpu_uuid) (claims l)

-- every donor replica of the list is that of the first claim
abbrev pub one_donor : Claim → List Claim → Bool
one_donor c [] = true
one_donor c (d ∷ ds) =
    if d.donor_task_id == c.donor_task_id
    then (if d.donor_replica_rank == c.donor_replica_rank then one_donor c ds else false)
    else false

unfoldable pub checked_expiry : Expiry → Result LeaseError ℕ
checked_expiry not_finite = err expiry_not_finite
checked_expiry (at_tick (negsuc _)) = err negative_expiry
checked_expiry (at_tick (pos n)) = ok n

unfoldable pub lease_of : String → Claim → List Claim → Expiry → Result LeaseError Lease
unfolding checked_expiry
lease_of lease_id c cs expires_at = do
  require (distinct (map (λ (d : Claim). d.claim_id) (c ∷ cs))) repeated_claim_id
  require (distinct (map (λ (d : Claim). d.gpu_uuid) (c ∷ cs))) repeated_gpu_uuid
  require (distinct (map bundle_key (c ∷ cs))) repeated_bundle
  require (one_donor c cs) several_donors
  expiry ← checked_expiry expires_at
  ok (record { lease_id = lease_id; first_claim = c; other_claims = cs; expires_at = expiry })

unfoldable pub make_lease : String → List RawClaim → Expiry → Result LeaseError Lease
unfolding lease_of normalize_claim normalize_claims
make_lease lease_id [] expires_at = do require (nonempty lease_id) empty_lease_id; err no_claims
make_lease lease_id (c ∷ cs) expires_at = do
  require (nonempty lease_id) empty_lease_id
  first ← normalize_claim c
  others ← normalize_claims cs
  lease_of lease_id first others expires_at

-- The claim mappings of a stored lease, as `Lease(...)` is given them again.
unfoldable pub raw_claim : Claim → RawClaim
raw_claim c = record {
  claim_id = text c.claim_id;
  source_lease_id = text c.source_lease_id;
  lease_id = absent;
  donor_task_id = text c.donor_task_id;
  donor_replica_rank = int (pos c.donor_replica_rank);
  pg_id = text c.pg_id;
  node_id = text c.node_id;
  gpu_uuid = text c.gpu_uuid;
  bundle_index = int (pos c.bundle_index);
  gpu_fraction = halves 1;
  cpu_request = halves 2;
}

-- `Lease(lease.lease_id, lease.claims, lease.expires_at)`
unfoldable pub detach : Lease → Result LeaseError Lease
unfolding make_lease raw_claim
detach l = make_lease l.lease_id (map raw_claim (claims l)) (at_tick (pos l.expires_at))
