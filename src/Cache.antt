-- ===== src/Cache.antt =====
-- cache.py: the leases of cached objects, their results and the options of the cache policy. The
-- enums that come with values of any other class are the types here.
pub mod Lease
use nnrp_py.Common.{
  ℕ, ◌+◌, ◌*◌, ◌^◌, ◌≡◌, Option, none, some, Bool, true, false, not, ◌&&◌, ◌||◌, ◌==◌, leb,
  if◌then◌else◌, min, Result, ok, ◌>>=◌, ◌>>◌, require,
}

abbrev pub max_u64 : ℕ
max_u64 = 0xffffffffffffffff

pub data CacheLeaseOutcome : Type 0 where
  valid expired renewed released missing : CacheLeaseOutcome

pub data CacheLeaseOwnerScope : Type 0 where
  connection session operation : CacheLeaseOwnerScope

pub record CacheObjectIdentity : Type 0 where
  pub cache_namespace : ℕ
  pub object_kind : ℕ
  pub cache_key_hi : ℕ
  pub cache_key_lo : ℕ

unfoldable pub check_identity : CacheObjectIdentity → Result (Unit {0})
check_identity i = do
  require (leb i.cache_namespace 0xffffffff)
  require (leb i.object_kind 0xffffffff)
  require (leb i.cache_key_hi max_u64)
  require (leb i.cache_key_lo max_u64)

-- `(cache_key_hi << 64) | cache_key_lo`: the low half has 64 bits, so the two do not overlap.
unfoldable pub cache_key_u128 : CacheObjectIdentity → ℕ
cache_key_u128 i = i.cache_key_hi * 2 ^ 64 + i.cache_key_lo

abbrev pub same_identity : CacheObjectIdentity → CacheObjectIdentity → Bool
same_identity a b =
    (a.cache_namespace == b.cache_namespace)
    && (a.object_kind == b.object_kind)
    && (a.cache_key_hi == b.cache_key_hi)
    && (a.cache_key_lo == b.cache_key_lo)

pub record CacheLeaseDescriptor : Type 0 where
  pub identity : CacheObjectIdentity
  pub object_version : ℕ
  pub lease_id : ℕ
  pub owner_scope : CacheLeaseOwnerScope
  pub owner_id : ℕ
  pub granted_at_ms : ℕ
  pub ttl_ms : ℕ

unfoldable pub check_lease : CacheLeaseDescriptor → Result (Unit {0})
check_lease l = do
  require (leb l.object_version max_u64)
  require (leb l.lease_id max_u64)
  require (leb l.owner_id max_u64)
  require (leb l.granted_at_ms max_u64)
  require (leb l.ttl_ms 0xffffffff)

abbrev pub expires_at_ms : CacheLeaseDescriptor → ℕ
expires_at_ms l = min (l.granted_at_ms + l.ttl_ms) max_u64

unfoldable pub is_expired : CacheLeaseDescriptor → ℕ → Result Bool
is_expired l now_ms = do require (leb now_ms max_u64); ok (leb (expires_at_ms l) now_ms)

unfoldable pub validate_version : CacheLeaseDescriptor → ℕ → Result (Unit {0})
validate_version l expected_version = do
  require (leb expected_version max_u64)
  require (expected_version == l.object_version)

abbrev pub ttl_or : ℕ → Option ℕ → ℕ
ttl_or old none = old
ttl_or old (some ttl_ms) = ttl_ms

-- The lease that is made is checked as any.
unfoldable pub as_renewed :
    CacheLeaseDescriptor → ℕ → ℕ → ℕ → Option ℕ → Result CacheLeaseDescriptor
as_renewed l object_version lease_id granted_at_ms ttl_ms = do
  let made : CacheLeaseDescriptor = record {
    identity = l.identity;
    object_version = object_version;
    lease_id = lease_id;
    owner_scope = l.owner_scope;
    owner_id = l.owner_id;
    granted_at_ms = granted_at_ms;
    ttl_ms = ttl_or l.ttl_ms ttl_ms;
  }
  check_lease made
  ok made

pub record CachePolicyOptions : Type 0 where
  pub enabled : Bool
  pub reuse_scope : Option ℕ
  pub expiration_hint_ms : ℕ

abbrev pub is_given : Option ℕ → Bool
is_given none = false
is_given (some _) = true

-- `CacheReuseScope(reuse_scope)`, of which the members are 0 to 5.
abbrev pub check_scope : Option ℕ → Result (Unit {0})
check_scope none = ok tt
check_scope (some scope) = require (leb scope 5)

unfoldable pub check_policy : CachePolicyOptions → Result (Unit {0})
check_policy p = do
  check_scope p.reuse_scope
  require (leb p.expiration_hint_ms max_u64)
  require (not (p.enabled && not (is_given p.reuse_scope)))
  require (not (not p.enabled && is_given p.reuse_scope))
  require (not (not p.enabled && not (p.expiration_hint_ms == 0)))
