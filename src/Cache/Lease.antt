-- ===== src/Cache/Lease.antt =====
-- cache.py: how long a lease lasts, and what a renewal changes.
use nnrp_py.Common.{
  ℕ, ◌+◌, ◌≤◌, ◌<◌, ◌≡◌, ◌↔◌, refl, Option, none, some, Bool, true, false, ok, >>=-eq-ok, from_ok,
  arith,
}
use nnrp_py.Cache.{
  max_u64, CacheLeaseDescriptor, check_lease, is_expired, ttl_or, as_renewed, CachePolicyOptions,
  check_policy,
}

-- Asked at a time of 64 bits, a lease has not expired exactly while the time is before both the
-- end of its ttl and the last instant.
pub is_expired_iff :
    (l : CacheLeaseDescriptor) (now : ℕ)
    → now ≤ max_u64
    → (is_expired l now ≡ ok false) ↔ ((now < l.granted_at_ms + l.ttl_ms) × (now < max_u64))
unfolding is_expired
is_expired_iff l now h = ground arith

-- A lease that has expired stays expired at every later time of 64 bits.
pub is_expired_mono :
    (l : CacheLeaseDescriptor) (now later : ℕ)
    → now ≤ later
    → later ≤ max_u64
    → is_expired l now ≡ ok true
    → is_expired l later ≡ ok true
unfolding is_expired
is_expired_mono l now later le fits h = ground arith

-- A renewal that is made at the time now, before the last instant, with a ttl that is not 0, is valid
-- and not expired at that time; it keeps the identity and the owner.
pub as_renewed-is_expired :
    (l renewed : CacheLeaseDescriptor) (version lease_id now : ℕ) (ttl : Option ℕ)
    → now < max_u64
    → 0 < ttl_or l.ttl_ms ttl
    → as_renewed l version lease_id now ttl ≡ ok renewed
    → (is_expired renewed now ≡ ok false)
      × (renewed.identity ≡ l.identity)
      × (renewed.owner_scope ≡ l.owner_scope)
      × (renewed.owner_id ≡ l.owner_id)
      × (check_lease renewed ≡ ok tt)
unfolding as_renewed
as_renewed-is_expired l renewed version lease_id now ttl early positive h =
    let (_, valid, h1) = >>=-eq-ok (check_lease _) _ h in
    let made = from_ok _ renewed h1 in
    rw (← made)
      ((is_expired_iff _ now (omega arith)).1 (omega arith, early), refl, refl, refl, valid)

-- The options that pass: enabled with one of the scopes, or disabled with neither a scope nor a hint.
abbrev pub Consistent : Bool → Option ℕ → ℕ → Type 0
Consistent true (some scope) hint = (scope ≤ 5) × (hint ≤ max_u64)
Consistent false none hint = hint ≡ 0
Consistent _ _ hint = ⊥

policy_iff :
    (enabled : Bool) (scope : Option ℕ) (hint : ℕ)
    → (check_policy (record { enabled = enabled; reuse_scope = scope; expiration_hint_ms = hint })
        ≡ ok tt)
      ↔ Consistent enabled scope hint
unfolding check_policy
policy_iff true none hint = ground arith
policy_iff true (some scope) hint = ground arith
policy_iff false none hint = ground arith
policy_iff false (some scope) hint = ground arith

-- Cache policy options are accepted exactly when they are enabled, with a scope of the enum and a
-- hint of 64 bits, or disabled, with no scope and the hint 0.
pub check_policy_iff :
    (p : CachePolicyOptions)
    → (check_policy p ≡ ok tt) ↔ Consistent p.enabled p.reuse_scope p.expiration_hint_ms
check_policy_iff p = policy_iff p.enabled p.reuse_scope p.expiration_hint_ms
