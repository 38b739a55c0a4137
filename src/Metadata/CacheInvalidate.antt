-- ===== src/Metadata/CacheInvalidate.antt =====
-- core/messages/control.py: CACHE_INVALIDATE.
use nnrp_py.Common.{
  ℕ, ◌≡◌, List, [], ◌∷◌, Bool, true, ◌&&◌, ◌==◌, leb, Result, ok, err, struct_error, ◌>>=◌, ◌>>◌,
  >>=-eq-ok, require, from_ok, arith,
}
use nnrp_py.Struct.{Struct}
use nnrp_py.Metadata.{FixedWidth}
use nnrp_py.Metadata.ControlEnums.{
  CacheInvalidateScope, cache_invalidate_scope_value, to_cache_invalidate_scope,
  to_cache_invalidate_scope-value, value-to_cache_invalidate_scope,
}

pub record CacheInvalidateMetadata : Type 0 where
  pub invalidate_scope : CacheInvalidateScope
  pub cache_namespace : ℕ
  pub cache_key_hi : ℕ
  pub cache_key_lo : ℕ
  pub reason_code : ℕ

abbrev pub struct : Struct
struct = 4 ∷ 4 ∷ 8 ∷ 8 ∷ 4 ∷ 4 ∷ []

-- The identity fields that a scope leaves at zero.
abbrev pub identity_matches : CacheInvalidateScope → CacheInvalidateMetadata → Bool
identity_matches CacheInvalidateScope.whole_session m =
    m.cache_namespace == 0 && m.cache_key_hi == 0 && m.cache_key_lo == 0
identity_matches CacheInvalidateScope.namespace m = m.cache_key_hi == 0 && m.cache_key_lo == 0
identity_matches CacheInvalidateScope.object_kind m =
    leb m.cache_key_hi 0xffffffff && m.cache_key_lo == 0
identity_matches CacheInvalidateScope.object_key m = true

-- `__post_init__`
unfoldable pub check : CacheInvalidateMetadata → Result (Unit {0})
check m = require (identity_matches m.invalidate_scope m)

abbrev pub to_tuple : CacheInvalidateMetadata → List ℕ
to_tuple m =
    cache_invalidate_scope_value m.invalidate_scope
    ∷ m.cache_namespace
    ∷ m.cache_key_hi
    ∷ m.cache_key_lo
    ∷ m.reason_code
    ∷ 0
    ∷ []

unfoldable pub from_tuple : List ℕ → Result CacheInvalidateMetadata
from_tuple
      (invalidate_scope ∷ cache_namespace ∷ cache_key_hi ∷ cache_key_lo ∷ reason_code ∷ reserved
        ∷ []) =
    do
      require (reserved == 0)
      invalidate_scope_member ← to_cache_invalidate_scope invalidate_scope
      let made : CacheInvalidateMetadata = record {
        invalidate_scope = invalidate_scope_member;
        cache_namespace = cache_namespace;
        cache_key_hi = cache_key_hi;
        cache_key_lo = cache_key_lo;
        reason_code = reason_code;
      }
      check made
      ok made
from_tuple _ = err struct_error

abbrev pub codec : FixedWidth CacheInvalidateMetadata
codec = record {
  struct = struct;
  check_pack = λ _. ok tt;
  to_tuple = to_tuple;
  from_tuple = from_tuple;
}

pub from_tuple-to_tuple :
    (m : CacheInvalidateMetadata) → check m ≡ ok tt → from_tuple (to_tuple m) ≡ ok m
unfolding from_tuple
from_tuple-to_tuple m valid = rw (to_cache_invalidate_scope-value m.invalidate_scope, valid)

pub to_tuple-from_tuple :
    (vs : List ℕ) (m : CacheInvalidateMetadata)
    → from_tuple vs ≡ ok m
    → (to_tuple m ≡ vs) × (check m ≡ ok tt)
unfolding from_tuple
to_tuple-from_tuple
      (invalidate_scope ∷ cache_namespace ∷ cache_key_hi ∷ cache_key_lo ∷ reason_code ∷ reserved
        ∷ [])
      m h0 =
    let (_, zero_0, h1) = >>=-eq-ok (require (reserved == 0)) _ h0 in
    let (invalidate_scope_member, found_1, h2) =
      >>=-eq-ok (to_cache_invalidate_scope invalidate_scope) _ h1 in
    let value_1 =
      value-to_cache_invalidate_scope invalidate_scope invalidate_scope_member found_1 in
    let made : CacheInvalidateMetadata = record {
      invalidate_scope = invalidate_scope_member;
      cache_namespace = cache_namespace;
      cache_key_hi = cache_key_hi;
      cache_key_lo = cache_key_lo;
      reason_code = reason_code;
    } in
    let (_, valid, h3) = >>=-eq-ok (check made) _ h2 in
    let same : made ≡ m = from_ok made m h3 in (ground arith, rw (← same) valid)
to_tuple-from_tuple _ m h = cc
