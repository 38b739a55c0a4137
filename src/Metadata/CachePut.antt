-- ===== src/Metadata/CachePut.antt =====
-- core/messages/control.py: CACHE_PUT.
use nnrp_py.Common.{
  ℕ, ◌≡◌, List, [], ◌∷◌, ◌==◌, bits_outside, Result, ok, err, struct_error, ◌>>=◌, ◌>>◌, >>=-eq-ok,
  require, from_ok, arith,
}
use nnrp_py.Struct.{Struct}
use nnrp_py.Metadata.{FixedWidth}
use nnrp_py.Metadata.ControlEnums.{
  CacheObjectKind, cache_object_kind_value, to_cache_object_kind, to_cache_object_kind-value,
  value-to_cache_object_kind,
}

pub record CachePutMetadata : Type 0 where
  pub cache_namespace : ℕ
  pub object_kind : CacheObjectKind
  pub cache_key_hi : ℕ
  pub cache_key_lo : ℕ
  pub ttl_ms : ℕ
  pub object_bytes : ℕ
  pub codec_bitmap : ℕ
  pub flags : ℕ

abbrev pub struct : Struct
struct = 4 ∷ 4 ∷ 8 ∷ 8 ∷ 4 ∷ 4 ∷ 4 ∷ 4 ∷ []

-- `__post_init__`
unfoldable pub check : CachePutMetadata → Result (Unit {0})
check m = require (bits_outside m.flags 0x03 == 0)

abbrev pub to_tuple : CachePutMetadata → List ℕ
to_tuple m =
    m.cache_namespace
    ∷ cache_object_kind_value m.object_kind
    ∷ m.cache_key_hi
    ∷ m.cache_key_lo
    ∷ m.ttl_ms
    ∷ m.object_bytes
    ∷ m.codec_bitmap
    ∷ m.flags
    ∷ []

unfoldable pub from_tuple : List ℕ → Result CachePutMetadata
from_tuple
      (cache_namespace ∷ object_kind ∷ cache_key_hi ∷ cache_key_lo ∷ ttl_ms ∷ object_bytes
        ∷ codec_bitmap ∷ flags ∷ []) =
    do
      object_kind_member ← to_cache_object_kind object_kind
      let made : CachePutMetadata = record {
        cache_namespace = cache_namespace;
        object_kind = object_kind_member;
        cache_key_hi = cache_key_hi;
        cache_key_lo = cache_key_lo;
        ttl_ms = ttl_ms;
        object_bytes = object_bytes;
        codec_bitmap = codec_bitmap;
        flags = flags;
      }
      check made
      ok made
from_tuple _ = err struct_error

abbrev pub codec : FixedWidth CachePutMetadata
codec = record {
  struct = struct;
  check_pack = λ _. ok tt;
  to_tuple = to_tuple;
  from_tuple = from_tuple;
}

pub from_tuple-to_tuple : (m : CachePutMetadata) → check m ≡ ok tt → from_tuple (to_tuple m) ≡ ok m
unfolding from_tuple
from_tuple-to_tuple m valid = rw (to_cache_object_kind-value m.object_kind, valid)

pub to_tuple-from_tuple :
    (vs : List ℕ) (m : CachePutMetadata)
    → from_tuple vs ≡ ok m
    → (to_tuple m ≡ vs) × (check m ≡ ok tt)
unfolding from_tuple
to_tuple-from_tuple
      (cache_namespace ∷ object_kind ∷ cache_key_hi ∷ cache_key_lo ∷ ttl_ms ∷ object_bytes
        ∷ codec_bitmap ∷ flags ∷ [])
      m h0 =
    let (object_kind_member, found_0, h1) = >>=-eq-ok (to_cache_object_kind object_kind) _ h0 in
    let value_0 = value-to_cache_object_kind object_kind object_kind_member found_0 in
    let made : CachePutMetadata = record {
      cache_namespace = cache_namespace;
      object_kind = object_kind_member;
      cache_key_hi = cache_key_hi;
      cache_key_lo = cache_key_lo;
      ttl_ms = ttl_ms;
      object_bytes = object_bytes;
      codec_bitmap = codec_bitmap;
      flags = flags;
    } in
    let (_, valid, h2) = >>=-eq-ok (check made) _ h1 in
    let same : made ≡ m = from_ok made m h2 in (ground arith, rw (← same) valid)
to_tuple-from_tuple _ m h = cc
