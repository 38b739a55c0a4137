-- ===== src/Metadata/CacheAck.antt =====
-- core/messages/control.py: CACHE_ACK.
use nnrp_py.Common.{
  ℕ, ◌≡◌, List, [], ◌∷◌, ◌==◌, Result, ok, err, struct_error, ◌>>=◌, ◌>>◌, >>=-eq-ok, require,
  arith,
}
use nnrp_py.Struct.{Struct}
use nnrp_py.Metadata.{FixedWidth}
use nnrp_py.Metadata.ControlEnums.{
  CacheAckStatus, cache_ack_status_value, to_cache_ack_status, to_cache_ack_status-value,
  value-to_cache_ack_status,
}

pub record CacheAckMetadata : Type 0 where
  pub cache_namespace : ℕ
  pub status : CacheAckStatus
  pub cache_key_hi : ℕ
  pub cache_key_lo : ℕ
  pub accepted_ttl_ms : ℕ
  pub max_object_bytes : ℕ
  pub detail_code : ℕ

abbrev pub struct : Struct
struct = 4 ∷ 4 ∷ 8 ∷ 8 ∷ 4 ∷ 4 ∷ 4 ∷ 4 ∷ []

abbrev pub to_tuple : CacheAckMetadata → List ℕ
to_tuple m =
    m.cache_namespace
    ∷ cache_ack_status_value m.status
    ∷ m.cache_key_hi
    ∷ m.cache_key_lo
    ∷ m.accepted_ttl_ms
    ∷ m.max_object_bytes
    ∷ m.detail_code
    ∷ 0
    ∷ []

unfoldable pub from_tuple : List ℕ → Result CacheAckMetadata
from_tuple
      (cache_namespace ∷ status ∷ cache_key_hi ∷ cache_key_lo ∷ accepted_ttl_ms ∷ max_object_bytes
        ∷ detail_code ∷ reserved ∷ []) =
    do
      require (reserved == 0)
      status_member ← to_cache_ack_status status
      ok (record {
        cache_namespace = cache_namespace;
        status = status_member;
        cache_key_hi = cache_key_hi;
        cache_key_lo = cache_key_lo;
        accepted_ttl_ms = accepted_ttl_ms;
        max_object_bytes = max_object_bytes;
        detail_code = detail_code;
      })
from_tuple _ = err struct_error

abbrev pub codec : FixedWidth CacheAckMetadata
codec = record {
  struct = struct;
  check_pack = λ _. ok tt;
  to_tuple = to_tuple;
  from_tuple = from_tuple;
}

pub from_tuple-to_tuple : (m : CacheAckMetadata) → from_tuple (to_tuple m) ≡ ok m
unfolding from_tuple
from_tuple-to_tuple m = rw (to_cache_ack_status-value m.status)

pub to_tuple-from_tuple :
    (vs : List ℕ) (m : CacheAckMetadata) → from_tuple vs ≡ ok m → (to_tuple m ≡ vs)
unfolding from_tuple
to_tuple-from_tuple
      (cache_namespace ∷ status ∷ cache_key_hi ∷ cache_key_lo ∷ accepted_ttl_ms ∷ max_object_bytes
        ∷ detail_code ∷ reserved ∷ [])
      m h0 =
    let (_, zero_0, h1) = >>=-eq-ok (require (reserved == 0)) _ h0 in
    let (status_member, found_1, h2) = >>=-eq-ok (to_cache_ack_status status) _ h1 in
    let value_1 = value-to_cache_ack_status status status_member found_1 in ground arith
to_tuple-from_tuple _ m h = cc
