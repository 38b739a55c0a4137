-- ===== src/Metadata/ObjectReference.antt =====
-- core/messages/data.py: a reference to a cached object.
use nnrp_py.Common.{
  ℕ, ◌≡◌, List, [], ◌∷◌, ◌==◌, Result, ok, err, struct_error, ◌>>=◌, ◌>>◌, >>=-eq-ok, require,
  from_ok, arith,
}
use nnrp_py.Struct.{Struct}
use nnrp_py.Metadata.{FixedWidth}
use nnrp_py.Metadata.ControlEnums.{
  CacheObjectKind, cache_object_kind_value, to_cache_object_kind, to_cache_object_kind-value,
  value-to_cache_object_kind,
}

pub record ObjectReferenceBlock : Type 0 where
  pub object_kind : CacheObjectKind
  pub ref_flags : ℕ
  pub cache_namespace : ℕ
  pub cache_key_hi : ℕ
  pub cache_key_lo : ℕ

abbrev pub struct : Struct
struct = 2 ∷ 2 ∷ 4 ∷ 8 ∷ 8 ∷ []

-- `__post_init__`
unfoldable pub check : ObjectReferenceBlock → Result (Unit {0})
check m = require (m.ref_flags == 0)

abbrev pub to_tuple : ObjectReferenceBlock → List ℕ
to_tuple m =
    cache_object_kind_value m.object_kind
    ∷ m.ref_flags
    ∷ m.cache_namespace
    ∷ m.cache_key_hi
    ∷ m.cache_key_lo
    ∷ []

unfoldable pub from_tuple : List ℕ → Result ObjectReferenceBlock
from_tuple (object_kind ∷ ref_flags ∷ cache_namespace ∷ cache_key_hi ∷ cache_key_lo ∷ []) = do
  object_kind_member ← to_cache_object_kind object_kind
  let made : ObjectReferenceBlock = record {
    object_kind = object_kind_member;
    ref_flags = ref_flags;
    cache_namespace = cache_namespace;
    cache_key_hi = cache_key_hi;
    cache_key_lo = cache_key_lo;
  }
  check made
  ok made
from_tuple _ = err struct_error

abbrev pub codec : FixedWidth ObjectReferenceBlock
codec = record {
  struct = struct;
  check_pack = λ _. ok tt;
  to_tuple = to_tuple;
  from_tuple = from_tuple;
}

pub from_tuple-to_tuple :
    (m : ObjectReferenceBlock) → check m ≡ ok tt → from_tuple (to_tuple m) ≡ ok m
unfolding from_tuple
from_tuple-to_tuple m valid = rw (to_cache_object_kind-value m.object_kind, valid)

pub to_tuple-from_tuple :
    (vs : List ℕ) (m : ObjectReferenceBlock)
    → from_tuple vs ≡ ok m
    → (to_tuple m ≡ vs) × (check m ≡ ok tt)
unfolding from_tuple
to_tuple-from_tuple (object_kind ∷ ref_flags ∷ cache_namespace ∷ cache_key_hi ∷ cache_key_lo ∷ []) m
      h0 =
    let (object_kind_member, found_0, h1) = >>=-eq-ok (to_cache_object_kind object_kind) _ h0 in
    let value_0 = value-to_cache_object_kind object_kind object_kind_member found_0 in
    let made : ObjectReferenceBlock = record {
      object_kind = object_kind_member;
      ref_flags = ref_flags;
      cache_namespace = cache_namespace;
      cache_key_hi = cache_key_hi;
      cache_key_lo = cache_key_lo;
    } in
    let (_, valid, h2) = >>=-eq-ok (check made) _ h1 in
    let same : made ≡ m = from_ok made m h2 in (ground arith, rw (← same) valid)
to_tuple-from_tuple _ m h = cc
