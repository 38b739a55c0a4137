-- ===== src/Metadata/InlineObjectBlock.antt =====
-- core/messages/data.py: the header of an inline object block.
use nnrp_py.Common.{
  ℕ, ◌≡◌, List, [], ◌∷◌, ◌==◌, Result, ok, err, struct_error, ◌>>=◌, ◌>>◌, >>=-eq-ok, require,
  from_ok, arith,
}
use nnrp_py.Struct.{Struct}
use nnrp_py.Metadata.{FixedWidth}
use nnrp_py.Metadata.ControlEnums.{
  CacheObjectKind, cache_object_kind_value, to_cache_object_kind, to_cache_object_kind-value,
  value-to_cache_object_kind,
}

pub record InlineObjectBlockHeader : Type 0 where
  pub object_kind : CacheObjectKind
  pub object_flags : ℕ
  pub profile_id : ℕ
  pub reserved0 : ℕ
  pub object_bytes : ℕ
  pub reserved1 : ℕ

abbrev pub struct : Struct
struct = 2 ∷ 2 ∷ 2 ∷ 2 ∷ 4 ∷ 4 ∷ []

-- `__post_init__`
unfoldable pub check : InlineObjectBlockHeader → Result (Unit {0})
check m = do require (m.object_flags == 0); require (m.reserved0 == 0); require (m.reserved1 == 0)

abbrev pub to_tuple : InlineObjectBlockHeader → List ℕ
to_tuple m =
    cache_object_kind_value m.object_kind
    ∷ m.object_flags
    ∷ m.profile_id
    ∷ m.reserved0
    ∷ m.object_bytes
    ∷ m.reserved1
    ∷ []

unfoldable pub from_tuple : List ℕ → Result InlineObjectBlockHeader
from_tuple (object_kind ∷ object_flags ∷ profile_id ∷ reserved0 ∷ object_bytes ∷ reserved1 ∷ []) =
    do
      object_kind_member ← to_cache_object_kind object_kind
      let made : InlineObjectBlockHeader = record {
        object_kind = object_kind_member;
        object_flags = object_flags;
        profile_id = profile_id;
        reserved0 = reserved0;
        object_bytes = object_bytes;
        reserved1 = reserved1;
      }
      check made
      ok made
from_tuple _ = err struct_error

abbrev pub codec : FixedWidth InlineObjectBlockHeader
codec = record {
  struct = struct;
  check_pack = λ _. ok tt;
  to_tuple = to_tuple;
  from_tuple = from_tuple;
}

pub from_tuple-to_tuple :
    (m : InlineObjectBlockHeader) → check m ≡ ok tt → from_tuple (to_tuple m) ≡ ok m
unfolding from_tuple
from_tuple-to_tuple m valid = rw (to_cache_object_kind-value m.object_kind, valid)

pub to_tuple-from_tuple :
    (vs : List ℕ) (m : InlineObjectBlockHeader)
    → from_tuple vs ≡ ok m
    → (to_tuple m ≡ vs) × (check m ≡ ok tt)
unfolding from_tuple
to_tuple-from_tuple
      (object_kind ∷ object_flags ∷ profile_id ∷ reserved0 ∷ object_bytes ∷ reserved1 ∷ []) m h0 =
    let (object_kind_member, found_0, h1) = >>=-eq-ok (to_cache_object_kind object_kind) _ h0 in
    let value_0 = value-to_cache_object_kind object_kind object_kind_member found_0 in
    let made : InlineObjectBlockHeader = record {
      object_kind = object_kind_member;
      object_flags = object_flags;
      profile_id = profile_id;
      reserved0 = reserved0;
      object_bytes = object_bytes;
      reserved1 = reserved1;
    } in
    let (_, valid, h2) = >>=-eq-ok (check made) _ h1 in
    let same : made ≡ m = from_ok made m h2 in (ground arith, rw (← same) valid)
to_tuple-from_tuple _ m h = cc
