-- ===== src/Metadata/TensorProfilePatch.antt =====
-- core/messages/control.py: the tensor block in the body of SESSION_PATCH.
use nnrp_py.Common.{ℕ, ◌≡◌, List, [], ◌∷◌, Result, ok, err, struct_error, arith, refl}
use nnrp_py.Struct.{Struct}
use nnrp_py.Metadata.{FixedWidth}

pub record TensorProfilePatchBlock : Type 0 where
  pub min_width : ℕ
  pub min_height : ℕ
  pub max_width : ℕ
  pub max_height : ℕ

abbrev pub struct : Struct
struct = 4 ∷ 4 ∷ 4 ∷ 4 ∷ []

abbrev pub to_tuple : TensorProfilePatchBlock → List ℕ
to_tuple m = m.min_width ∷ m.min_height ∷ m.max_width ∷ m.max_height ∷ []

unfoldable pub from_tuple : List ℕ → Result TensorProfilePatchBlock
from_tuple (min_width ∷ min_height ∷ max_width ∷ max_height ∷ []) = ok (record {
  min_width = min_width;
  min_height = min_height;
  max_width = max_width;
  max_height = max_height;
})
from_tuple _ = err struct_error

abbrev pub codec : FixedWidth TensorProfilePatchBlock
codec = record {
  struct = struct;
  check_pack = λ _. ok tt;
  to_tuple = to_tuple;
  from_tuple = from_tuple;
}

pub from_tuple-to_tuple : (m : TensorProfilePatchBlock) → from_tuple (to_tuple m) ≡ ok m
unfolding from_tuple
from_tuple-to_tuple m = refl

pub to_tuple-from_tuple :
    (vs : List ℕ) (m : TensorProfilePatchBlock) → from_tuple vs ≡ ok m → (to_tuple m ≡ vs)
unfolding from_tuple
to_tuple-from_tuple (min_width ∷ min_height ∷ max_width ∷ max_height ∷ []) m h0 = ground arith
to_tuple-from_tuple _ m h = cc
