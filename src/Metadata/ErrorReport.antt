-- ===== src/Metadata/ErrorReport.antt =====
-- core/messages/control.py: ERROR.
use nnrp_py.Common.{ℕ, ◌≡◌, List, [], ◌∷◌, Result, ok, err, struct_error, ◌>>=◌, >>=-eq-ok, arith}
use nnrp_py.Struct.{Struct}
use nnrp_py.Metadata.{FixedWidth}
use nnrp_py.Metadata.ControlEnums.{
  ErrorScope, error_scope_value, to_error_scope, to_error_scope-value, value-to_error_scope,
}

pub record ErrorMetadata : Type 0 where
  pub error_code : ℕ
  pub error_scope : ErrorScope
  pub is_fatal : ℕ
  pub retry_after_ms : ℕ
  pub related_session_id : ℕ
  pub related_frame_id : ℕ
  pub related_view_id : ℕ
  pub diagnostic_bytes : ℕ

abbrev pub struct : Struct
struct = 4 ∷ 4 ∷ 4 ∷ 4 ∷ 4 ∷ 4 ∷ 4 ∷ 4 ∷ []

abbrev pub to_tuple : ErrorMetadata → List ℕ
to_tuple m =
    m.error_code
    ∷ error_scope_value m.error_scope
    ∷ m.is_fatal
    ∷ m.retry_after_ms
    ∷ m.related_session_id
    ∷ m.related_frame_id
    ∷ m.related_view_id
    ∷ m.diagnostic_bytes
    ∷ []

unfoldable pub from_tuple : List ℕ → Result ErrorMetadata
from_tuple
      (error_code ∷ error_scope ∷ is_fatal ∷ retry_after_ms ∷ related_session_id ∷ related_frame_id
        ∷ related_view_id ∷ diagnostic_bytes ∷ []) =
    do
      error_scope_member ← to_error_scope error_scope
      ok (record {
        error_code = error_code;
        error_scope = error_scope_member;
        is_fatal = is_fatal;
        retry_after_ms = retry_after_ms;
        related_session_id = related_session_id;
        related_frame_id = related_frame_id;
        related_view_id = related_view_id;
        diagnostic_bytes = diagnostic_bytes;
      })
from_tuple _ = err struct_error

abbrev pub codec : FixedWidth ErrorMetadata
codec = record {
  struct = struct;
  check_pack = λ _. ok tt;
  to_tuple = to_tuple;
  from_tuple = from_tuple;
}

pub from_tuple-to_tuple : (m : ErrorMetadata) → from_tuple (to_tuple m) ≡ ok m
unfolding from_tuple
from_tuple-to_tuple m = rw (to_error_scope-value m.error_scope)

pub to_tuple-from_tuple :
    (vs : List ℕ) (m : ErrorMetadata) → from_tuple vs ≡ ok m → (to_tuple m ≡ vs)
unfolding from_tuple
to_tuple-from_tuple
      (error_code ∷ error_scope ∷ is_fatal ∷ retry_after_ms ∷ related_session_id ∷ related_frame_id
        ∷ related_view_id ∷ diagnostic_bytes ∷ [])
      m h0 =
    let (error_scope_member, found_0, h1) = >>=-eq-ok (to_error_scope error_scope) _ h0 in
    let value_0 = value-to_error_scope error_scope error_scope_member found_0 in ground arith
to_tuple-from_tuple _ m h = cc
