-- ===== src/Metadata/FlowUpdate.antt =====
-- core/messages/control.py: FLOW_UPDATE. `_from_tuple` does not look at the two reserved fields.
use nnrp_py.Common.{
  ℕ, ◌≡◌, List, [], ◌∷◌, Bool, not, ◌&&◌, ◌||◌, ◌==◌, leb, bits_outside, has_bit, Result, ok, err,
  struct_error, ◌>>=◌, ◌>>◌, >>=-eq-ok, require, from_ok,
}
use nnrp_py.Struct.{Struct}
use nnrp_py.Metadata.{FixedWidth}
use nnrp_py.Metadata.ControlEnums.{
  FlowUpdateScopeKind, flow_update_scope_kind_value, to_flow_update_scope_kind,
  to_flow_update_scope_kind-value, FlowUpdateReason, flow_update_reason_value,
  to_flow_update_reason, to_flow_update_reason-value, FlowUpdateBackpressureLevel,
  flow_update_backpressure_level_value, to_flow_update_backpressure_level,
  to_flow_update_backpressure_level-value,
}

pub record FlowUpdateMetadata : Type 0 where
  pub scope_kind : FlowUpdateScopeKind
  pub update_reason : FlowUpdateReason
  pub backpressure_level : FlowUpdateBackpressureLevel
  pub connection_credit : ℕ
  pub session_credit : ℕ
  pub operation_credit : ℕ
  pub operation_id : ℕ
  pub retry_after_ms : ℕ
  pub credit_epoch : ℕ
  pub flags : ℕ

abbrev pub struct : Struct
struct = 1 ∷ 1 ∷ 1 ∷ 1 ∷ 2 ∷ 2 ∷ 2 ∷ 2 ∷ 8 ∷ 4 ∷ 4 ∷ 4 ∷ []

-- The fields that a scope must leave at zero; an operation names itself.
abbrev pub scope_allows : FlowUpdateScopeKind → FlowUpdateMetadata → Bool
scope_allows FlowUpdateScopeKind.connection m =
    m.session_credit == 0 && m.operation_credit == 0 && m.operation_id == 0
scope_allows FlowUpdateScopeKind.session m =
    m.connection_credit == 0 && m.operation_credit == 0 && m.operation_id == 0
scope_allows FlowUpdateScopeKind.operation m =
    m.connection_credit == 0 && m.session_credit == 0 && not (m.operation_id == 0)

-- `_validate`
unfoldable pub check : FlowUpdateMetadata → Result (Unit {0})
check m = do
  require (leb m.connection_credit 0xffff)
  require (leb m.session_credit 0xffff)
  require (leb m.operation_credit 0xffff)
  require (leb m.operation_id 0xffffffffffffffff)
  require (leb m.retry_after_ms 0xffffffff)
  require (leb m.credit_epoch 0xffffffff)
  require (bits_outside m.flags 0x0f == 0)
  require (m.retry_after_ms == 0 || has_bit m.flags 0x02)
  require (scope_allows m.scope_kind m)

abbrev pub to_tuple : FlowUpdateMetadata → List ℕ
to_tuple m =
    flow_update_scope_kind_value m.scope_kind
    ∷ flow_update_reason_value m.update_reason
    ∷ flow_update_backpressure_level_value m.backpressure_level
    ∷ 0
    ∷ m.connection_credit
    ∷ m.session_credit
    ∷ m.operation_credit
    ∷ 0
    ∷ m.operation_id
    ∷ m.retry_after_ms
    ∷ m.credit_epoch
    ∷ m.flags
    ∷ []

unfoldable pub from_tuple : List ℕ → Result FlowUpdateMetadata
from_tuple
      (scope_kind ∷ update_reason ∷ backpressure_level ∷ reserved0 ∷ connection_credit
        ∷ session_credit ∷ operation_credit ∷ reserved1 ∷ operation_id ∷ retry_after_ms
        ∷ credit_epoch ∷ flags ∷ []) =
    do
      scope_kind_member ← to_flow_update_scope_kind scope_kind
      update_reason_member ← to_flow_update_reason update_reason
      backpressure_level_member ← to_flow_update_backpressure_level backpressure_level
      let made : FlowUpdateMetadata = record {
        scope_kind = scope_kind_member;
        update_reason = update_reason_member;
        backpressure_level = backpressure_level_member;
        connection_credit = connection_credit;
        session_credit = session_credit;
        operation_credit = operation_credit;
        operation_id = operation_id;
        retry_after_ms = retry_after_ms;
        credit_epoch = credit_epoch;
        flags = flags;
      }
      check made
      ok made
from_tuple _ = err struct_error

abbrev pub codec : FixedWidth FlowUpdateMetadata
codec = record { struct = struct; check_pack = check; to_tuple = to_tuple; from_tuple = from_tuple }

pub from_tuple-to_tuple :
    (m : FlowUpdateMetadata) → check m ≡ ok tt → from_tuple (to_tuple m) ≡ ok m
unfolding from_tuple
from_tuple-to_tuple m valid = rw (
  to_flow_update_scope_kind-value m.scope_kind,
  to_flow_update_reason-value m.update_reason,
  to_flow_update_backpressure_level-value m.backpressure_level,
  valid,
)

-- What is read is valid, though two of its fields were not looked at.
pub check-from_tuple :
    (vs : List ℕ) (m : FlowUpdateMetadata) → from_tuple vs ≡ ok m → check m ≡ ok tt
unfolding from_tuple
check-from_tuple (s ∷ r ∷ b ∷ r0 ∷ c1 ∷ c2 ∷ c3 ∷ r1 ∷ id ∷ retry ∷ epoch ∷ flags ∷ []) m h0 =
    let (scope, found_0, h1) = >>=-eq-ok (to_flow_update_scope_kind s) _ h0 in
    let (reason, found_1, h2) = >>=-eq-ok (to_flow_update_reason r) _ h1 in
    let (level, found_2, h3) = >>=-eq-ok (to_flow_update_backpressure_level b) _ h2 in
    let made : FlowUpdateMetadata = record {
      scope_kind = scope;
      update_reason = reason;
      backpressure_level = level;
      connection_credit = c1;
      session_credit = c2;
      operation_credit = c3;
      operation_id = id;
      retry_after_ms = retry;
      credit_epoch = epoch;
      flags = flags;
    } in
    let (_, valid, h4) = >>=-eq-ok (check made) _ h3 in
    let same : made ≡ m = from_ok made m h4 in rw (← same) valid
check-from_tuple _ m h = cc
