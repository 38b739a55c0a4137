-- ===== src/Metadata/ResultHint.antt =====
-- core/messages/control.py: RESULT_HINT. Its `_validate` refuses only negative numbers.
use nnrp_py.Common.{ℕ, ◌≡◌, List, [], ◌∷◌, Result, ok, err, struct_error, ◌>>=◌, >>=-eq-ok, arith}
use nnrp_py.Struct.{Struct}
use nnrp_py.Metadata.{FixedWidth}
use nnrp_py.Metadata.ControlEnums.{
  ResultHintBudgetPolicy, result_hint_budget_policy_value, to_result_hint_budget_policy,
  to_result_hint_budget_policy-value, value-to_result_hint_budget_policy, ResultHintCongestionState,
  result_hint_congestion_state_value, to_result_hint_congestion_state,
  to_result_hint_congestion_state-value, value-to_result_hint_congestion_state, ResultHintReason,
  result_hint_reason_value, to_result_hint_reason, to_result_hint_reason-value,
  value-to_result_hint_reason,
}

pub record ResultHintMetadata : Type 0 where
  pub applied_budget_policy : ResultHintBudgetPolicy
  pub congestion_state : ResultHintCongestionState
  pub reason : ResultHintReason
  pub retry_after_ms : ℕ

abbrev pub struct : Struct
struct = 4 ∷ 4 ∷ 4 ∷ 4 ∷ []

abbrev pub to_tuple : ResultHintMetadata → List ℕ
to_tuple m =
    result_hint_budget_policy_value m.applied_budget_policy
    ∷ result_hint_congestion_state_value m.congestion_state
    ∷ result_hint_reason_value m.reason
    ∷ m.retry_after_ms
    ∷ []

unfoldable pub from_tuple : List ℕ → Result ResultHintMetadata
from_tuple (applied_budget_policy ∷ congestion_state ∷ reason ∷ retry_after_ms ∷ []) = do
  applied_budget_policy_member ← to_result_hint_budget_policy applied_budget_policy
  congestion_state_member ← to_result_hint_congestion_state congestion_state
  reason_member ← to_result_hint_reason reason
  ok (record {
    applied_budget_policy = applied_budget_policy_member;
    congestion_state = congestion_state_member;
    reason = reason_member;
    retry_after_ms = retry_after_ms;
  })
from_tuple _ = err struct_error

abbrev pub codec : FixedWidth ResultHintMetadata
codec = record {
  struct = struct;
  check_pack = λ _. ok tt;
  to_tuple = to_tuple;
  from_tuple = from_tuple;
}

pub from_tuple-to_tuple : (m : ResultHintMetadata) → from_tuple (to_tuple m) ≡ ok m
unfolding from_tuple
from_tuple-to_tuple m = rw (
  to_result_hint_budget_policy-value m.applied_budget_policy,
  to_result_hint_congestion_state-value m.congestion_state,
  to_result_hint_reason-value m.reason,
)

pub to_tuple-from_tuple :
    (vs : List ℕ) (m : ResultHintMetadata) → from_tuple vs ≡ ok m → (to_tuple m ≡ vs)
unfolding from_tuple
to_tuple-from_tuple (applied_budget_policy ∷ congestion_state ∷ reason ∷ retry_after_ms ∷ []) m h0 =
    let (applied_budget_policy_member, found_0, h1) =
      >>=-eq-ok (to_result_hint_budget_policy applied_budget_policy) _ h0 in
    let value_0 =
      value-to_result_hint_budget_policy applied_budget_policy applied_budget_policy_member
        found_0 in
    let (congestion_state_member, found_1, h2) =
      >>=-eq-ok (to_result_hint_congestion_state congestion_state) _ h1 in
    let value_1 =
      value-to_result_hint_congestion_state congestion_state congestion_state_member found_1 in
    let (reason_member, found_2, h3) = >>=-eq-ok (to_result_hint_reason reason) _ h2 in
    let value_2 = value-to_result_hint_reason reason reason_member found_2 in ground arith
to_tuple-from_tuple _ m h = cc
