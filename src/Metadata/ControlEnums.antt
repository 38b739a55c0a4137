-- ===== src/Metadata/ControlEnums.antt =====
-- core/messages/control.py: the enumerations that metadata carries. Aliases are not listed: a value
-- finds the first member of that value.
use nnrp_py.Common.{ℕ, ◌≡◌, refl, [], ◌∷◌, Result, ok, find_member, find_member_value}

pub data SessionPriorityClass : Type 0 where
  interactive balanced background : SessionPriorityClass

abbrev pub session_priority_class_value : SessionPriorityClass → ℕ
session_priority_class_value SessionPriorityClass.interactive = 0
session_priority_class_value SessionPriorityClass.balanced = 1
session_priority_class_value SessionPriorityClass.background = 2

unfoldable pub to_session_priority_class : ℕ → Result SessionPriorityClass
to_session_priority_class = find_member session_priority_class_value (
    SessionPriorityClass.interactive ∷ SessionPriorityClass.balanced
    ∷ SessionPriorityClass.background ∷ [])

pub to_session_priority_class-value :
    (a : SessionPriorityClass) → to_session_priority_class (session_priority_class_value a) ≡ ok a
unfolding to_session_priority_class
to_session_priority_class-value SessionPriorityClass.interactive = refl
to_session_priority_class-value _ = refl

pub value-to_session_priority_class :
    (n : ℕ) (a : SessionPriorityClass)
    → to_session_priority_class n ≡ ok a
    → session_priority_class_value a ≡ n
unfolding to_session_priority_class
value-to_session_priority_class = find_member_value session_priority_class_value (
    SessionPriorityClass.interactive ∷ SessionPriorityClass.balanced
    ∷ SessionPriorityClass.background ∷ [])

pub data CacheObjectKind : Type 0 where
  camera_block tile_index_block tensor_section_table codec_table reusable_result_object
        payload_layout_template prompt_segment tool_schema structured_event_schema :
      CacheObjectKind

abbrev pub cache_object_kind_value : CacheObjectKind → ℕ
cache_object_kind_value CacheObjectKind.camera_block = 0x0001
cache_object_kind_value CacheObjectKind.tile_index_block = 0x0002
cache_object_kind_value CacheObjectKind.tensor_section_table = 0x0003
cache_object_kind_value CacheObjectKind.codec_table = 0x0004
cache_object_kind_value CacheObjectKind.reusable_result_object = 0x0005
cache_object_kind_value CacheObjectKind.payload_layout_template = 0x0006
cache_object_kind_value CacheObjectKind.prompt_segment = 0x0007
cache_object_kind_value CacheObjectKind.tool_schema = 0x0008
cache_object_kind_value CacheObjectKind.structured_event_schema = 0x0009

unfoldable pub to_cache_object_kind : ℕ → Result CacheObjectKind
to_cache_object_kind = find_member cache_object_kind_value (
    CacheObjectKind.camera_block ∷ CacheObjectKind.tile_index_block
    ∷ CacheObjectKind.tensor_section_table ∷ CacheObjectKind.codec_table
    ∷ CacheObjectKind.reusable_result_object ∷ CacheObjectKind.payload_layout_template
    ∷ CacheObjectKind.prompt_segment ∷ CacheObjectKind.tool_schema
    ∷ CacheObjectKind.structured_event_schema ∷ [])

pub to_cache_object_kind-value :
    (a : CacheObjectKind) → to_cache_object_kind (cache_object_kind_value a) ≡ ok a
unfolding to_cache_object_kind
to_cache_object_kind-value CacheObjectKind.camera_block = refl
to_cache_object_kind-value _ = refl

pub value-to_cache_object_kind :
    (n : ℕ) (a : CacheObjectKind) → to_cache_object_kind n ≡ ok a → cache_object_kind_value a ≡ n
unfolding to_cache_object_kind
value-to_cache_object_kind = find_member_value cache_object_kind_value (
    CacheObjectKind.camera_block ∷ CacheObjectKind.tile_index_block
    ∷ CacheObjectKind.tensor_section_table ∷ CacheObjectKind.codec_table
    ∷ CacheObjectKind.reusable_result_object ∷ CacheObjectKind.payload_layout_template
    ∷ CacheObjectKind.prompt_segment ∷ CacheObjectKind.tool_schema
    ∷ CacheObjectKind.structured_event_schema ∷ [])

pub data ErrorScope : Type 0 where
  connection session frame : ErrorScope

abbrev pub error_scope_value : ErrorScope → ℕ
error_scope_value ErrorScope.connection = 0
error_scope_value ErrorScope.session = 1
error_scope_value ErrorScope.frame = 2

unfoldable pub to_error_scope : ℕ → Result ErrorScope
to_error_scope =
    find_member error_scope_value
      (ErrorScope.connection ∷ ErrorScope.session ∷ ErrorScope.frame ∷ [])

pub to_error_scope-value : (a : ErrorScope) → to_error_scope (error_scope_value a) ≡ ok a
unfolding to_error_scope
to_error_scope-value ErrorScope.connection = refl
to_error_scope-value _ = refl

pub value-to_error_scope :
    (n : ℕ) (a : ErrorScope) → to_error_scope n ≡ ok a → error_scope_value a ≡ n
unfolding to_error_scope
value-to_error_scope =
    find_member_value error_scope_value
      (ErrorScope.connection ∷ ErrorScope.session ∷ ErrorScope.frame ∷ [])

pub data CacheAckStatus : Type 0 where
  accepted rejected replaced : CacheAckStatus

abbrev pub cache_ack_status_value : CacheAckStatus → ℕ
cache_ack_status_value CacheAckStatus.accepted = 0
cache_ack_status_value CacheAckStatus.rejected = 1
cache_ack_status_value CacheAckStatus.replaced = 2

unfoldable pub to_cache_ack_status : ℕ → Result CacheAckStatus
to_cache_ack_status =
    find_member cache_ack_status_value
      (CacheAckStatus.accepted ∷ CacheAckStatus.rejected ∷ CacheAckStatus.replaced ∷ [])

pub to_cache_ack_status-value :
    (a : CacheAckStatus) → to_cache_ack_status (cache_ack_status_value a) ≡ ok a
unfolding to_cache_ack_status
to_cache_ack_status-value CacheAckStatus.accepted = refl
to_cache_ack_status-value _ = refl

pub value-to_cache_ack_status :
    (n : ℕ) (a : CacheAckStatus) → to_cache_ack_status n ≡ ok a → cache_ack_status_value a ≡ n
unfolding to_cache_ack_status
value-to_cache_ack_status =
    find_member_value cache_ack_status_value
      (CacheAckStatus.accepted ∷ CacheAckStatus.rejected ∷ CacheAckStatus.replaced ∷ [])

pub data CacheInvalidateScope : Type 0 where
  whole_session namespace object_kind object_key : CacheInvalidateScope

abbrev pub cache_invalidate_scope_value : CacheInvalidateScope → ℕ
cache_invalidate_scope_value CacheInvalidateScope.whole_session = 0
cache_invalidate_scope_value CacheInvalidateScope.namespace = 1
cache_invalidate_scope_value CacheInvalidateScope.object_kind = 2
cache_invalidate_scope_value CacheInvalidateScope.object_key = 3

unfoldable pub to_cache_invalidate_scope : ℕ → Result CacheInvalidateScope
to_cache_invalidate_scope = find_member cache_invalidate_scope_value (
    CacheInvalidateScope.whole_session ∷ CacheInvalidateScope.namespace
    ∷ CacheInvalidateScope.object_kind ∷ CacheInvalidateScope.object_key ∷ [])

pub to_cache_invalidate_scope-value :
    (a : CacheInvalidateScope) → to_cache_invalidate_scope (cache_invalidate_scope_value a) ≡ ok a
unfolding to_cache_invalidate_scope
to_cache_invalidate_scope-value CacheInvalidateScope.whole_session = refl
to_cache_invalidate_scope-value _ = refl

pub value-to_cache_invalidate_scope :
    (n : ℕ) (a : CacheInvalidateScope)
    → to_cache_invalidate_scope n ≡ ok a
    → cache_invalidate_scope_value a ≡ n
unfolding to_cache_invalidate_scope
value-to_cache_invalidate_scope = find_member_value cache_invalidate_scope_value (
    CacheInvalidateScope.whole_session ∷ CacheInvalidateScope.namespace
    ∷ CacheInvalidateScope.object_kind ∷ CacheInvalidateScope.object_key ∷ [])

pub data SessionPatchAckStatus : Type 0 where
  accepted partially_applied rejected : SessionPatchAckStatus

abbrev pub session_patch_ack_status_value : SessionPatchAckStatus → ℕ
session_patch_ack_status_value SessionPatchAckStatus.accepted = 0
session_patch_ack_status_value SessionPatchAckStatus.partially_applied = 1
session_patch_ack_status_value SessionPatchAckStatus.rejected = 2

unfoldable pub to_session_patch_ack_status : ℕ → Result SessionPatchAckStatus
to_session_patch_ack_status = find_member session_patch_ack_status_value (
    SessionPatchAckStatus.accepted ∷ SessionPatchAckStatus.partially_applied
    ∷ SessionPatchAckStatus.rejected ∷ [])

pub to_session_patch_ack_status-value :
    (a : SessionPatchAckStatus)
    → to_session_patch_ack_status (session_patch_ack_status_value a) ≡ ok a
unfolding to_session_patch_ack_status
to_session_patch_ack_status-value SessionPatchAckStatus.accepted = refl
to_session_patch_ack_status-value _ = refl

pub value-to_session_patch_ack_status :
    (n : ℕ) (a : SessionPatchAckStatus)
    → to_session_patch_ack_status n ≡ ok a
    → session_patch_ack_status_value a ≡ n
unfolding to_session_patch_ack_status
value-to_session_patch_ack_status = find_member_value session_patch_ack_status_value (
    SessionPatchAckStatus.accepted ∷ SessionPatchAckStatus.partially_applied
    ∷ SessionPatchAckStatus.rejected ∷ [])

pub data SessionPatchRejectReason : Type 0 where
  none unsupported_field invalid_range unsupported_strategy invalid_lane_mask rate_limited :
      SessionPatchRejectReason

abbrev pub session_patch_reject_reason_value : SessionPatchRejectReason → ℕ
session_patch_reject_reason_value SessionPatchRejectReason.none = 0
session_patch_reject_reason_value SessionPatchRejectReason.unsupported_field = 1
session_patch_reject_reason_value SessionPatchRejectReason.invalid_range = 2
session_patch_reject_reason_value SessionPatchRejectReason.unsupported_strategy = 3
session_patch_reject_reason_value SessionPatchRejectReason.invalid_lane_mask = 4
session_patch_reject_reason_value SessionPatchRejectReason.rate_limited = 5

unfoldable pub to_session_patch_reject_reason : ℕ → Result SessionPatchRejectReason
to_session_patch_reject_reason = find_member session_patch_reject_reason_value (
    SessionPatchRejectReason.none ∷ SessionPatchRejectReason.unsupported_field
    ∷ SessionPatchRejectReason.invalid_range ∷ SessionPatchRejectReason.unsupported_strategy
    ∷ SessionPatchRejectReason.invalid_lane_mask ∷ SessionPatchRejectReason.rate_limited ∷ [])

pub to_session_patch_reject_reason-value :
    (a : SessionPatchRejectReason)
    → to_session_patch_reject_reason (session_patch_reject_reason_value a) ≡ ok a
unfolding to_session_patch_reject_reason
to_session_patch_reject_reason-value SessionPatchRejectReason.none = refl
to_session_patch_reject_reason-value _ = refl

pub value-to_session_patch_reject_reason :
    (n : ℕ) (a : SessionPatchRejectReason)
    → to_session_patch_reject_reason n ≡ ok a
    → session_patch_reject_reason_value a ≡ n
unfolding to_session_patch_reject_reason
value-to_session_patch_reject_reason = find_member_value session_patch_reject_reason_value (
    SessionPatchRejectReason.none ∷ SessionPatchRejectReason.unsupported_field
    ∷ SessionPatchRejectReason.invalid_range ∷ SessionPatchRejectReason.unsupported_strategy
    ∷ SessionPatchRejectReason.invalid_lane_mask ∷ SessionPatchRejectReason.rate_limited ∷ [])

pub data FlowUpdateScopeKind : Type 0 where
  connection session operation : FlowUpdateScopeKind

abbrev pub flow_update_scope_kind_value : FlowUpdateScopeKind → ℕ
flow_update_scope_kind_value FlowUpdateScopeKind.connection = 0
flow_update_scope_kind_value FlowUpdateScopeKind.session = 1
flow_update_scope_kind_value FlowUpdateScopeKind.operation = 2

unfoldable pub to_flow_update_scope_kind : ℕ → Result FlowUpdateScopeKind
to_flow_update_scope_kind = find_member flow_update_scope_kind_value (
    FlowUpdateScopeKind.connection ∷ FlowUpdateScopeKind.session ∷ FlowUpdateScopeKind.operation
    ∷ [])

pub to_flow_update_scope_kind-value :
    (a : FlowUpdateScopeKind) → to_flow_update_scope_kind (flow_update_scope_kind_value a) ≡ ok a
unfolding to_flow_update_scope_kind
to_flow_update_scope_kind-value FlowUpdateScopeKind.connection = refl
to_flow_update_scope_kind-value _ = refl

pub value-to_flow_update_scope_kind :
    (n : ℕ) (a : FlowUpdateScopeKind)
    → to_flow_update_scope_kind n ≡ ok a
    → flow_update_scope_kind_value a ≡ n
unfolding to_flow_update_scope_kind
value-to_flow_update_scope_kind = find_member_value flow_update_scope_kind_value (
    FlowUpdateScopeKind.connection ∷ FlowUpdateScopeKind.session ∷ FlowUpdateScopeKind.operation
    ∷ [])

pub data FlowUpdateReason : Type 0 where
  grant reduce pause resume congestion : FlowUpdateReason

abbrev pub flow_update_reason_value : FlowUpdateReason → ℕ
flow_update_reason_value FlowUpdateReason.grant = 0
flow_update_reason_value FlowUpdateReason.reduce = 1
flow_update_reason_value FlowUpdateReason.pause = 2
flow_update_reason_value FlowUpdateReason.resume = 3
flow_update_reason_value FlowUpdateReason.congestion = 4

unfoldable pub to_flow_update_reason : ℕ → Result FlowUpdateReason
to_flow_update_reason = find_member flow_update_reason_value (
    FlowUpdateReason.grant ∷ FlowUpdateReason.reduce ∷ FlowUpdateReason.pause
    ∷ FlowUpdateReason.resume ∷ FlowUpdateReason.congestion ∷ [])

pub to_flow_update_reason-value :
    (a : FlowUpdateReason) → to_flow_update_reason (flow_update_reason_value a) ≡ ok a
unfolding to_flow_update_reason
to_flow_update_reason-value FlowUpdateReason.grant = refl
to_flow_update_reason-value _ = refl

pub value-to_flow_update_reason :
    (n : ℕ) (a : FlowUpdateReason) → to_flow_update_reason n ≡ ok a → flow_update_reason_value a ≡ n
unfolding to_flow_update_reason
value-to_flow_update_reason = find_member_value flow_update_reason_value (
    FlowUpdateReason.grant ∷ FlowUpdateReason.reduce ∷ FlowUpdateReason.pause
    ∷ FlowUpdateReason.resume ∷ FlowUpdateReason.congestion ∷ [])

pub data FlowUpdateBackpressureLevel : Type 0 where
  none soft hard : FlowUpdateBackpressureLevel

abbrev pub flow_update_backpressure_level_value : FlowUpdateBackpressureLevel → ℕ
flow_update_backpressure_level_value FlowUpdateBackpressureLevel.none = 0
flow_update_backpressure_level_value FlowUpdateBackpressureLevel.soft = 1
flow_update_backpressure_level_value FlowUpdateBackpressureLevel.hard = 2

unfoldable pub to_flow_update_backpressure_level : ℕ → Result FlowUpdateBackpressureLevel
to_flow_update_backpressure_level = find_member flow_update_backpressure_level_value (
    FlowUpdateBackpressureLevel.none ∷ FlowUpdateBackpressureLevel.soft
    ∷ FlowUpdateBackpressureLevel.hard ∷ [])

pub to_flow_update_backpressure_level-value :
    (a : FlowUpdateBackpressureLevel)
    → to_flow_update_backpressure_level (flow_update_backpressure_level_value a) ≡ ok a
unfolding to_flow_update_backpressure_level
to_flow_update_backpressure_level-value FlowUpdateBackpressureLevel.none = refl
to_flow_update_backpressure_level-value _ = refl

pub value-to_flow_update_backpressure_level :
    (n : ℕ) (a : FlowUpdateBackpressureLevel)
    → to_flow_update_backpressure_level n ≡ ok a
    → flow_update_backpressure_level_value a ≡ n
unfolding to_flow_update_backpressure_level
value-to_flow_update_backpressure_level = find_member_value flow_update_backpressure_level_value (
    FlowUpdateBackpressureLevel.none ∷ FlowUpdateBackpressureLevel.soft
    ∷ FlowUpdateBackpressureLevel.hard ∷ [])

pub data ResultHintBudgetPolicy : Type 0 where
  none full partial stale_reuse drop : ResultHintBudgetPolicy

abbrev pub result_hint_budget_policy_value : ResultHintBudgetPolicy → ℕ
result_hint_budget_policy_value ResultHintBudgetPolicy.none = 0
result_hint_budget_policy_value ResultHintBudgetPolicy.full = 1
result_hint_budget_policy_value ResultHintBudgetPolicy.partial = 2
result_hint_budget_policy_value ResultHintBudgetPolicy.stale_reuse = 3
result_hint_budget_policy_value ResultHintBudgetPolicy.drop = 4

unfoldable pub to_result_hint_budget_policy : ℕ → Result ResultHintBudgetPolicy
to_result_hint_budget_policy = find_member result_hint_budget_policy_value (
    ResultHintBudgetPolicy.none ∷ ResultHintBudgetPolicy.full ∷ ResultHintBudgetPolicy.partial
    ∷ ResultHintBudgetPolicy.stale_reuse ∷ ResultHintBudgetPolicy.drop ∷ [])

pub to_result_hint_budget_policy-value :
    (a : ResultHintBudgetPolicy)
    → to_result_hint_budget_policy (result_hint_budget_policy_value a) ≡ ok a
unfolding to_result_hint_budget_policy
to_result_hint_budget_policy-value ResultHintBudgetPolicy.none = refl
to_result_hint_budget_policy-value _ = refl

pub value-to_result_hint_budget_policy :
    (n : ℕ) (a : ResultHintBudgetPolicy)
    → to_result_hint_budget_policy n ≡ ok a
    → result_hint_budget_policy_value a ≡ n
unfolding to_result_hint_budget_policy
value-to_result_hint_budget_policy = find_member_value result_hint_budget_policy_value (
    ResultHintBudgetPolicy.none ∷ ResultHintBudgetPolicy.full ∷ ResultHintBudgetPolicy.partial
    ∷ ResultHintBudgetPolicy.stale_reuse ∷ ResultHintBudgetPolicy.drop ∷ [])

pub data ResultHintCongestionState : Type 0 where
  none steady elevated saturated : ResultHintCongestionState

abbrev pub result_hint_congestion_state_value : ResultHintCongestionState → ℕ
result_hint_congestion_state_value ResultHintCongestionState.none = 0
result_hint_congestion_state_value ResultHintCongestionState.steady = 1
result_hint_congestion_state_value ResultHintCongestionState.elevated = 2
result_hint_congestion_state_value ResultHintCongestionState.saturated = 3

unfoldable pub to_result_hint_congestion_state : ℕ → Result ResultHintCongestionState
to_result_hint_congestion_state = find_member result_hint_congestion_state_value (
    ResultHintCongestionState.none ∷ ResultHintCongestionState.steady
    ∷ ResultHintCongestionState.elevated ∷ ResultHintCongestionState.saturated ∷ [])

pub to_result_hint_congestion_state-value :
    (a : ResultHintCongestionState)
    → to_result_hint_congestion_state (result_hint_congestion_state_value a) ≡ ok a
unfolding to_result_hint_congestion_state
to_result_hint_congestion_state-value ResultHintCongestionState.none = refl
to_result_hint_congestion_state-value _ = refl

pub value-to_result_hint_congestion_state :
    (n : ℕ) (a : ResultHintCongestionState)
    → to_result_hint_congestion_state n ≡ ok a
    → result_hint_congestion_state_value a ≡ n
unfolding to_result_hint_congestion_state
value-to_result_hint_congestion_state = find_member_value result_hint_congestion_state_value (
    ResultHintCongestionState.none ∷ ResultHintCongestionState.steady
    ∷ ResultHintCongestionState.elevated ∷ ResultHintCongestionState.saturated ∷ [])

pub data ResultHintReason : Type 0 where
  none queue_full server_busy budget_exceeded superseded : ResultHintReason

abbrev pub result_hint_reason_value : ResultHintReason → ℕ
result_hint_reason_value ResultHintReason.none = 0
result_hint_reason_value ResultHintReason.queue_full = 1
result_hint_reason_value ResultHintReason.server_busy = 2
result_hint_reason_value ResultHintReason.budget_exceeded = 3
result_hint_reason_value ResultHintReason.superseded = 4

unfoldable pub to_result_hint_reason : ℕ → Result ResultHintReason
to_result_hint_reason = find_member result_hint_reason_value (
    ResultHintReason.none ∷ ResultHintReason.queue_full ∷ ResultHintReason.server_busy
    ∷ ResultHintReason.budget_exceeded ∷ ResultHintReason.superseded ∷ [])

pub to_result_hint_reason-value :
    (a : ResultHintReason) → to_result_hint_reason (result_hint_reason_value a) ≡ ok a
unfolding to_result_hint_reason
to_result_hint_reason-value ResultHintReason.none = refl
to_result_hint_reason-value _ = refl

pub value-to_result_hint_reason :
    (n : ℕ) (a : ResultHintReason) → to_result_hint_reason n ≡ ok a → result_hint_reason_value a ≡ n
unfolding to_result_hint_reason
value-to_result_hint_reason = find_member_value result_hint_reason_value (
    ResultHintReason.none ∷ ResultHintReason.queue_full ∷ ResultHintReason.server_busy
    ∷ ResultHintReason.budget_exceeded ∷ ResultHintReason.superseded ∷ [])

pub data TransportId : Type 0 where
  unspecified quic tcp ipc websocket : TransportId

abbrev pub transport_id_value : TransportId → ℕ
transport_id_value TransportId.unspecified = 0
transport_id_value TransportId.quic = 1
transport_id_value TransportId.tcp = 2
transport_id_value TransportId.ipc = 3
transport_id_value TransportId.websocket = 4

unfoldable pub to_transport_id : ℕ → Result TransportId
to_transport_id = find_member transport_id_value (
    TransportId.unspecified ∷ TransportId.quic ∷ TransportId.tcp ∷ TransportId.ipc
    ∷ TransportId.websocket ∷ [])

pub to_transport_id-value : (a : TransportId) → to_transport_id (transport_id_value a) ≡ ok a
unfolding to_transport_id
to_transport_id-value TransportId.unspecified = refl
to_transport_id-value _ = refl

pub value-to_transport_id :
    (n : ℕ) (a : TransportId) → to_transport_id n ≡ ok a → transport_id_value a ≡ n
unfolding to_transport_id
value-to_transport_id = find_member_value transport_id_value (
    TransportId.unspecified ∷ TransportId.quic ∷ TransportId.tcp ∷ TransportId.ipc
    ∷ TransportId.websocket ∷ [])

pub data LossTolerance : Type 0 where
  strict best_effort low_latency fire_and_forget : LossTolerance

abbrev pub loss_tolerance_value : LossTolerance → ℕ
loss_tolerance_value LossTolerance.strict = 0
loss_tolerance_value LossTolerance.best_effort = 1
loss_tolerance_value LossTolerance.low_latency = 2
loss_tolerance_value LossTolerance.fire_and_forget = 3

unfoldable pub to_loss_tolerance : ℕ → Result LossTolerance
to_loss_tolerance = find_member loss_tolerance_value (
    LossTolerance.strict ∷ LossTolerance.best_effort ∷ LossTolerance.low_latency
    ∷ LossTolerance.fire_and_forget ∷ [])

pub to_loss_tolerance-value :
    (a : LossTolerance) → to_loss_tolerance (loss_tolerance_value a) ≡ ok a
unfolding to_loss_tolerance
to_loss_tolerance-value LossTolerance.strict = refl
to_loss_tolerance-value _ = refl

pub value-to_loss_tolerance :
    (n : ℕ) (a : LossTolerance) → to_loss_tolerance n ≡ ok a → loss_tolerance_value a ≡ n
unfolding to_loss_tolerance
value-to_loss_tolerance = find_member_value loss_tolerance_value (
    LossTolerance.strict ∷ LossTolerance.best_effort ∷ LossTolerance.low_latency
    ∷ LossTolerance.fire_and_forget ∷ [])
