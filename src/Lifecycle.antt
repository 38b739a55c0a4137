-- ===== src/Lifecycle.antt =====
-- lifecycle.py: the snapshots of sessions and of a connection. The classes that the fields must
-- have (the TypeError branches) are the types here.
pub mod Sessions
use nnrp_py.Common.{
  ℕ, ◌-◌, ◌^◌, ◌≡◌, List, [], ◌∷◌, Bool, true, false, not, ◌&&◌, ◌||◌, ◌==◌, leb, if◌then◌else◌,
  length, map, Result, ok, ◌>>=◌, ◌>>◌, require,
}
use nnrp_py.Metadata.ControlEnums.{SessionPriorityClass}

pub data ConnectionLifecycleState : Type 0 where
  open_state closing_state closed_state : ConnectionLifecycleState

pub data SessionLifecycleState : Type 0 where
  opened resumed closing draining closed : SessionLifecycleState

pub record SessionLifecycleSnapshot : Type 0 where
  pub session_id : ℕ
  pub state : SessionLifecycleState
  pub profile_id : ℕ
  pub priority_class : SessionPriorityClass
  pub schema_id : ℕ
  pub schema_version : ℕ
  pub max_in_flight_operations : ℕ
  pub route_scope_id : ℕ
  pub last_operation_id : ℕ
  pub session_error_code : ℕ

unfoldable pub require_unsigned : ℕ → ℕ → Bool → Result (Unit {0})
require_unsigned value bits nonzero =
    require (leb (if nonzero then 1 else 0) value && leb value (2 ^ bits - 1))

-- `SessionLifecycleSnapshot.__post_init__`
unfoldable pub check_session : SessionLifecycleSnapshot → Result (Unit {0})
unfolding require_unsigned
check_session s = do
  require_unsigned s.session_id 32 true
  require_unsigned s.profile_id 16 false
  require_unsigned s.schema_id 32 false
  require_unsigned s.schema_version 32 false
  require_unsigned s.max_in_flight_operations 16 false
  require_unsigned s.route_scope_id 32 false
  require_unsigned s.last_operation_id 64 false
  require_unsigned s.session_error_code 32 false

abbrev pub accepts_session_scoped_messages : SessionLifecycleState → Bool
accepts_session_scoped_messages opened = true
accepts_session_scoped_messages resumed = true
accepts_session_scoped_messages closing = true
accepts_session_scoped_messages draining = true
accepts_session_scoped_messages closed = false

abbrev pub accepts_new_operations : SessionLifecycleState → Bool
accepts_new_operations opened = true
accepts_new_operations resumed = true
accepts_new_operations _ = false

-- The state, with the sessions.
pub record ConnectionLifecycleSnapshot : Type 0 where
  pub state : ConnectionLifecycleState
  pub sessions : List SessionLifecycleSnapshot

-- `sorted(sessions, key=...)`, which keeps the order of equal keys.
unfoldable pub place_session :
    SessionLifecycleSnapshot → List SessionLifecycleSnapshot → List SessionLifecycleSnapshot
place_session s [] = s ∷ []
place_session s (t ∷ ts) =
    if leb s.session_id t.session_id then s ∷ t ∷ ts else t ∷ place_session s ts

unfoldable pub sort_sessions : List SessionLifecycleSnapshot → List SessionLifecycleSnapshot
unfolding place_session
sort_sessions [] = []
sort_sessions (s ∷ ss) = place_session s (sort_sessions ss)

abbrev pub holds_id : ℕ → List ℕ → Bool
holds_id i [] = false
holds_id i (j ∷ ids) = (i == j) || holds_id i ids

-- The elements of the set of a list.
abbrev pub distinct : List ℕ → List ℕ
distinct [] = []
distinct (i ∷ ids) = if holds_id i ids then distinct ids else i ∷ distinct ids

abbrev pub is_session_closed : SessionLifecycleState → Bool
is_session_closed closed = true
is_session_closed _ = false

abbrev pub is_connection_closed : ConnectionLifecycleState → Bool
is_connection_closed closed_state = true
is_connection_closed _ = false

abbrev pub any_not_closed : List SessionLifecycleSnapshot → Bool
any_not_closed [] = false
any_not_closed (s ∷ ss) = not (is_session_closed s.state) || any_not_closed ss

abbrev pub ids_of : List SessionLifecycleSnapshot → List ℕ
ids_of ss = map (λ (s : SessionLifecycleSnapshot). s.session_id) ss

-- `ConnectionLifecycleSnapshot(state, sessions)`
unfoldable pub connection_snapshot :
    ConnectionLifecycleState → List SessionLifecycleSnapshot → Result ConnectionLifecycleSnapshot
unfolding sort_sessions
connection_snapshot state sessions = do
  let ordered = sort_sessions sessions
  require (length (distinct (ids_of ordered)) == length ordered)
  require (not (is_connection_closed state && any_not_closed ordered))
  ok (record { state = state; sessions = ordered })
