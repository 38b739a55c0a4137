-- ===== src/Client/Submit.antt =====
-- client/transport.py: `ClientSession.send_submit` and the frame ids of a session that
-- `migrate_session` has moved to another transport. A call awaits the connection between its test of
-- the frame id and its update of the session, so that it is two steps, and the steps of several calls
-- may lie between each other; the connection may return or raise whatever it wants for each packet.
pub mod Order
use nnrp_py.Common.{
  ℕ, ◌-◌, Bool, true, false, not, ◌&&◌, ◌||◌, Option, none, some, List, [], ◌∷◌, ltb, leb, ◌==◌,
  if◌then◌else◌, Result, ok, err, Error, ◌>>=◌, ◌>>◌, require, ◌≡◌,
}
use nnrp_py.Struct.{Bytes}
use nnrp_py.Header.Enums.{WireFormat, MessageType}
use nnrp_py.Metadata
use nnrp_py.Metadata.FrameSubmit
use nnrp_py.Metadata.FrameSubmit.{FrameSubmitMetadata}
use nnrp_py.Packet
use nnrp_py.Packet.{NnrpPacket}

-- The two private fields of `ClientSession`, and its session id.
pub record ClientSession : Type 0 where
  pub session_id : ℕ
  pub current_min_frame_id : ℕ
  pub current_last_submitted_frame_id : Option ℕ

pub record SubmitHeaderContext : Type 0 where
  pub flags : ℕ
  pub view_id : ℕ
  pub route_id : ℕ
  pub trace_id : ℕ

pub record SubmitRequest : Type 0 where
  pub operation_id : ℕ
  pub frame_id : ℕ
  pub header : SubmitHeaderContext
  pub metadata : FrameSubmitMetadata
  pub body : Bytes

abbrev pub is_some : {A : Type 0} → Option A → Bool
is_some none = false
is_some (some a) = true

-- The session that `migrate_session` yields for a SESSION_MIGRATE_ACK.
unfoldable pub migrated : ℕ → ℕ → ClientSession
migrated session_id resume_from_frame_id = record {
  session_id = session_id;
  current_min_frame_id = resume_from_frame_id;
  current_last_submitted_frame_id =
      if ltb 0 resume_from_frame_id then some (resume_from_frame_id - 1) else none;
}

-- The test before and after the packet is sent.
abbrev pub is_tracked : ClientSession → Bool
is_tracked s = ltb 0 s.current_min_frame_id || is_some s.current_last_submitted_frame_id

abbrev pub is_after : Option ℕ → ℕ → Bool
is_after none frame_id = true
is_after (some last) frame_id = not (leb frame_id last)

unfoldable pub validate_migrated_current_frame_id : ClientSession → ℕ → Result (Unit {0})
validate_migrated_current_frame_id s frame_id = do
  require (not (ltb 0 s.current_min_frame_id && ltb frame_id s.current_min_frame_id))
  require (is_after s.current_last_submitted_frame_id frame_id)

unfoldable pub check_frame_id : ClientSession → ℕ → Result (Unit {0})
unfolding validate_migrated_current_frame_id
check_frame_id s frame_id =
    if is_tracked s then validate_migrated_current_frame_id s frame_id else ok tt

unfoldable pub submit_packet : ClientSession → SubmitRequest → Result NnrpPacket
submit_packet s request = do
  metadata ← Metadata.pack FrameSubmit.codec request.metadata
  ok (
      Packet.build
        (record {
          version_major = 1;
          wire_format = WireFormat.current;
          msg_type = MessageType.frame_submit;
          flags = request.header.flags;
          session_id = s.session_id;
          frame_id = request.frame_id;
          view_id = request.header.view_id;
          route_id = request.header.route_id;
          trace_id = request.header.trace_id;
        })
        metadata request.body)

-- The session after a packet was sent.
abbrev pub after_submit : ClientSession → ℕ → ClientSession
after_submit s frame_id =
    if is_tracked s
    then record {
      session_id = s.session_id;
      current_min_frame_id = s.current_min_frame_id;
      current_last_submitted_frame_id = some frame_id;
    }
    else s

-- `send_submit` up to where it awaits the connection: the packet that it hands over, or what it
-- raises.
unfoldable pub start_submit : ClientSession → SubmitRequest → Result NnrpPacket
unfolding check_frame_id submit_packet
start_submit s request = do
  check_frame_id s request.frame_id
  require (request.metadata.operation_id == request.operation_id)
  submit_packet s request

-- A call that awaits the connection, the frame id of its packet, is over.
pub data Removes (id : ℕ) : List ℕ → List ℕ → Type 0 where
  first : {ids : List ℕ} → Removes id (id ∷ ids) ids
  later :
      {other : ℕ} {ids left : List ℕ}
      → Removes id ids left
      → Removes id (other ∷ ids) (other ∷ left)

-- Any sequence of steps of any calls of `send_submit` on a session, each with the outcome that its
-- connection has for it, whatever that is: the frame ids whose packets were handed to the connection
-- and those whose calls have returned, the last one first, and those whose calls still wait. A call
-- starts only where `may_start` admits it beside those that wait.
module _ (may_start : List ℕ → Type 0) where
  pub data Calls (start : ClientSession) : List ℕ → List ℕ → List ℕ → ClientSession → Type 0 where
    begin : Calls start [] [] [] start
    starts :
        {handed returned waiting : List ℕ} {s : ClientSession} (request : SubmitRequest)
        (packet : NnrpPacket)
        → Calls start handed returned waiting s
        → may_start waiting
        → start_submit s request ≡ ok packet
        → Calls start (request.frame_id ∷ handed) returned (request.frame_id ∷ waiting) s
    refused :
        {handed returned waiting : List ℕ} {s : ClientSession} (request : SubmitRequest)
        (raised : Error)
        → Calls start handed returned waiting s
        → start_submit s request ≡ err raised
        → Calls start handed returned waiting s
    returns :
        {handed returned waiting left : List ℕ} {s : ClientSession} (id : ℕ)
        → Calls start handed returned waiting s
        → Removes id waiting left
        → Calls start handed (id ∷ returned) left (after_submit s id)
    raises :
        {handed returned waiting left : List ℕ} {s : ClientSession} (id : ℕ)
        → Calls start handed returned waiting s
        → Removes id waiting left
        → Calls start handed returned left s
