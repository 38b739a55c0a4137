-- ===== src/Packet.antt =====
-- core/packet.py: one packet, its header, metadata and body; runtime/__init__.py: the same bytes as
-- WebSocket binary frames, alone and in a batch.
pub mod RoundTrip
pub mod Builders
pub mod Websocket
use nnrp_py.Common.{
  ℕ, ◌+◌, List, ◌++◌, ◌==◌, leb, if◌then◌else◌, none, length, take, drop, Result, ok, err,
  value_error, ◌>>=◌, ◌>>◌, require,
}
use nnrp_py.Struct.{Bytes}
use nnrp_py.Header
use nnrp_py.Header.{NnrpHeader, header_length}
use nnrp_py.Header.Enums.{WireFormat, MessageType}

pub record NnrpPacket : Type 0 where
  pub header : NnrpHeader
  pub metadata : Bytes
  pub body : Bytes

unfoldable pub pack : NnrpPacket → Result Bytes
pack p = do
  require (length p.metadata == p.header.meta_len)
  require (length p.body == p.header.body_len)
  header ← Header.pack p.header
  ok (header ++ (p.metadata ++ p.body))

-- The arguments of `NnrpPacket.build` that the header takes as they are.
pub record Fields : Type 0 where
  pub version_major : ℕ
  pub wire_format : WireFormat
  pub msg_type : MessageType
  pub flags : ℕ
  pub session_id : ℕ
  pub frame_id : ℕ
  pub view_id : ℕ
  pub route_id : ℕ
  pub trace_id : ℕ

abbrev pub header_of : Fields → ℕ → ℕ → NnrpHeader
header_of f meta_len body_len = record {
  version_major = f.version_major;
  wire_format = f.wire_format;
  msg_type = f.msg_type;
  flags = f.flags;
  meta_len = meta_len;
  body_len = body_len;
  session_id = f.session_id;
  frame_id = f.frame_id;
  view_id = f.view_id;
  route_id = f.route_id;
  trace_id = f.trace_id;
  header_len = header_length;
}

unfoldable pub build : Fields → Bytes → Bytes → NnrpPacket
build f metadata body = record {
  header = header_of f (length metadata) (length body);
  metadata = metadata;
  body = body;
}

unfoldable pub unpack : Bytes → Result NnrpPacket
unpack payload =
    if leb header_length (length payload)
    then (do
      header ← Header.unpack none (take header_length payload)
      require (length payload == header_length + header.meta_len + header.body_len)
      ok (record {
        header = header;
        metadata = take header.meta_len (drop header_length payload);
        body = drop (header_length + header.meta_len) payload;
      }))
    else err value_error
