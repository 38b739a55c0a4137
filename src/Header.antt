-- ===== src/Header.antt =====
-- core/header.py: the 40-byte packet header.
pub mod Enums
pub mod RoundTrip
use nnrp_py.Common.{
  ℕ, List, [], ◌∷◌, Bool, true, Option, none, some, ◌==◌, ◌&&◌, if◌then◌else◌, length, Result, ok,
  err, value_error, struct_error, ◌>>=◌, ◌>>◌, require,
}
use nnrp_py.Struct
use nnrp_py.Struct.{Bytes, Struct}
use Enums.{
  WireFormat, MessageType, wire_format_value, message_type_value, to_wire_format, to_message_type,
}

-- `<4sBBBBIIIIIHHQ`: the four bytes of the magic stand as four one-byte fields.
abbrev pub header_struct : Struct
header_struct = 1 ∷ 1 ∷ 1 ∷ 1 ∷ 1 ∷ 1 ∷ 1 ∷ 1 ∷ 4 ∷ 4 ∷ 4 ∷ 4 ∷ 4 ∷ 2 ∷ 2 ∷ 8 ∷ []

abbrev pub header_length : ℕ
header_length = Struct.size header_struct

pub record NnrpHeader : Type 0 where
  pub version_major : ℕ
  pub wire_format : WireFormat
  pub msg_type : MessageType
  pub flags : ℕ
  pub meta_len : ℕ
  pub body_len : ℕ
  pub session_id : ℕ
  pub frame_id : ℕ
  pub view_id : ℕ
  pub route_id : ℕ
  pub trace_id : ℕ
  pub header_len : ℕ

-- The values that the header's struct is given, with the magic `NNRP` in front.
abbrev pub header_values : NnrpHeader → List ℕ
header_values h =
    b'N'
    ∷ b'N'
    ∷ b'R'
    ∷ b'P'
    ∷ h.version_major
    ∷ wire_format_value h.wire_format
    ∷ message_type_value h.msg_type
    ∷ h.header_len
    ∷ h.flags
    ∷ h.meta_len
    ∷ h.body_len
    ∷ h.session_id
    ∷ h.frame_id
    ∷ h.view_id
    ∷ h.route_id
    ∷ h.trace_id
    ∷ []

unfoldable pub pack : NnrpHeader → Result Bytes
pack h = do require (h.header_len == header_length); Struct.pack header_struct (header_values h)

abbrev pub is_expected : Option WireFormat → WireFormat → Bool
is_expected none w = true
is_expected (some e) w = wire_format_value w == wire_format_value e

-- The rest of `unpack`, from the tuple that the struct returned.
unfoldable pub of_values : Option WireFormat → List ℕ → Result NnrpHeader
of_values expected
      (m0 ∷ m1 ∷ m2 ∷ m3 ∷ version_major ∷ wire_format ∷ msg_type ∷ header_len ∷ flags ∷ meta_len
        ∷ body_len ∷ session_id ∷ frame_id ∷ view_id ∷ route_id ∷ trace_id ∷ []) =
    do
      require (m0 == b'N' && m1 == b'N' && m2 == b'R' && m3 == b'P')
      require (header_len == header_length)
      wire ← to_wire_format wire_format
      type ← to_message_type msg_type
      require (is_expected expected wire)
      ok (record {
        version_major = version_major;
        wire_format = wire;
        msg_type = type;
        flags = flags;
        meta_len = meta_len;
        body_len = body_len;
        session_id = session_id;
        frame_id = frame_id;
        view_id = view_id;
        route_id = route_id;
        trace_id = trace_id;
        header_len = header_len;
      })
of_values expected _ = err struct_error

unfoldable pub unpack : Option WireFormat → Bytes → Result NnrpHeader
unfolding of_values
unpack expected payload =
    if length payload == header_length
    then (do values ← Struct.unpack header_struct payload; of_values expected values)
    else err value_error
