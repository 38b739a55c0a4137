-- ===== src/Tests/Wire.antt =====
-- Packets, headers, frames and control extensions at concrete bytes.
use nnrp_py.Common.{
  ℕ, ◌≡◌, refl, Bool, true, ◌&&◌, ltb, ◌==◌, Option, none, some, [], ◌∷◌, All, ok, err, value_error,
  ◌>>=◌, arith, length,
}
use nnrp_py.Struct
use nnrp_py.Struct.{Bytes, IsByte}
use nnrp_py.Stream.{write_all, read_loop, read_all}
use nnrp_py.Header
use nnrp_py.Header.{NnrpHeader}
use nnrp_py.Header.Enums.{WireFormat, MessageType, to_wire_format, to_message_type}
use nnrp_py.Header.RoundTrip.{unpack-pack_header, pack-unpack_header}
use nnrp_py.ControlExtension.{
  ControlExtensionEntry, pack_entry, pack_control_extension_block, read_entry,
  unpack_control_extension_block,
}
use nnrp_py.ControlExtension.Block.{unpack-pack_entries, pack-unpack_entries, unpack_block-raises}
use nnrp_py.Packet
use nnrp_py.Packet.{NnrpPacket, Fields, build}
use nnrp_py.Packet.RoundTrip.{unpack-pack_packet, pack-unpack_packet, unpack-pack-build, FieldsFit}
use nnrp_py.Packet.Websocket.{
  DecodedRuntimeFrame, encode_websocket_binary_frame, decode_websocket_binary_frame,
  decode_websocket_binary_frame_batch,
}
use nnrp_py.Packet.Websocket.Frame.{encode, packet_of, frame_of, decode-eq-unpack, encode-eq-pack}
use nnrp_py.Packet.Websocket.Errors.{decode_batch-raises}
use nnrp_py.Packet.Websocket.Batch.{encode_all, decode-encode_all, encode_all-decode}

abbrev fields : Fields
fields = record {
  version_major = 1;
  wire_format = WireFormat.current;
  msg_type = MessageType.result_push;
  flags = 1;
  session_id = 7;
  frame_id = 5;
  view_id = 2;
  route_id = 3;
  trace_id = 99;
}

abbrev pushed : NnrpPacket
pushed = record { header = Packet.header_of fields 2 1; metadata = 1 ∷ 2 ∷ []; body = 3 ∷ [] }

abbrev header_bytes : Bytes
header_bytes =
    (78 ∷ 78 ∷ 82 ∷ 80 ∷ 1 ∷ 0 ∷ 18 ∷ 40 ∷ 1 ∷ 0 ∷ 0 ∷ 0 ∷ 2 ∷ 0 ∷ 0 ∷ 0 ∷ 1 ∷ 0 ∷ 0 ∷ 0 ∷ 7 ∷ 0 ∷ 0
      ∷ 0 ∷ 5 ∷ 0 ∷ 0 ∷ 0 ∷ 2 ∷ 0 ∷ 3 ∷ 0 ∷ 99 ∷ 0 ∷ 0 ∷ 0 ∷ 0 ∷ 0 ∷ 0 ∷ 0 ∷ [])

abbrev packet_bytes : Bytes
packet_bytes =
    (78 ∷ 78 ∷ 82 ∷ 80 ∷ 1 ∷ 0 ∷ 18 ∷ 40 ∷ 1 ∷ 0 ∷ 0 ∷ 0 ∷ 2 ∷ 0 ∷ 0 ∷ 0 ∷ 1 ∷ 0 ∷ 0 ∷ 0 ∷ 7 ∷ 0 ∷ 0
      ∷ 0 ∷ 5 ∷ 0 ∷ 0 ∷ 0 ∷ 2 ∷ 0 ∷ 3 ∷ 0 ∷ 99 ∷ 0 ∷ 0 ∷ 0 ∷ 0 ∷ 0 ∷ 0 ∷ 0 ∷ 1 ∷ 2 ∷ 3 ∷ [])

packed_header : Header.pack pushed.header ≡ ok header_bytes
unfolding Header.pack Struct.pack
packed_header = refl

unpacked_header : Header.unpack none header_bytes ≡ ok pushed.header
unfolding Header.unpack Header.of_values Struct.unpack Struct.values to_wire_format to_message_type
unpacked_header = refl

packed_packet : Packet.pack pushed ≡ ok packet_bytes
unfolding Packet.pack Header.pack Struct.pack
packed_packet = refl

are_bytes : Bytes → Bool
are_bytes [] = true
are_bytes (b ∷ bs) = ltb b 256 && are_bytes bs

All-IsByte : (bs : Bytes) → are_bytes bs ≡ true → All IsByte bs
unfolding are_bytes
All-IsByte [] h = tt
All-IsByte (b ∷ bs) h = (ground arith, All-IsByte bs (ground arith))

unpacked_packet : Packet.unpack packet_bytes ≡ ok pushed
unfolding Packet.unpack Header.unpack Header.of_values Struct.unpack Struct.values to_wire_format
    to_message_type
unpacked_packet = refl

header_are_bytes : All IsByte header_bytes
unfolding are_bytes
header_are_bytes = All-IsByte header_bytes refl

packet_are_bytes : All IsByte packet_bytes
unfolding are_bytes
packet_are_bytes = All-IsByte packet_bytes refl

header_unpacks : (Header.unpack none header_bytes ≡ ok pushed.header) × (length header_bytes ≡ 40)
header_unpacks = unpack-pack_header pushed.header header_bytes packed_header

header_packs : Header.pack pushed.header ≡ ok header_bytes
header_packs = pack-unpack_header none header_bytes pushed.header header_are_bytes unpacked_header

unpack-pack_packet_example : Packet.unpack packet_bytes ≡ ok pushed
unpack-pack_packet_example = unpack-pack_packet pushed packet_bytes packed_packet

pack-unpack_packet_example : Packet.pack pushed ≡ ok packet_bytes
pack-unpack_packet_example = pack-unpack_packet packet_bytes pushed packet_are_bytes unpacked_packet

fields_fit : FieldsFit fields
fields_fit = record {
  version_major_fits = omega arith;
  flags_fit = omega arith;
  session_id_fits = omega arith;
  frame_id_fits = omega arith;
  view_id_fits = omega arith;
  route_id_fits = omega arith;
  trace_id_fits = omega arith;
}

unpack-pack-build_example :
    (bs : Bytes) × (Packet.pack (build fields (1 ∷ 2 ∷ []) (3 ∷ [])) ≡ ok bs)
    × (Packet.unpack bs ≡ ok (build fields (1 ∷ 2 ∷ []) (3 ∷ [])))
    × (length bs ≡ 43)
unpack-pack-build_example =
    unpack-pack-build fields (1 ∷ 2 ∷ []) (3 ∷ []) fields_fit (omega arith) (omega arith)

-- A PING frame, and a batch of two.
abbrev ping : DecodedRuntimeFrame
ping = record {
  header = record {
    message_type = MessageType.ping;
    flags = 1;
    session_id = 7;
    frame_id = 6;
    view_id = 2;
    route_id = 3;
    trace_id = 99;
    version_major = 1;
    wire_format = WireFormat.current;
  };
  metadata = [];
  body = [];
}

abbrev ping_bytes : Bytes
ping_bytes =
    (78 ∷ 78 ∷ 82 ∷ 80 ∷ 1 ∷ 0 ∷ 32 ∷ 40 ∷ 1 ∷ 0 ∷ 0 ∷ 0 ∷ 0 ∷ 0 ∷ 0 ∷ 0 ∷ 0 ∷ 0 ∷ 0 ∷ 0 ∷ 7 ∷ 0 ∷ 0
      ∷ 0 ∷ 6 ∷ 0 ∷ 0 ∷ 0 ∷ 2 ∷ 0 ∷ 3 ∷ 0 ∷ 99 ∷ 0 ∷ 0 ∷ 0 ∷ 0 ∷ 0 ∷ 0 ∷ 0 ∷ [])

abbrev batch_bytes : Bytes
batch_bytes =
    (78 ∷ 78 ∷ 82 ∷ 80 ∷ 1 ∷ 0 ∷ 32 ∷ 40 ∷ 1 ∷ 0 ∷ 0 ∷ 0 ∷ 0 ∷ 0 ∷ 0 ∷ 0 ∷ 0 ∷ 0 ∷ 0 ∷ 0 ∷ 7 ∷ 0 ∷ 0
      ∷ 0 ∷ 6 ∷ 0 ∷ 0 ∷ 0 ∷ 2 ∷ 0 ∷ 3 ∷ 0 ∷ 99 ∷ 0 ∷ 0 ∷ 0 ∷ 0 ∷ 0 ∷ 0 ∷ 0 ∷ 78 ∷ 78 ∷ 82 ∷ 80 ∷ 1
      ∷ 0 ∷ 32 ∷ 40 ∷ 1 ∷ 0 ∷ 0 ∷ 0 ∷ 0 ∷ 0 ∷ 0 ∷ 0 ∷ 0 ∷ 0 ∷ 0 ∷ 0 ∷ 7 ∷ 0 ∷ 0 ∷ 0 ∷ 6 ∷ 0 ∷ 0 ∷ 0
      ∷ 2 ∷ 0 ∷ 3 ∷ 0 ∷ 99 ∷ 0 ∷ 0 ∷ 0 ∷ 0 ∷ 0 ∷ 0 ∷ 0 ∷ [])

ping_encodes : encode ping ≡ Packet.pack (packet_of ping)
ping_encodes = encode-eq-pack ping

decode-eq-unpack_example :
    decode_websocket_binary_frame ping_bytes ≡ (Packet.unpack ping_bytes >>= λ p. ok (frame_of p))
decode-eq-unpack_example = decode-eq-unpack ping_bytes

encoded_batch : encode_all (ping ∷ ping ∷ []) ≡ ok batch_bytes
unfolding write_all encode_websocket_binary_frame Header.pack Struct.pack
encoded_batch = refl

decode-encode_all_example : decode_websocket_binary_frame_batch 1 batch_bytes ≡ err value_error
decode-encode_all_example = decode-encode_all 1 (ping ∷ ping ∷ []) batch_bytes encoded_batch

decoded_batch : decode_websocket_binary_frame_batch 2 batch_bytes ≡ ok (ping ∷ ping ∷ [])
decoded_batch = decode-encode_all 2 (ping ∷ ping ∷ []) batch_bytes encoded_batch

batch_are_bytes : All IsByte batch_bytes
unfolding are_bytes
batch_are_bytes = All-IsByte batch_bytes refl

encode_all-decode_example : encode_all (ping ∷ ping ∷ []) ≡ ok batch_bytes
encode_all-decode_example =
    encode_all-decode 2 batch_bytes (ping ∷ ping ∷ []) batch_are_bytes decoded_batch

-- A block of a known entry and an unknown one that may be skipped.
abbrev known_entry : ControlExtensionEntry
known_entry = record { ext_type = 1; ext_flags = 0; payload = 5 ∷ [] }

abbrev other_entry : ControlExtensionEntry
other_entry = record { ext_type = 9; ext_flags = 0; payload = [] }

abbrev block_bytes : Bytes
block_bytes =
    (1 ∷ 0 ∷ 0 ∷ 0 ∷ 1 ∷ 0 ∷ 0 ∷ 0 ∷ 5 ∷ 0 ∷ 0 ∷ 0 ∷ 0 ∷ 0 ∷ 0 ∷ 0 ∷ 9 ∷ 0 ∷ 0 ∷ 0 ∷ 0 ∷ 0 ∷ 0 ∷ 0
      ∷ [])

abbrev knows_one : Option (ℕ → Bool)
knows_one = some (λ ext_type. ext_type == 1)

packed_block : pack_control_extension_block (known_entry ∷ other_entry ∷ []) ≡ ok block_bytes
unfolding pack_control_extension_block write_all pack_entry Struct.pack
packed_block = refl

unpack-pack_entries_example :
    unpack_control_extension_block knows_one block_bytes ≡ ok (known_entry ∷ [])
unpack-pack_entries_example =
    unpack-pack_entries knows_one (known_entry ∷ other_entry ∷ []) block_bytes packed_block

block_are_bytes : All IsByte block_bytes
unfolding are_bytes
block_are_bytes = All-IsByte block_bytes refl

pack-unpack_entries_example :
    pack_control_extension_block (known_entry ∷ other_entry ∷ []) ≡ ok block_bytes
pack-unpack_entries_example =
    pack-unpack_entries block_bytes (known_entry ∷ other_entry ∷ []) block_are_bytes
      (unpack-pack_entries none (known_entry ∷ other_entry ∷ []) block_bytes packed_block)

refused_block : unpack_control_extension_block none (1 ∷ []) ≡ err value_error
unfolding unpack_control_extension_block read_all read_loop read_entry
refused_block = refl

unpack_block-raises_example : value_error ≡ value_error
unpack_block-raises_example = unpack_block-raises none (1 ∷ []) value_error refused_block

-- Two frames are too many for the limit 1.
refused_batch : decode_websocket_binary_frame_batch 1 batch_bytes ≡ err value_error
refused_batch = decode-encode_all 1 (ping ∷ ping ∷ []) batch_bytes encoded_batch

decode_batch-raises_example : value_error ≡ value_error
decode_batch-raises_example = decode_batch-raises 1 batch_bytes value_error refused_batch
