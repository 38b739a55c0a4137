-- ===== src/Lib.antt =====
-- The Python SDK of the NNRP protocol: its wire formats and the host-side state that is kept in
-- Python. A packet is a 40-byte header, metadata of a fixed width and a body of six regions; the
-- rest of the SDK hands packets to a native runtime, which is not in the repository.
--
-- - Header: src/nnrp/core/header.py and the enums of src/nnrp/core/enums.py; NnrpHeader.pack and
--   unpack.
-- - Packet: src/nnrp/core/packet.py, NnrpPacket; Packet/Builders: the functions
--   that build packets without metadata and of the control messages, and
--   Packet/Builders/ResultPush build_result_push_packet. Packet/Websocket: the frame
--   and batch functions of src/nnrp/runtime/__init__.py.
-- - Metadata: src/nnrp/core/messages/control.py and data.py and the descriptors of
--   src/nnrp/schema.py. One module per class: the record, its struct, its check (`_validate` or
--   `__post_init__`), the tuple that `pack` writes and `_from_tuple`. Message joins the classes.
-- - ControlExtension: the control extension block of src/nnrp/core/messages/control.py.
-- - Body: the regions of a body in src/nnrp/core/packet.py. Table holds the tables of fixed-width
--   rows, Offsets the check of descriptor offsets, Typed the typed payload frames, Extension the
--   extension frames, Inline the inline object blocks and Regions pack_body and unpack_body. Words
--   holds entries of one width, Tiles the four codings of a tile index, Sections one tensor section
--   and TensorBody the sections of a body; Contracts what the body of a FRAME_SUBMIT must hold for
--   its metadata, and Contracts/Push the same of a RESULT_PUSH.
-- - Client: src/nnrp/client/transport.py. Receive holds ClientSession.receive_result, Submit
--   send_submit as two steps around the await of the connection, which may do anything, Monitor
--   the MigrationTriggerMonitor with floating point numbers and medians as parameters, and Router
--   the ResultRouter, as the actions of its task and its callers in any order.
-- - Catalog: SchemaRegistryCatalog of src/nnrp/schema.py.
-- - OrderedBuffer: FrameResultBuffer of src/nnrp/tools/ordered_buffer.py. Its heapq is a sorted
--   list: like the binary heap it gives the smallest first, but its own order is the model's.
-- - Lifecycle: src/nnrp/lifecycle.py. Cache: the leases and policy options of src/nnrp/cache.py.
-- - Struct is Python's struct module and Stream the loop over records that lie back to back;
--   Common holds the lists, results, dicts and tests that all share. Tests holds concrete inputs.
--
-- Bytes are lists of numbers, with the hypothesis that each is below 256 where it matters. A Python
-- exception is a value of Error: ValueError, struct.error,
-- IndexError or TypeError. IntFlag values are numbers;
-- IntEnum values are data types, with the conversion that raises ValueError on any other number.
-- Python's integers of any size are natural numbers: negative ones are not modelled.
--
-- The decoding loops run on fuel, the number of bytes that are left: each record takes a byte at
-- least, so it is enough.
--
-- Not modelled: the native bindings and everything that passes a call on to them, the coroutines
-- that wait for a frame, the connections and transport plans of a client, the builders of
-- FRAME_SUBMIT packets and of packets with typed payloads, and the session patch bodies.
pub mod Common
pub mod Struct
pub mod Header
pub mod Stream
pub mod ControlExtension
pub mod Packet
pub mod Metadata
pub mod Body
pub mod OrderedBuffer
pub mod Catalog
pub mod Lifecycle
pub mod Cache
pub mod Client
pub mod Tests
