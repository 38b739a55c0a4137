-- ===== src/Packet/Websocket/Frame.antt =====
-- runtime/__init__.py: a WebSocket frame beside the packet with its fields.
use nnrp_py.Common.{
  ℕ, ◌+◌, ◌≤◌, ◌<◌, ◌≡◌, refl, sym, ap, ◌∙◌, ◌++◌, ◌==◌, ==_self, leb, le→leb, leb→le, Bool-cases,
  inl, inr, none, length, take, drop, All, All-drop, All-take, take-append, take-append_le,
  drop-append, take-append-drop, length-append, Result, ok, ◌>>=◌, >>=-eq-ok, Result-cases, require,
  require-eq-ok, from_ok, arith,
}
use nnrp_py.Struct.{Bytes, IsByte}
use nnrp_py.Header
use nnrp_py.Header.{NnrpHeader, header_length}
use nnrp_py.Stream.RoundTrip.{Inverts, Accepts}
use nnrp_py.Packet
use nnrp_py.Packet.{NnrpPacket}
use nnrp_py.Packet.Websocket.{
  DecodedRuntimeFrame, packet_header, encode_websocket_binary_frame,
  runtime_frame_header_from_header, decode_websocket_binary_frame, read_frame,
}

abbrev pub packet_of : DecodedRuntimeFrame → NnrpPacket
packet_of f = record {
  header = packet_header f.header (length f.metadata) (length f.body);
  metadata = f.metadata;
  body = f.body;
}

abbrev pub frame_of : NnrpPacket → DecodedRuntimeFrame
frame_of p = record {
  header = runtime_frame_header_from_header p.header;
  metadata = p.metadata;
  body = p.body;
}

abbrev pub encode : DecodedRuntimeFrame → Result Bytes
encode f = encode_websocket_binary_frame f.header f.metadata f.body

-- A frame is encoded as the packet with its fields is packed.
pub encode-eq-pack : (f : DecodedRuntimeFrame) → encode f ≡ Packet.pack (packet_of f)
unfolding encode_websocket_binary_frame Packet.pack
encode-eq-pack f = rw (==_self (length f.metadata) _ refl, ==_self (length f.body) _ refl)

-- It is decoded as the packet is unpacked, on every input, errors included.
pub decode-eq-unpack :
    (bs : Bytes) → decode_websocket_binary_frame bs ≡ (Packet.unpack bs >>= λ p. ok (frame_of p))
unfolding decode_websocket_binary_frame Packet.unpack
decode-eq-unpack bs = elim (Bool-cases (leb header_length (length bs))) [
  | inl long ↦ elim (Result-cases (Header.unpack none (take header_length bs))) [
    | inl (h, found) ↦
        let fixed : h.header_len ≡ 40 = Header.RoundTrip.header_len-unpack none _ h found in
        elim (Bool-cases (length bs == 40 + h.meta_len + h.body_len)) [
          | inl total ↦ rw (long, found, fixed, total)
          | inr other ↦ rw (long, found, fixed, other)
        ]
    | inr (e, found) ↦ rw (long, found)
  ]
  | inr short ↦ rw short
]

-- An encoded frame is decoded whole.
pub decode-encode :
    (f : DecodedRuntimeFrame) (bs : Bytes)
    → encode f ≡ ok bs
    → decode_websocket_binary_frame bs ≡ ok f
decode-encode f bs h = rw (
  decode-eq-unpack bs,
  Packet.RoundTrip.unpack-pack_packet (packet_of f) bs (rw (encode-eq-pack f) at h),
)

-- Bytes that decode are what their frame encodes to.
pub encode-decode :
    (bs : Bytes) (f : DecodedRuntimeFrame)
    → All IsByte bs
    → decode_websocket_binary_frame bs ≡ ok f
    → encode f ≡ ok bs
encode-decode bs f bytes h =
    let (p, read, made) = >>=-eq-ok (Packet.unpack bs) _ (rw (decode-eq-unpack bs) at h) in
    let packed = Packet.RoundTrip.pack-unpack_packet bs p bytes read in
    let (hs, _, meta_is, body_is, _) = Packet.RoundTrip.pack_inv p bs packed in
    let (header_read, _, _, _) = Packet.RoundTrip.unpack_inv bs p read in
    let fixed = Header.RoundTrip.header_len-unpack none _ p.header header_read in
    let same : packet_of (frame_of p) ≡ p = ground arith in
    rw (← from_ok _ _ made, encode-eq-pack (frame_of p), same) packed

-- What a decoded frame says of its bytes.
decode_inv :
    (bs : Bytes) (f : DecodedRuntimeFrame)
    → decode_websocket_binary_frame bs ≡ ok f
    → (h : NnrpHeader) × (Header.unpack none (take header_length bs) ≡ ok h)
      × (length bs ≡ h.header_len + h.meta_len + h.body_len)
      × (header_length ≤ length bs)
decode_inv bs f h =
    let (p, read, _) = >>=-eq-ok (Packet.unpack bs) _ (rw (decode-eq-unpack bs) at h) in
    let (header_read, total, _, _) = Packet.RoundTrip.unpack_inv bs p read in
    let fixed = Header.RoundTrip.header_len-unpack none _ p.header header_read in
    (p.header, header_read, omega (arith), omega arith)

read_frame-encode :
    (f : DecodedRuntimeFrame) (bs rest : Bytes)
    → encode f ≡ ok bs
    → read_frame (bs ++ rest) ≡ ok (f, rest)
unfolding read_frame
read_frame-encode f bs rest wrote =
    let decoded = decode-encode f bs wrote in
    let (h, header_read, total, long) = decode_inv bs f decoded in
    let size : length (bs ++ rest) ≡ length bs + length rest = length-append bs rest in
    rw (
      le→leb header_length (length (bs ++ rest)) (omega arith),
      take-append_le header_length bs rest long,
      header_read,
      ← total,
      le→leb (length bs) (length (bs ++ rest)) (omega arith),
      take-append (length bs) bs rest refl,
      decoded,
      drop-append (length bs) bs rest refl,
    )

length-encode : (f : DecodedRuntimeFrame) (bs : Bytes) → encode f ≡ ok bs → 0 < length bs
length-encode f bs wrote =
    let (h, _, _, long) = decode_inv bs f (decode-encode f bs wrote) in omega arith

pub frame-Inverts : Inverts read_frame encode
frame-Inverts = record { read-write = read_frame-encode; length-write = length-encode }

pub read_frame_inv :
    (bs : Bytes) (f : DecodedRuntimeFrame) (rest : Bytes)
    → read_frame bs ≡ ok (f, rest)
    → (n : ℕ) × (0 < n)
      × (n ≤ length bs)
      × (decode_websocket_binary_frame (take n bs) ≡ ok f)
      × (drop n bs ≡ rest)
unfolding read_frame
read_frame_inv bs f rest h =
    let (_, long, h1) = >>=-eq-ok (require (leb header_length (length bs))) _ h in
    let (header, found, h2) = >>=-eq-ok (Header.unpack none (take header_length bs)) _ h1 in
    let n : ℕ = header.header_len + header.meta_len + header.body_len in
    let (_, enough, h3) = >>=-eq-ok (require (leb n (length bs))) _ h2 in
    let (frame, decoded, h4) = >>=-eq-ok (decode_websocket_binary_frame (take n bs)) _ h3 in
    let fixed = Header.RoundTrip.header_len-unpack none _ header found in
    let same = from_ok (frame, drop n bs) (f, rest) h4 in
    (
      n,
      omega arith,
      leb→le _ _ (require-eq-ok _ enough),
      decoded ∙ ap (λ (p : DecodedRuntimeFrame × Bytes). ok p.0) same,
      ap (λ (p : DecodedRuntimeFrame × Bytes). p.1) same,
    )

encode-read_frame :
    (bs : Bytes) (f : DecodedRuntimeFrame) (rest : Bytes)
    → All IsByte bs
    → read_frame bs ≡ ok (f, rest)
    → (first : Bytes) × (encode f ≡ ok first) × (first ++ rest ≡ bs) × All IsByte rest
encode-read_frame bs f rest bytes h =
    let (n, _, _, decoded, rest_is) = read_frame_inv bs f rest h in
    (
      take n bs,
      encode-decode (take n bs) f (All-take _ n bs bytes) decoded,
      ap (λ l. take n bs ++ l) (sym rest_is) ∙ take-append-drop n bs,
      rw (← rest_is) (All-drop _ n bs bytes),
    )

pub frame-Accepts : Accepts read_frame encode
frame-Accepts = record { write-read = encode-read_frame }
