-- ===== src/Packet/RoundTrip.antt =====
-- core/packet.py: `NnrpPacket.pack` and `unpack` together.
use nnrp_py.Common.{
  ℕ, ◌+◌, ◌<◌, ◌^◌, ◌≡◌, refl, sym, ap, ◌∙◌, ◌++◌, ◌==◌, ==_self, leb, le→leb, Bool-cases, inl, inr,
  none, length, take, drop, All, take-append, drop-append, take-append-drop, drop-drop,
  length-append, length-take, length-drop, All-take, ok, >>=-eq-ok, require, arith,
}
use nnrp_py.Struct.{Bytes, IsByte}
use nnrp_py.Header
use nnrp_py.Struct
use nnrp_py.Header.{NnrpHeader, header_length, header_struct, header_values}
use nnrp_py.Header.Enums.{message_type_value-lt, wire_format_value-lt}
use nnrp_py.Packet.{NnrpPacket, Fields, pack, build, unpack, header_of}

-- What a successful `pack` has checked, and the bytes that it returns.
pub pack_inv :
    (p : NnrpPacket) (bs : Bytes)
    → pack p ≡ ok bs
    → (hs : Bytes) × (Header.pack p.header ≡ ok hs)
      × (length p.metadata ≡ p.header.meta_len)
      × (length p.body ≡ p.header.body_len)
      × (hs ++ (p.metadata ++ p.body) ≡ bs)
unfolding pack
pack_inv p bs h =
    let (_, meta_is, h1) = >>=-eq-ok (require (length p.metadata == p.header.meta_len)) _ h in
    let (_, body_is, h2) = >>=-eq-ok (require (length p.body == p.header.body_len)) _ h1 in
    let (hs, packed, h3) = >>=-eq-ok (Header.pack p.header) _ h2 in
    (hs, packed, ground arith, ground arith, ground arith)

-- The three parts of a packet, laid side by side, are found again.
unpack_parts :
    (h : NnrpHeader) (hs metadata body : Bytes)
    → Header.unpack none hs ≡ ok h
    → length hs ≡ header_length
    → length metadata ≡ h.meta_len
    → length body ≡ h.body_len
    → unpack (hs ++ (metadata ++ body))
      ≡ ok (record { header = h; metadata = metadata; body = body })
unfolding unpack
unpack_parts h hs metadata body unpacked hs_is meta_is body_is =
    let total : length (hs ++ (metadata ++ body)) ≡ header_length + h.meta_len + h.body_len =
      omega (arith, length-append hs (metadata ++ body), length-append metadata body) in
    let after : drop header_length (hs ++ (metadata ++ body)) ≡ metadata ++ body =
      drop-append _ hs _ (sym hs_is) in
    let last : drop (header_length + h.meta_len) (hs ++ (metadata ++ body)) ≡ body =
      sym (drop-drop header_length h.meta_len _)
      ∙ ap (drop h.meta_len) after
      ∙ drop-append _ metadata body (sym meta_is) in
    rw (
      le→leb header_length (length (hs ++ (metadata ++ body))) (omega (arith, total)),
      take-append header_length hs (metadata ++ body) (sym hs_is),
      unpacked,
      ==_self _ _ total,
      after,
      last,
      take-append h.meta_len metadata body (sym meta_is),
    )

-- A packet that packs is read back whole.
pub unpack-pack_packet : (p : NnrpPacket) (bs : Bytes) → pack p ≡ ok bs → unpack bs ≡ ok p
unpack-pack_packet p bs h =
    let (hs, packed, meta_is, body_is, bytes_are) = pack_inv p bs h in
    let (unpacked, size_is) = Header.RoundTrip.unpack-pack_header p.header hs packed in
    rw (← bytes_are) (unpack_parts p.header hs p.metadata p.body unpacked size_is meta_is body_is)

-- The checks that `unpack` has made when it returns, and where it cut.
pub unpack_inv :
    (bs : Bytes) (p : NnrpPacket)
    → unpack bs ≡ ok p
    → (Header.unpack none (take header_length bs) ≡ ok p.header)
      × (length bs ≡ header_length + p.header.meta_len + p.header.body_len)
      × (p.metadata ≡ take p.header.meta_len (drop header_length bs))
      × (p.body ≡ drop p.header.meta_len (drop header_length bs))
unfolding unpack
unpack_inv bs p h = elim (Bool-cases (leb header_length (length bs))) [
  | inl long ↦
      let (header, unpacked, h1) =
        >>=-eq-ok (Header.unpack none (take header_length bs)) _ (rw long at h) in
      let (_, total, h2) =
        >>=-eq-ok (require (length bs == header_length + header.meta_len + header.body_len)) _ h1 in
      let cut = drop-drop header_length header.meta_len bs in
      (ground arith, ground arith, ground arith, ground arith)
  | inr short ↦ cc (rw short at h)
]

-- Bytes that unpack are what the packet packs to.
pub pack-unpack_packet :
    (bs : Bytes) (p : NnrpPacket) → All IsByte bs → unpack bs ≡ ok p → pack p ≡ ok bs
unfolding pack
pack-unpack_packet bs p bytes h =
    let (unpacked, total, meta_is, body_is) = unpack_inv bs p h in
    let rest_is : length (drop header_length bs) ≡ p.header.meta_len + p.header.body_len =
      omega (arith, length-drop header_length bs) in
    let meta_len : length p.metadata ≡ p.header.meta_len =
      rw meta_is (omega (arith, length-take p.header.meta_len (drop header_length bs))) in
    let body_len : length p.body ≡ p.header.body_len =
      rw body_is (omega (arith, length-drop p.header.meta_len (drop header_length bs))) in
    let packed =
      Header.RoundTrip.pack-unpack_header none _ p.header (All-take _ header_length bs bytes)
        unpacked in
    let joined : take header_length bs ++ (p.metadata ++ p.body) ≡ bs = rw (
      meta_is,
      body_is,
      take-append-drop p.header.meta_len (drop header_length bs),
      take-append-drop header_length bs,
    ) in
    rw (==_self _ _ meta_len, ==_self _ _ body_len, packed, joined)

-- The ranges in which `build`'s arguments fit the header struct.
pub record FieldsFit (f : Fields) : Type 0 where
  pub version_major_fits : f.version_major < 2 ^ 8
  pub flags_fit : f.flags < 2 ^ 32
  pub session_id_fits : f.session_id < 2 ^ 32
  pub frame_id_fits : f.frame_id < 2 ^ 32
  pub view_id_fits : f.view_id < 2 ^ 16
  pub route_id_fits : f.route_id < 2 ^ 16
  pub trace_id_fits : f.trace_id < 2 ^ 64

header_packs :
    (f : Fields) (meta_len body_len : ℕ)
    → FieldsFit f
    → meta_len < 2 ^ 32
    → body_len < 2 ^ 32
    → (hs : Bytes) × (Header.pack (header_of f meta_len body_len) ≡ ok hs)
unfolding Header.pack
header_packs f meta_len body_len fit hm hb =
    let type_fits = message_type_value-lt f.msg_type in
    let wire_fits = wire_format_value-lt f.wire_format in
    Struct.RoundTrip.pack_total header_struct (header_values (header_of f meta_len body_len))
      (omega arith)

-- `build` declares the lengths that its metadata and body have: where its fields fit the header and
-- both lengths fit in 32 bits, the packet packs into bytes that `unpack` reads back as that packet.
pub unpack-pack-build :
    (f : Fields) (metadata body : Bytes)
    → FieldsFit f
    → length metadata < 2 ^ 32
    → length body < 2 ^ 32
    → (bs : Bytes) × (pack (build f metadata body) ≡ ok bs)
      × (unpack bs ≡ ok (build f metadata body))
      × (length bs ≡ 40 + length metadata + length body)
unfolding pack build
unpack-pack-build f metadata body fit hm hb =
    let (hs, packed) = header_packs f (length metadata) (length body) fit hm hb in
    let bs : Bytes = hs ++ (metadata ++ body) in
    let done : pack (build f metadata body) ≡ ok bs =
      rw (==_self (length metadata) _ refl, ==_self (length body) _ refl, packed) in
    let (unpacked, size_is) = Header.RoundTrip.unpack-pack_header _ hs packed in
    (
      bs,
      done,
      unpack-pack_packet (build f metadata body) bs done,
      omega (arith, length-append hs (metadata ++ body), length-append metadata body),
    )
