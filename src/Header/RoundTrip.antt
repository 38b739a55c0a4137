-- ===== src/Header/RoundTrip.antt =====
-- core/header.py: the header's `pack` and `unpack` together.
use nnrp_py.Common.{
  ℕ, ◌==◌, ◌&&◌, ==_self, ◌≡◌, List, [], ◌∷◌, Option, none, length, All, ok, Bool-cases, inl, inr,
  >>=-eq-ok, require, arith,
}
use nnrp_py.Struct
use nnrp_py.Struct.{Bytes, IsByte}
use nnrp_py.Header.{
  NnrpHeader, header_struct, header_length, header_values, pack, of_values, unpack,
}
use nnrp_py.Header.Enums.{
  WireFormat, to_wire_format, to_message_type, value-to_wire_format, value-to_message_type,
  to_wire_format-value, to_message_type-value,
}

pub of_values-header_values :
    (h : NnrpHeader) → h.header_len ≡ header_length → of_values none (header_values h) ≡ ok h
unfolding of_values
of_values-header_values h e =
    rw (==_self _ _ e, to_wire_format-value h.wire_format, to_message_type-value h.msg_type)

of_values_inv :
    (expected : Option WireFormat) (vs : List ℕ) (h : NnrpHeader)
    → of_values expected vs ≡ ok h
    → (header_values h ≡ vs) × (h.header_len ≡ header_length)
unfolding of_values
of_values_inv expected
      (m0 ∷ m1 ∷ m2 ∷ m3 ∷ version ∷ wire ∷ type ∷ len ∷ flags ∷ meta ∷ body ∷ session ∷ frame
        ∷ view ∷ route ∷ trace ∷ [])
      h p =
    let (_, magic, p1) =
      >>=-eq-ok (require (m0 == b'N' && m1 == b'N' && m2 == b'R' && m3 == b'P')) _ p in
    let (_, fixed, p2) = >>=-eq-ok (require (len == header_length)) _ p1 in
    let (w, wire_is, p3) = >>=-eq-ok (to_wire_format wire) _ p2 in
    let (t, type_is, p4) = >>=-eq-ok (to_message_type type) _ p3 in
    let w_is = value-to_wire_format wire w wire_is in
    let t_is = value-to_message_type type t type_is in ground arith
of_values_inv expected _ h p = cc

-- A header that packs is read back whole, from 40 bytes.
pub unpack-pack_header :
    (h : NnrpHeader) (bs : Bytes)
    → pack h ≡ ok bs
    → (unpack none bs ≡ ok h) × (length bs ≡ header_length)
unfolding pack unpack
unpack-pack_header h bs p =
    let (_, fixed, packed) = >>=-eq-ok (require (h.header_len == header_length)) _ p in
    let size_is = Struct.RoundTrip.length-pack header_struct (header_values h) bs packed in
    (
      rw (
        ==_self _ _ size_is,
        Struct.RoundTrip.unpack-pack header_struct (header_values h) bs packed,
        of_values-header_values h (ground arith),
      ),
      size_is,
    )

-- 40 bytes that unpack, whatever wire format is expected, are what the header packs to.
pub pack-unpack_header :
    (expected : Option WireFormat) (bs : Bytes) (h : NnrpHeader)
    → All IsByte bs
    → unpack expected bs ≡ ok h
    → pack h ≡ ok bs
unfolding pack unpack
pack-unpack_header expected bs h bytes p = elim (Bool-cases (length bs == header_length)) [
  | inl size_is ↦
      let (vs, unpacked, parsed) = >>=-eq-ok (Struct.unpack header_struct bs) _ (rw size_is at p) in
      let (same, fixed) = of_values_inv expected vs h parsed in
      rw (==_self _ _ fixed, same) (Struct.RoundTrip.pack-unpack header_struct bs vs bytes unpacked)
  | inr size_is ↦ cc (rw size_is at p)
]

-- The header length of what was read is the fixed one.
pub header_len-unpack :
    (expected : Option WireFormat) (bs : Bytes) (h : NnrpHeader)
    → unpack expected bs ≡ ok h
    → h.header_len ≡ header_length
unfolding unpack
header_len-unpack expected bs h p = elim (Bool-cases (length bs == header_length)) [
  | inl size_is ↦
      let (vs, unpacked, parsed) = >>=-eq-ok (Struct.unpack header_struct bs) _ (rw size_is at p) in
      (of_values_inv expected vs h parsed).1
  | inr size_is ↦ cc (rw size_is at p)
]
