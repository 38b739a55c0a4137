-- ===== src/Packet/Websocket/Errors.antt =====
-- runtime/__init__.py: what the decoders of frames and batches raise.
use nnrp_py.Common.{
  ℕ, zero, suc, ◌+◌, ◌&&◌, ap, ◌≤◌, ◌<◌, ◌≡◌, Option, none, Bool-cases, inl, inr, [], ◌∷◌, ◌==◌,
  ==_iff, leb, ltb, ◌||◌, length, length-drop, take, drop, Error, ok, err, value_error, require,
  RaisesOnly, >>=-RaisesOnly, require-RaisesOnly, ok-RaisesOnly, arith,
}
use nnrp_py.Struct
use nnrp_py.Struct.{Bytes}
use nnrp_py.Struct.RoundTrip.{unpack-values}
use nnrp_py.Header
use nnrp_py.Header.{NnrpHeader, header_struct, header_length, is_expected}
use nnrp_py.Header.Enums.{
  WireFormat, to_wire_format, to_message_type, to_wire_format-RaisesOnly,
  to_message_type-RaisesOnly,
}
use nnrp_py.Packet.Websocket.Frame.{read_frame_inv}
use nnrp_py.Packet.Websocket.{
  DecodedRuntimeFrame, decode_websocket_binary_frame, read_frame, batch_loop,
  decode_websocket_binary_frame_batch,
}

-- On as many values as the struct has.
of_values-RaisesOnly :
    (expected : Option WireFormat)
    (m0 m1 m2 m3 version_major wire_format msg_type header_len flags meta_len body_len session_id
      frame_id view_id route_id trace_id : ℕ)
    → RaisesOnly (
        Header.of_values expected (
          m0 ∷ m1 ∷ m2 ∷ m3 ∷ version_major ∷ wire_format ∷ msg_type ∷ header_len ∷ flags ∷ meta_len
          ∷ body_len ∷ session_id ∷ frame_id ∷ view_id ∷ route_id ∷ trace_id ∷ []))
unfolding Header.of_values
of_values-RaisesOnly expected m0 m1 m2 m3 version_major wire_format msg_type header_len flags
      meta_len body_len session_id frame_id view_id route_id trace_id =
    >>=-RaisesOnly (require (m0 == b'N' && m1 == b'N' && m2 == b'R' && m3 == b'P')) _
      (require-RaisesOnly _)
      λ _ _. >>=-RaisesOnly (require (header_len == header_length)) _ (require-RaisesOnly _) λ _ _.
        >>=-RaisesOnly (to_wire_format wire_format) _ (to_wire_format-RaisesOnly wire_format)
          λ wire _.
            >>=-RaisesOnly (to_message_type msg_type) _ (to_message_type-RaisesOnly msg_type)
              λ type _.
                >>=-RaisesOnly (require (is_expected expected wire)) _ (require-RaisesOnly _)
                  λ _ _. ok-RaisesOnly _

unpack_header-RaisesOnly :
    (expected : Option WireFormat) (bs : Bytes) → RaisesOnly (Header.unpack expected bs)
unfolding Header.unpack Struct.values
unpack_header-RaisesOnly expected bs =
    let rest1 = drop 1 bs in
    let rest2 = drop 1 rest1 in
    let rest3 = drop 1 rest2 in
    let rest4 = drop 1 rest3 in
    let rest5 = drop 1 rest4 in
    let rest6 = drop 1 rest5 in
    let rest7 = drop 1 rest6 in
    let rest8 = drop 1 rest7 in
    let rest9 = drop 4 rest8 in
    let rest10 = drop 4 rest9 in
    let rest11 = drop 4 rest10 in
    let rest12 = drop 4 rest11 in
    let rest13 = drop 4 rest12 in
    let rest14 = drop 2 rest13 in
    let rest15 = drop 2 rest14 in
    elim (Bool-cases (length bs == header_length)) [
      | inl e ↦
          rw (e, unpack-values header_struct bs ((==_iff _ _).0 e))
            (of_values-RaisesOnly expected (Struct.le_value (take 1 bs))
              (Struct.le_value (take 1 rest1)) (Struct.le_value (take 1 rest2))
              (Struct.le_value (take 1 rest3)) (Struct.le_value (take 1 rest4))
              (Struct.le_value (take 1 rest5)) (Struct.le_value (take 1 rest6))
              (Struct.le_value (take 1 rest7)) (Struct.le_value (take 4 rest8))
              (Struct.le_value (take 4 rest9)) (Struct.le_value (take 4 rest10))
              (Struct.le_value (take 4 rest11)) (Struct.le_value (take 4 rest12))
              (Struct.le_value (take 2 rest13)) (Struct.le_value (take 2 rest14))
              (Struct.le_value (take 8 rest15)))
      | inr e ↦ rw e (λ x h. cc h)
    ]

decode-RaisesOnly : (bs : Bytes) → RaisesOnly (decode_websocket_binary_frame bs)
unfolding decode_websocket_binary_frame
decode-RaisesOnly bs =
    >>=-RaisesOnly (require (leb header_length (length bs))) _ (require-RaisesOnly _) λ _ _.
      >>=-RaisesOnly (Header.unpack none (take header_length bs)) _
        (unpack_header-RaisesOnly none _)
        λ header _.
          >>=-RaisesOnly
            (require (length bs == header.header_len + header.meta_len + header.body_len)) _
            (require-RaisesOnly _) λ _ _. ok-RaisesOnly _

read_frame-RaisesOnly : (bs : Bytes) → RaisesOnly (read_frame bs)
unfolding read_frame
read_frame-RaisesOnly bs =
    >>=-RaisesOnly (require (leb header_length (length bs))) _ (require-RaisesOnly _) λ _ _.
      >>=-RaisesOnly (Header.unpack none (take header_length bs)) _
        (unpack_header-RaisesOnly none _)
        λ header _.
          >>=-RaisesOnly
            (require (leb (header.header_len + header.meta_len + header.body_len) (length bs))) _
            (require-RaisesOnly _)
            λ _ _.
              >>=-RaisesOnly
                (decode_websocket_binary_frame
                  (take (header.header_len + header.meta_len + header.body_len) bs))
                _ (decode-RaisesOnly _) λ frame _. ok-RaisesOnly _

-- A frame takes its header at least.
read_frame_takes :
    (bs : Bytes) (f : DecodedRuntimeFrame) (rest : Bytes)
    → read_frame bs ≡ ok (f, rest)
    → length rest < length bs
read_frame_takes bs f rest h =
    let (n, positive, within, decoded, left) = read_frame_inv bs f rest h in
    omega (arith, ap length left, length-drop n bs)

batch_loop-RaisesOnly :
    (limit count fuel : ℕ) (bs : Bytes)
    → length bs ≤ fuel
    → RaisesOnly (batch_loop limit count fuel bs)
unfolding batch_loop
batch_loop-RaisesOnly limit count fuel [] room = ok-RaisesOnly _
batch_loop-RaisesOnly limit count zero (b ∷ bs) room = absurd (omega arith)
batch_loop-RaisesOnly limit count (suc fuel) (b ∷ bs) room =
    >>=-RaisesOnly (require (limit == 0 || ltb count limit)) _ (require-RaisesOnly _) λ _ _.
      >>=-RaisesOnly (read_frame (b ∷ bs)) _ (read_frame-RaisesOnly (b ∷ bs)) λ (frame, rest) took.
        >>=-RaisesOnly (batch_loop limit (count + 1) fuel rest) _
          (batch_loop-RaisesOnly limit (count + 1) fuel rest
            (omega (arith, read_frame_takes (b ∷ bs) frame rest took)))
          λ frames _. ok-RaisesOnly _

-- Whatever the batch decoder raises, on any bytes and for any limit, is ValueError; in particular its
-- loop never runs out of its rounds.
pub decode_batch-raises :
    (limit : ℕ) (bs : Bytes) (e : Error)
    → decode_websocket_binary_frame_batch limit bs ≡ err e
    → e ≡ value_error
unfolding decode_websocket_binary_frame_batch
decode_batch-raises limit bs = batch_loop-RaisesOnly limit 0 (length bs) bs (omega arith)
