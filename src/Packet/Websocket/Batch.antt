-- ===== src/Packet/Websocket/Batch.antt =====
-- runtime/__init__.py: a batch of frames, one behind the other, and its limit.
use nnrp_py.Common.{
  ℕ, zero, suc, ◌+◌, ◌≤◌, ◌<◌, ◌≡◌, ap, Bool, true, ◌||◌, ◌==◌, leb, ltb, if◌then◌else◌, Bool-cases,
  inl, inr, List, [], ◌∷◌, ◌++◌, length, length-append, All, Result, ok, err, value_error, ◌>>=◌,
  ◌>>◌, >>=-eq-ok, require, from_ok, arith,
}
use nnrp_py.Struct.{Bytes, IsByte}
use nnrp_py.Stream.{write_all}
use nnrp_py.Packet.Websocket.{
  DecodedRuntimeFrame, read_frame, batch_loop, decode_websocket_binary_frame_batch,
}
use nnrp_py.Packet.Websocket.Frame.{encode, frame-Inverts, frame-Accepts}
open frame-Inverts use {read-write, length-write}
open frame-Accepts use {write-read}

-- The frames, one behind the other.
abbrev pub encode_all : List DecodedRuntimeFrame → Result Bytes
encode_all = write_all encode

loop_step :
    (limit count fuel : ℕ) (bs : Bytes) (f : DecodedRuntimeFrame) (rest : Bytes)
    → 0 < length bs
    → read_frame bs ≡ ok (f, rest)
    → batch_loop limit count (suc fuel) bs ≡ (
        require (limit == 0 || ltb count limit)
        >> (batch_loop limit (count + 1) fuel rest >>= λ fs. ok (f ∷ fs)))
unfolding batch_loop
loop_step limit count fuel [] f rest h e = absurd (omega arith)
loop_step limit count fuel (b ∷ bs) f rest h e = rw e

loop-append :
    (limit count fuel : ℕ) (f : DecodedRuntimeFrame) (first others : Bytes)
    → encode f ≡ ok first
    → batch_loop limit count (suc fuel) (first ++ others) ≡ (
        require (limit == 0 || ltb count limit)
        >> (batch_loop limit (count + 1) fuel others >>= λ fs. ok (f ∷ fs)))
loop-append limit count fuel f first others wrote =
    loop_step limit count fuel (first ++ others) f others
      (omega (arith, length-append first others, length-write f first wrote))
      (read-write f first others wrote)

abbrev within : ℕ → ℕ → Bool
within limit n = limit == 0 || leb n limit

-- `count` frames have been read, and were not too many.
batch_loop-encode_all :
    (limit count fuel : ℕ) (fs : List DecodedRuntimeFrame) (bs : Bytes)
    → within limit count ≡ true
    → encode_all fs ≡ ok bs
    → length bs ≤ fuel
    → batch_loop limit count fuel bs
      ≡ (if within limit (count + length fs) then ok fs else err value_error)
unfolding write_all
batch_loop-encode_all limit count fuel [] [] w h room = unfold batch_loop in ground arith
batch_loop-encode_all limit count fuel [] (b ∷ bs) w h room = cc
batch_loop-encode_all limit count zero (f ∷ fs) bs w h room =
    let (first, wrote, h1) = >>=-eq-ok (encode f) _ h in
    let (others, wrote_others, h2) = >>=-eq-ok (write_all encode fs) _ h1 in
    absurd (
      omega
        (arith, ap length (from_ok _ _ h2), length-append first others, length-write f first wrote))
batch_loop-encode_all limit count (suc fuel) (f ∷ fs) bs w h room =
    let (first, wrote, h1) = >>=-eq-ok (encode f) _ h in
    let (others, wrote_others, h2) = >>=-eq-ok (write_all encode fs) _ h1 in
    let joined : first ++ others ≡ bs = from_ok _ _ h2 in
    let enough : length others ≤ fuel =
      omega (arith, ap length joined, length-append first others, length-write f first wrote) in
    rw (← joined, loop-append limit count fuel f first others wrote)
      (elim (Bool-cases (limit == 0 || ltb count limit)) [
        | inl more ↦
            let next : within limit (count + 1) ≡ true = ground arith in
            rw
              (
                more,
                batch_loop-encode_all limit (count + 1) fuel fs others next wrote_others enough,
              )
              (ground arith)
        | inr full ↦ rw full (ground arith)
      ])

-- A batch of encoded frames is decoded into those frames if the limit is 0 or not below their
-- number, and refused with ValueError otherwise.
pub decode-encode_all :
    (limit : ℕ) (fs : List DecodedRuntimeFrame) (bs : Bytes)
    → encode_all fs ≡ ok bs
    → decode_websocket_binary_frame_batch limit bs
      ≡ (if limit == 0 || leb (length fs) limit then ok fs else err value_error)
unfolding decode_websocket_binary_frame_batch
decode-encode_all limit fs bs h =
    rw (batch_loop-encode_all limit 0 (length bs) fs bs (ground arith) h (omega arith))
      (ap (λ n. if limit == 0 || leb n limit then ok fs else err value_error) (omega arith))

encode_all-batch_loop :
    (limit count fuel : ℕ) (bs : Bytes) (fs : List DecodedRuntimeFrame)
    → All IsByte bs
    → batch_loop limit count fuel bs ≡ ok fs
    → encode_all fs ≡ ok bs
unfolding batch_loop write_all
encode_all-batch_loop limit count fuel [] fs bytes h = rw (← from_ok [] fs h)
encode_all-batch_loop limit count zero (b ∷ bs) fs bytes h = cc
encode_all-batch_loop limit count (suc fuel) (b ∷ bs) fs bytes h =
    let (_, more, h1) = >>=-eq-ok (require (limit == 0 || ltb count limit)) _ h in
    let ((f, rest), took, h2) = >>=-eq-ok (read_frame (b ∷ bs)) _ h1 in
    let (others, read_others, h3) = >>=-eq-ok (batch_loop limit (count + 1) fuel rest) _ h2 in
    let (first, wrote, joined, rest_bytes) = write-read (b ∷ bs) f rest bytes took in
    let ih = encode_all-batch_loop limit (count + 1) fuel rest others rest_bytes read_others in
    rw (← from_ok (f ∷ others) fs h3, wrote, ih, joined)

-- A batch that is decoded, whatever the limit, is its frames encoded one behind the other.
pub encode_all-decode :
    (limit : ℕ) (bs : Bytes) (fs : List DecodedRuntimeFrame)
    → All IsByte bs
    → decode_websocket_binary_frame_batch limit bs ≡ ok fs
    → encode_all fs ≡ ok bs
unfolding decode_websocket_binary_frame_batch
encode_all-decode limit bs fs = encode_all-batch_loop limit 0 (length bs) bs fs
