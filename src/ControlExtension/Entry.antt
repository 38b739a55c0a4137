-- ===== src/ControlExtension/Entry.antt =====
-- One entry of a control extension block.
use nnrp_py.Common.{
  ℕ, ◌+◌, ◌≤◌, ◌<◌, ◌≡◌, refl, sym, ap, ◌∙◌, true, List, [], ◌∷◌, ◌++◌, leb, le→leb, leb→le, length,
  take, drop, all_zero, zeros, all_zero-zeros, zeros_of_all_zero, length-append, length-replicate,
  length-take, length-drop, take-append, drop-append, take-append-drop, drop-drop, All, All-take,
  All-drop, ok, >>=-eq-ok, RaisesOnly, >>=-RaisesOnly, require-RaisesOnly, require, require-eq-ok,
  from_ok, arith, append_assoc,
}
use nnrp_py.Struct
use nnrp_py.Struct.{Bytes, IsByte}
use nnrp_py.Stream.RoundTrip.{Inverts, Accepts, Proceeds}
use nnrp_py.ControlExtension.{
  ControlExtensionEntry, header_struct, padding, pack_entry, read_payload, read_entry,
}

-- The four parts of an entry, laid side by side before `rest`, are found again.
read_parts :
    (type flags : ℕ) (header payload rest : Bytes)
    → length header ≡ 8
    → read_payload
        (header ++ (payload ++ (zeros (padding (length payload)) ++ rest)))
        (type ∷ flags ∷ length payload ∷ [])
      ≡ ok (record { ext_type = type; ext_flags = flags; payload = payload }, rest)
unfolding read_payload
read_parts type flags header payload rest h =
    let n : ℕ = length payload in
    let pad : Bytes = zeros (padding n) in
    let bs : Bytes = header ++ (payload ++ (pad ++ rest)) in
    let pad_len : length pad ≡ padding n = length-replicate (padding n) 0 in
    let total : length bs ≡ 8 + n + padding n + length rest = omega (
      arith,
      length-append header (payload ++ (pad ++ rest)),
      length-append payload (pad ++ rest),
      length-append pad rest,
    ) in
    let after_header : drop 8 bs ≡ payload ++ (pad ++ rest) = drop-append 8 header _ (sym h) in
    let after_payload : drop (8 + n) bs ≡ pad ++ rest =
      sym (drop-drop 8 n bs) ∙ ap (drop n) after_header ∙ drop-append n payload _ refl in
    let after_padding : drop (8 + n + padding n) bs ≡ rest =
      sym (drop-drop (8 + n) (padding n) bs)
      ∙ ap (drop (padding n)) after_payload
      ∙ drop-append (padding n) pad rest (sym pad_len) in
    let cut : take (padding n) (pad ++ rest) ≡ pad =
      take-append (padding n) pad rest (sym pad_len) in
    rw (
      le→leb (8 + n) (length bs) (omega arith),
      le→leb (8 + n + padding n) (length bs) (omega arith),
      after_payload,
      cut,
      all_zero-zeros (padding n),
      after_padding,
      after_header,
      take-append n payload (pad ++ rest) refl,
    )

read_entry-pack_entry :
    (e : ControlExtensionEntry) (bs rest : Bytes)
    → pack_entry e ≡ ok bs
    → read_entry (bs ++ rest) ≡ ok (e, rest)
unfolding pack_entry read_entry
read_entry-pack_entry e bs rest h =
    let (header, packed, h1) =
      >>=-eq-ok (Struct.pack header_struct (e.ext_type ∷ e.ext_flags ∷ length e.payload ∷ [])) _
        h in
    let size_is : length header ≡ 8 = Struct.RoundTrip.length-pack header_struct _ header packed in
    let read = Struct.RoundTrip.unpack-pack header_struct _ header packed in
    let pad : Bytes = zeros (padding (length e.payload)) in
    let bytes_are : header ++ (e.payload ++ pad) ≡ bs = from_ok _ _ h1 in
    let flat : (header ++ (e.payload ++ pad)) ++ rest ≡ header ++ (e.payload ++ (pad ++ rest)) =
      append_assoc header (e.payload ++ pad) rest
      ∙ ap (λ l. header ++ l) (append_assoc e.payload pad rest) in
    rw
      (
        ← bytes_are,
        flat,
        le→leb 8 (length (header ++ (e.payload ++ (pad ++ rest))))
            (omega (arith, length-append header (e.payload ++ (pad ++ rest)))),
        take-append 8 header (e.payload ++ (pad ++ rest)) (sym size_is),
        read,
      )
      (read_parts e.ext_type e.ext_flags header e.payload rest size_is)

length-pack_entry : (e : ControlExtensionEntry) (bs : Bytes) → pack_entry e ≡ ok bs → 0 < length bs
unfolding pack_entry
length-pack_entry e bs h =
    let (header, packed, h1) =
      >>=-eq-ok (Struct.pack header_struct (e.ext_type ∷ e.ext_flags ∷ length e.payload ∷ [])) _
        h in
    let size_is : length header ≡ 8 = Struct.RoundTrip.length-pack header_struct _ header packed in
    omega (
      arith,
      ap length (from_ok _ _ h1),
      length-append header (e.payload ++ zeros (padding (length e.payload))),
    )

pub entry-Inverts : Inverts read_entry pack_entry
entry-Inverts = record { read-write = read_entry-pack_entry; length-write = length-pack_entry }

-- What `read_payload` has checked and cut when it returns.
record Parts (bs : Bytes) (vs : List ℕ) (e : ControlExtensionEntry) (rest : Bytes) (n : ℕ)
    : Type 0 where
  header_is : vs ≡ e.ext_type ∷ e.ext_flags ∷ n ∷ []
  fits : 8 + n + padding n ≤ length bs
  padded : all_zero (take (padding n) (drop (8 + n) bs)) ≡ true
  payload_is : e.payload ≡ take n (drop 8 bs)
  rest_is : rest ≡ drop (8 + n + padding n) bs

read_payload_inv :
    (bs : Bytes) (vs : List ℕ) (e : ControlExtensionEntry) (rest : Bytes)
    → read_payload bs vs ≡ ok (e, rest)
    → (n : ℕ) × Parts bs vs e rest n
unfolding read_payload
read_payload_inv bs (type ∷ flags ∷ n ∷ []) e rest h =
    let (_, enough, h1) = >>=-eq-ok (require (leb (8 + n) (length bs))) _ h in
    let (_, room, h2) = >>=-eq-ok (require (leb (8 + n + padding n) (length bs))) _ h1 in
    let (_, blank, h3) = >>=-eq-ok (require (all_zero (take (padding n) (drop (8 + n) bs)))) _ h2 in
    let made : ControlExtensionEntry = record {
      ext_type = type;
      ext_flags = flags;
      payload = take n (drop 8 bs);
    } in
    let same = from_ok (made, drop (8 + n + padding n) bs) (e, rest) h3 in
    (
      n,
      record {
        header_is =
            ap (λ (p : ControlExtensionEntry × Bytes). p.0.ext_type ∷ p.0.ext_flags ∷ n ∷ []) same;
        fits = leb→le _ _ (require-eq-ok _ room);
        padded = require-eq-ok _ blank;
        payload_is = sym (ap (λ (p : ControlExtensionEntry × Bytes). p.0.payload) same);
        rest_is = sym (ap (λ (p : ControlExtensionEntry × Bytes). p.1) same);
      },
    )
read_payload_inv bs _ e rest h = cc

-- Bytes cut in four at 8, n and k more are the four parts in a row.
four_parts :
    (n k : ℕ) (bs : Bytes)
    → take 8 bs ++ (take n (drop 8 bs) ++ (take k (drop (8 + n) bs) ++ drop (8 + n + k) bs)) ≡ bs
four_parts n k bs = rw (
  ← drop-drop (8 + n) k bs,
  take-append-drop k (drop (8 + n) bs),
  ← drop-drop 8 n bs,
  take-append-drop n (drop 8 bs),
  take-append-drop 8 bs,
)

pack_entry-Parts :
    (bs : Bytes) (vs : List ℕ) (e : ControlExtensionEntry) (rest : Bytes) (n : ℕ)
    → Struct.pack header_struct vs ≡ ok (take 8 bs)
    → Parts bs vs e rest n
    → (first : Bytes) × (pack_entry e ≡ ok first) × (first ++ rest ≡ bs)
unfolding pack_entry
pack_entry-Parts bs vs e rest n packed p =
    let payload_len : length e.payload ≡ n =
      rw p.payload_is (omega (arith, length-take n (drop 8 bs), length-drop 8 bs, p.fits)) in
    let pad_len : length (take (padding n) (drop (8 + n) bs)) ≡ padding n =
      omega (arith, length-take (padding n) (drop (8 + n) bs), length-drop (8 + n) bs, p.fits) in
    let pad_is : zeros (padding n) ≡ take (padding n) (drop (8 + n) bs) =
      ap zeros (sym pad_len) ∙ zeros_of_all_zero _ p.padded in
    let first : Bytes = take 8 bs ++ (e.payload ++ zeros (padding n)) in
    let header : Struct.pack header_struct (e.ext_type ∷ e.ext_flags ∷ length e.payload ∷ [])
        ≡ ok (take 8 bs) =
      rw (payload_len, ← p.header_is) packed in
    let flat : first ++ rest ≡ take 8 bs ++ (e.payload ++ (zeros (padding n) ++ rest)) =
      append_assoc (take 8 bs) (e.payload ++ zeros (padding n)) rest
      ∙ ap (λ l. take 8 bs ++ l) (append_assoc e.payload (zeros (padding n)) rest) in
    (
      first,
      rw (header, payload_len),
      flat ∙ rw (p.payload_is, pad_is, p.rest_is) (four_parts n (padding n) bs),
    )

write-read_entry :
    (bs : Bytes) (e : ControlExtensionEntry) (rest : Bytes)
    → All IsByte bs
    → read_entry bs ≡ ok (e, rest)
    → (first : Bytes) × (pack_entry e ≡ ok first) × (first ++ rest ≡ bs) × All IsByte rest
unfolding read_entry
write-read_entry bs e rest bytes h =
    let (_, enough, h1) = >>=-eq-ok (require (leb 8 (length bs))) _ h in
    let (vs, read, h2) = >>=-eq-ok (Struct.unpack header_struct (take 8 bs)) _ h1 in
    let (n, parts) = read_payload_inv bs vs e rest h2 in
    let packed =
      Struct.RoundTrip.pack-unpack header_struct (take 8 bs) vs (All-take _ 8 bs bytes) read in
    let (first, wrote, joined) = pack_entry-Parts bs vs e rest n packed parts in
    (first, wrote, joined, rw parts.rest_is (All-drop _ (8 + n + padding n) bs bytes))

pub entry-Accepts : Accepts read_entry pack_entry
entry-Accepts = record { write-read = write-read_entry }

read_entry_takes :
    (bs : Bytes) (e : ControlExtensionEntry) (rest : Bytes)
    → read_entry bs ≡ ok (e, rest)
    → length rest < length bs
unfolding read_entry
read_entry_takes bs e rest h =
    let (_, enough, h1) = >>=-eq-ok (require (leb 8 (length bs))) _ h in
    let (vs, read, h2) = >>=-eq-ok (Struct.unpack header_struct (take 8 bs)) _ h1 in
    let (n, parts) = read_payload_inv bs vs e rest h2 in
    omega (arith, ap length parts.rest_is, length-drop (8 + n + padding n) bs, parts.fits)

read_payload-RaisesOnly : (bs : Bytes) (a b c : ℕ) → RaisesOnly (read_payload bs (a ∷ b ∷ c ∷ []))
unfolding read_payload
read_payload-RaisesOnly bs a b c e h = ground arith

read_entry-RaisesOnly : (bs : Bytes) → RaisesOnly (read_entry bs)
unfolding read_entry
read_entry-RaisesOnly bs =
    >>=-RaisesOnly (require (leb 8 (length bs))) _ (require-RaisesOnly _) λ _ enough.
      >>=-RaisesOnly (Struct.unpack header_struct (take 8 bs)) _
        (Struct.RoundTrip.unpack-RaisesOnly header_struct (take 8 bs)
          (omega (arith, length-take 8 bs, leb→le _ _ (require-eq-ok _ enough))))
        λ vs read.
          rw (← Struct.RoundTrip.values_of_unpack header_struct (take 8 bs) vs read)
            (unfold Struct.values in read_payload-RaisesOnly bs _ _ _)

pub entry-Proceeds : Proceeds read_entry
entry-Proceeds = record { takes = read_entry_takes; raises = read_entry-RaisesOnly }
