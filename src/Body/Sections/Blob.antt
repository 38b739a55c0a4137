-- ===== src/Body/Sections/Blob.antt =====
-- core/packet.py: `_build_section_payload_blob`, cut by `payload_slices` into the payloads again.
use nnrp_py.Common.{
  ℕ, suc, ◌-◌, ◌*◌, ◌/◌, ◌%◌, ◌≡◌, refl, sym, ap, ◌∙◌, List, [], ◌∷◌, ◌++◌, append_assoc, map,
  length, length-append, length-replicate, drop, take-append, drop-append, leb, le→leb, leb→le,
  ==_self, ◌==◌, zeros, all_zero-zeros, Result, ok, >>=-eq-ok, from_ok, require, require-eq-ok,
  Bool-cases, inl, inr, arith,
}
use nnrp_py.Struct
use nnrp_py.Struct.{Bytes}
use nnrp_py.Stream.{write_all}
use nnrp_py.Body.Slices.{concat}
use nnrp_py.Body.Words.{WritesWord, words-write_all, length-write_words}
use nnrp_py.Body.Sections.{
  TensorSectionView, tile_lengths, stride_slices, tight_slices, sum, payload_slices, pack_length,
  fixed_stride_blob, build_section_payload_blob,
}

abbrev pub lengths_of : List Bytes → List ℕ
lengths_of = map (λ p. length p)

pub length-lengths_of : (ps : List Bytes) → length (lengths_of ps) ≡ length ps
length-lengths_of [] = refl
length-lengths_of (p ∷ ps) = ap suc (length-lengths_of ps)

abbrev write_entry : ℕ → Result Bytes
write_entry n = Struct.pack (4 ∷ []) (n ∷ [])

write_all-lengths :
    (ps : List Bytes) → write_all write_entry (lengths_of ps) ≡ write_all pack_length ps
unfolding write_all pack_length
write_all-lengths [] = refl
write_all-lengths (p ∷ ps) = rw (write_all-lengths ps) refl

-- The table that is written of the payloads is read as their lengths.
pub tile_lengths-written :
    (ps : List Bytes) (v : TensorSectionView)
    → write_all pack_length ps ≡ ok v.length_table
    → tile_lengths v ≡ ok (lengths_of ps)
unfolding tile_lengths
tile_lengths-written ps v h =
    let wrote : write_all write_entry (lengths_of ps) ≡ ok v.length_table =
      write_all-lengths ps ∙ h in
    let writes : WritesWord 4 write_entry = λ n bs e. e in
    let size = length-write_words 4 write_entry writes (lengths_of ps) v.length_table wrote in
    let read = words-write_all 4 write_entry writes (lengths_of ps) v.length_table wrote in
    let count : length v.length_table / 4 ≡ length (lengths_of ps) = omega (arith, size) in
    rw (==_self (length v.length_table % 4) 0 (omega (arith, size)), count) (ap ok read)

tight_slices-concat : (ps : List Bytes) → tight_slices (lengths_of ps) (concat ps) ≡ ps
unfolding tight_slices
tight_slices-concat [] = refl
tight_slices-concat (p ∷ ps) =
    rw (take-append (length p) p (concat ps) refl, drop-append (length p) p (concat ps) refl)
      (ap (λ l. p ∷ l) (tight_slices-concat ps))

sum-lengths : (ps : List Bytes) → sum (lengths_of ps) ≡ length (concat ps)
sum-lengths [] = refl
sum-lengths (p ∷ ps) = omega (arith, sum-lengths ps, length-append p (concat ps))

length-fixed_stride_blob :
    (stride : ℕ) (ps : List Bytes) (blob : Bytes)
    → fixed_stride_blob stride ps ≡ ok blob
    → length blob ≡ stride * length ps
unfolding fixed_stride_blob
length-fixed_stride_blob stride [] blob h = rw (← from_ok [] blob h) (omega arith)
length-fixed_stride_blob stride (p ∷ ps) blob h =
    let (_, test, h1) = >>=-eq-ok (require (leb (length p) stride)) _ h in
    let (rest, made, h2) = >>=-eq-ok (fixed_stride_blob stride ps) _ h1 in
    let pad : Bytes = zeros (stride - length p) in
    let pad_len : length pad ≡ stride - length p = length-replicate {A = ℕ} (stride - length p) 0 in
    let fits = leb→le (length p) stride (require-eq-ok _ test) in
    let ih = length-fixed_stride_blob stride ps rest made in
    rw (← from_ok _ blob h2) (omega (arith, length-append p (pad ++ rest), length-append pad rest))

stride_slices-blob :
    (stride : ℕ) (ps : List Bytes) (blob : Bytes)
    → fixed_stride_blob stride ps ≡ ok blob
    → stride_slices stride (lengths_of ps) blob ≡ ok ps
unfolding fixed_stride_blob stride_slices
stride_slices-blob stride [] blob h = refl
stride_slices-blob stride (p ∷ ps) blob h =
    let (_, test, h1) = >>=-eq-ok (require (leb (length p) stride)) _ h in
    let (rest, made, h2) = >>=-eq-ok (fixed_stride_blob stride ps) _ h1 in
    let pad : Bytes = zeros (stride - length p) in
    let pad_len : length pad ≡ stride - length p = length-replicate {A = ℕ} (stride - length p) 0 in
    let fits = leb→le (length p) stride (require-eq-ok _ test) in
    let joined : (p ++ pad) ++ rest ≡ p ++ (pad ++ rest) = append_assoc p pad rest in
    let whole : drop stride (p ++ (pad ++ rest)) ≡ rest =
      ap (drop stride) (sym joined)
      ∙ drop-append stride (p ++ pad) rest (omega (arith, length-append p pad)) in
    rw (
      ← from_ok _ blob h2,
      le→leb (length p) stride fits,
      drop-append (length p) p (pad ++ rest) refl,
      take-append (stride - length p) pad rest (sym pad_len),
      all_zero-zeros (stride - length p),
      whole,
      stride_slices-blob stride ps rest made,
      take-append (length p) p (pad ++ rest) refl,
    )

-- In both layouts the blob is cut into the payloads again.
pub payload_slices-blob :
    (ps : List Bytes) (flags : ℕ) (v : TensorSectionView)
    → write_all pack_length ps ≡ ok v.length_table
    → build_section_payload_blob v.desc.payload_stride_bytes ps ≡ ok (v.payload, flags)
    → payload_slices v ≡ ok ps
unfolding build_section_payload_blob payload_slices
payload_slices-blob ps flags v table h = elim (Bool-cases (v.desc.payload_stride_bytes == 0)) [
  | inl tight ↦
      let same : concat ps ≡ v.payload = cc (rw tight at h) in
      rw (
        tile_lengths-written ps v table,
        tight,
        ← same,
        ==_self _ _ (sum-lengths ps),
        tight_slices-concat ps,
      )
  | inr wide ↦
      let stride = v.desc.payload_stride_bytes in
      let (blob, made, h1) = >>=-eq-ok (fixed_stride_blob stride ps) _ (rw wide at h) in
      let same : blob ≡ v.payload = cc h1 in
      let size = length-fixed_stride_blob stride ps blob made in
      let count = length-lengths_of ps in
      rw (
        tile_lengths-written ps v table,
        wide,
        ← same,
        ==_self (length blob) (stride * length (lengths_of ps)) (rw count size),
        stride_slices-blob stride ps blob made,
      )
]
