-- ===== src/Body/Words.antt =====
-- core/packet.py: entries of one width that lie back to back, as `struct` packs them one by one.
use nnrp_py.Common.{
  ℕ, zero, suc, ◌*◌, ◌^◌, ◌≡◌, ap, List, [], ◌∷◌, ◌++◌, length, replicate, append-nil, ◌∙◌, ltb,
  Bool-cases, inl, inr, Result, ok, >>=-eq-ok, from_ok, arith,
}
use nnrp_py.Struct.{Bytes, Struct, size, pack, values, le_bytes}
use nnrp_py.Struct.RoundTrip.{unpack-pack, length-pack, values_of_unpack}
use nnrp_py.Stream.{write_all}

-- `entry.unpack_from(view, offset)[0]` at the offsets of `count` entries.
abbrev pub words : ℕ → ℕ → Bytes → List ℕ
words width count = values (replicate count width)

pub size-replicate : (count width : ℕ) → size (replicate count width) ≡ count * width
size-replicate zero width = omega arith
size-replicate (suc count) width = omega (arith, size-replicate count width)

pack-cons :
    (width v : ℕ) (first : Bytes) (ws : Struct) (vs : List ℕ) (rest : Bytes)
    → pack (width ∷ []) (v ∷ []) ≡ ok first
    → pack ws vs ≡ ok rest
    → pack (width ∷ ws) (v ∷ vs) ≡ ok (first ++ rest)
unfolding pack
pack-cons width v first ws vs rest one others = elim (Bool-cases (ltb v (256 ^ width))) [
  | inl fits ↦
      let alone : le_bytes width v ++ [] ≡ first = from_ok _ _ (rw fits at one) in
      let same : le_bytes width v ≡ first = rw (append-nil (le_bytes width v)) at alone in
      rw (fits, others) (ap (λ l. ok (l ++ rest)) same)
  | inr large ↦ cc (rw large at one)
]

-- A writer of one entry that writes what `struct` does, when it does not raise.
abbrev pub WritesWord : ℕ → (ℕ → Result Bytes) → Type 0
WritesWord width write = (v : ℕ) (bs : Bytes) → write v ≡ ok bs → pack (width ∷ []) (v ∷ []) ≡ ok bs

module _ (width : ℕ) (write : ℕ → Result Bytes) (writes : WritesWord width write) where
  pub pack-write_all :
      (vs : List ℕ) (bs : Bytes)
      → write_all write vs ≡ ok bs
      → pack (replicate (length vs) width) vs ≡ ok bs
  unfolding write_all
  pack-write_all [] bs h = unfold pack in h
  pack-write_all (v ∷ vs) bs h =
      let (first, wrote, h1) = >>=-eq-ok (write v) _ h in
      let (rest, wrote_rest, h2) = >>=-eq-ok (write_all write vs) _ h1 in
      pack-cons width v first (replicate (length vs) width) vs rest (writes v first wrote)
        (pack-write_all vs rest wrote_rest)
      ∙ h2

  pub length-write_words :
      (vs : List ℕ) (bs : Bytes) → write_all write vs ≡ ok bs → length bs ≡ length vs * width
  length-write_words vs bs h =
      length-pack _ vs bs (pack-write_all vs bs h) ∙ size-replicate (length vs) width

  pub words-write_all :
      (vs : List ℕ) (bs : Bytes) → write_all write vs ≡ ok bs → words width (length vs) bs ≡ vs
  words-write_all vs bs h = values_of_unpack _ bs vs (unpack-pack _ vs bs (pack-write_all vs bs h))
