-- ===== src/Struct/RoundTrip.antt =====
-- `pack` and `unpack` of a struct format together.
use native.Mathlib.Nat.{pow-suc}
use nnrp_py.Common.{
  ℕ, zero, suc, ◌+◌, ◌*◌, ◌/◌, ◌%◌, ◌^◌, ◌<◌, ◌≡◌, refl, sym, ap, ◌∙◌, List, [], ◌∷◌, ◌++◌, ltb,
  ltb→lt, lt→ltb, ==_self, Bool-cases, inl, inr, length, take, drop, All, length-append,
  length-take, length-drop, take-append, drop-append, take-append-drop, All-append, All-take,
  All-drop, Result, ok, err, >>=-eq-ok, RaisesOnly, ok-RaisesOnly, arith,
}
use nnrp_py.Struct.{Bytes, IsByte, Struct, size, le_bytes, le_value, pack, values, unpack, Fits}

pub length-le_bytes : (w v : ℕ) → length (le_bytes w v) ≡ w
unfolding le_bytes
length-le_bytes zero v = refl
length-le_bytes (suc w) v = ap suc (length-le_bytes w (v / 256))

pub le_bytes-IsByte : (w v : ℕ) → All IsByte (le_bytes w v)
unfolding le_bytes
le_bytes-IsByte zero v = tt
le_bytes-IsByte (suc w) v = (omega arith, le_bytes-IsByte w (v / 256))

pub le_value-le_bytes : (w v : ℕ) → v < 256 ^ w → le_value (le_bytes w v) ≡ v
unfolding le_bytes le_value
le_value-le_bytes zero v h = omega arith
le_value-le_bytes (suc w) v h =
    omega (arith, le_value-le_bytes w (v / 256) (omega (arith, pow-suc 256 w)))

pub le_bytes-le_value : (bs : Bytes) → All IsByte bs → le_bytes (length bs) (le_value bs) ≡ bs
unfolding le_bytes le_value
le_bytes-le_value [] h = refl
le_bytes-le_value (b ∷ bs) h =
    let first : (b + 256 * le_value bs) % 256 ≡ b = omega arith in
    let rest : (b + 256 * le_value bs) / 256 ≡ le_value bs = omega arith in
    rw (first, rest, le_bytes-le_value bs h.1)

pub le_value-lt : (bs : Bytes) → All IsByte bs → le_value bs < 256 ^ length bs
unfolding le_value
le_value-lt [] h = omega arith
le_value-lt (b ∷ bs) h = omega (arith, le_value-lt bs h.1, pow-suc 256 (length bs))

-- A successful `pack` took values that fit, and wrote as many bytes as the format says.
pub Fits-of_pack : (ws : Struct) (vs : List ℕ) (bs : Bytes) → pack ws vs ≡ ok bs → Fits ws vs
unfolding pack
Fits-of_pack [] [] bs h = tt
Fits-of_pack [] (v ∷ vs) bs h = cc
Fits-of_pack (w ∷ ws) [] bs h = cc
Fits-of_pack (w ∷ ws) (v ∷ vs) bs h = elim (Bool-cases (ltb v (256 ^ w))) [
  | inl fits ↦
      let (rest, packed, _) = >>=-eq-ok (pack ws vs) _ (rw fits at h) in
      (ltb→lt v _ fits, Fits-of_pack ws vs rest packed)
  | inr large ↦ cc (rw large at h)
]

abbrev encoding : Struct → List ℕ → Bytes
encoding (w ∷ ws) (v ∷ vs) = le_bytes w v ++ encoding ws vs
encoding _ _ = []

pub pack-encoding : (ws : Struct) (vs : List ℕ) → Fits ws vs → pack ws vs ≡ ok (encoding ws vs)
unfolding pack
pack-encoding [] [] h = refl
pack-encoding [] (v ∷ vs) h = absurd h
pack-encoding (w ∷ ws) [] h = absurd h
pack-encoding (w ∷ ws) (v ∷ vs) h = rw (lt→ltb v _ h.0) (rw (pack-encoding ws vs h.1))

abbrev from_ok : Bytes → Result Bytes → Bytes
from_ok d (ok bs) = bs
from_ok d (err e) = d

bytes_of_pack : (ws : Struct) (vs : List ℕ) (bs : Bytes) → pack ws vs ≡ ok bs → encoding ws vs ≡ bs
bytes_of_pack ws vs bs h = ap (from_ok []) (sym (pack-encoding ws vs (Fits-of_pack ws vs bs h)) ∙ h)

length-encoding : (ws : Struct) (vs : List ℕ) → Fits ws vs → length (encoding ws vs) ≡ size ws
length-encoding [] [] h = refl
length-encoding [] (v ∷ vs) h = absurd h
length-encoding (w ∷ ws) [] h = absurd h
length-encoding (w ∷ ws) (v ∷ vs) h = omega (
  arith,
  length-append (le_bytes w v) (encoding ws vs),
  length-le_bytes w v,
  length-encoding ws vs h.1,
)

encoding-IsByte : (ws : Struct) (vs : List ℕ) → Fits ws vs → All IsByte (encoding ws vs)
encoding-IsByte [] [] h = tt
encoding-IsByte [] (v ∷ vs) h = absurd h
encoding-IsByte (w ∷ ws) [] h = absurd h
encoding-IsByte (w ∷ ws) (v ∷ vs) h =
    All-append _ (le_bytes w v) (encoding ws vs) (le_bytes-IsByte w v) (encoding-IsByte ws vs h.1)

values-encoding : (ws : Struct) (vs : List ℕ) → Fits ws vs → values ws (encoding ws vs) ≡ vs
unfolding values
values-encoding [] [] h = refl
values-encoding [] (v ∷ vs) h = absurd h
values-encoding (w ∷ ws) [] h = absurd h
values-encoding (w ∷ ws) (v ∷ vs) h =
    let cut : w ≡ length (le_bytes w v) = sym (length-le_bytes w v) in
    rw (
      take-append w (le_bytes w v) (encoding ws vs) cut,
      drop-append w (le_bytes w v) (encoding ws vs) cut,
      le_value-le_bytes w v h.0,
      values-encoding ws vs h.1,
    )

-- What `pack` returns has the size of the format and holds bytes.
pub length-pack :
    (ws : Struct) (vs : List ℕ) (bs : Bytes) → pack ws vs ≡ ok bs → length bs ≡ size ws
length-pack ws vs bs h =
    rw (← bytes_of_pack ws vs bs h) (length-encoding ws vs (Fits-of_pack ws vs bs h))

pub pack-IsByte : (ws : Struct) (vs : List ℕ) (bs : Bytes) → pack ws vs ≡ ok bs → All IsByte bs
pack-IsByte ws vs bs h =
    rw (← bytes_of_pack ws vs bs h) (encoding-IsByte ws vs (Fits-of_pack ws vs bs h))

values-pack : (ws : Struct) (vs : List ℕ) (bs : Bytes) → pack ws vs ≡ ok bs → values ws bs ≡ vs
values-pack ws vs bs h =
    rw (← bytes_of_pack ws vs bs h) (values-encoding ws vs (Fits-of_pack ws vs bs h))

pub unpack-pack :
    (ws : Struct) (vs : List ℕ) (bs : Bytes) → pack ws vs ≡ ok bs → unpack ws bs ≡ ok vs
unfolding unpack
unpack-pack ws vs bs h =
    rw (==_self (length bs) (size ws) (length-pack ws vs bs h)) (ap ok (values-pack ws vs bs h))

pub values-Fits :
    (ws : Struct) (bs : Bytes) → All IsByte bs → length bs ≡ size ws → Fits ws (values ws bs)
unfolding values
values-Fits [] bs h e = tt
values-Fits (w ∷ ws) bs h e =
    let cut : length (take w bs) ≡ w = omega (arith, length-take w bs) in
    (
      rw cut at (le_value-lt (take w bs) (All-take _ w bs h)),
      values-Fits ws (drop w bs) (All-drop IsByte w bs h) (omega (arith, length-drop w bs)),
    )

encoding-values :
    (ws : Struct) (bs : Bytes)
    → All IsByte bs
    → length bs ≡ size ws
    → encoding ws (values ws bs) ≡ bs
unfolding values
encoding-values [] [] h e = refl
encoding-values [] (b ∷ bs) h e = absurd (omega arith)
encoding-values (w ∷ ws) bs h e =
    let cut : length (take w bs) ≡ w = omega (arith, length-take w bs) in
    rw (
      rw cut at (le_bytes-le_value (take w bs) (All-take _ w bs h)),
      encoding-values ws (drop w bs) (All-drop _ w bs h) (omega (arith, length-drop w bs)),
      take-append-drop w bs,
    )

pub pack-values :
    (ws : Struct) (bs : Bytes)
    → All IsByte bs
    → length bs ≡ size ws
    → pack ws (values ws bs) ≡ ok bs
pack-values ws bs h e =
    pack-encoding ws (values ws bs) (values-Fits ws bs h e) ∙ ap ok (encoding-values ws bs h e)

-- `unpack` succeeds exactly on byte strings of the format's size.
pub unpack-values :
    (ws : Struct) (bs : Bytes) → length bs ≡ size ws → unpack ws bs ≡ ok (values ws bs)
unfolding unpack
unpack-values ws bs e = rw (==_self (length bs) (size ws) e)

pub length_of_unpack :
    (ws : Struct) (bs : Bytes) (vs : List ℕ) → unpack ws bs ≡ ok vs → length bs ≡ size ws
unfolding unpack
length_of_unpack ws bs vs h = ground arith

pub pack-unpack :
    (ws : Struct) (bs : Bytes) (vs : List ℕ)
    → All IsByte bs
    → unpack ws bs ≡ ok vs
    → pack ws vs ≡ ok bs
pack-unpack ws bs vs bytes h =
    let size_is : length bs ≡ size ws = length_of_unpack ws bs vs h in
    let same : values ws bs ≡ vs = cc (h, unpack-values ws bs size_is) in
    rw (← same) (pack-values ws bs bytes size_is)

-- The two ways to see a successful `pack` as a value that `unpack` accepts.
pub pack_total : (ws : Struct) (vs : List ℕ) → Fits ws vs → (bs : Bytes) × (pack ws vs ≡ ok bs)
pack_total ws vs h = (encoding ws vs, pack-encoding ws vs h)

pub values_of_unpack :
    (ws : Struct) (bs : Bytes) (vs : List ℕ) → unpack ws bs ≡ ok vs → values ws bs ≡ vs
values_of_unpack ws bs vs h = cc (h, unpack-values ws bs (length_of_unpack ws bs vs h))

-- On bytes of the right number it does not raise.
pub unpack-RaisesOnly : (ws : Struct) (bs : Bytes) → length bs ≡ size ws → RaisesOnly (unpack ws bs)
unpack-RaisesOnly ws bs h = rw (unpack-values ws bs h) (ok-RaisesOnly _)
