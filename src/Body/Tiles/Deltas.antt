-- ===== src/Body/Tiles/Deltas.antt =====
-- core/packet.py: the deltas of ascending tile ids, and their running sums.
use nnrp_py.Common.{
  ℕ, ◌-◌, ◌+◌, ◌<◌, ◌≡◌, refl, ap, Option, none, some, List, [], ◌∷◌, length, leb, ok, >>=-eq-ok,
  require, require-eq-ok, not, arith,
}
use nnrp_py.Struct.{Bytes}
use nnrp_py.Stream.{write_all}
use nnrp_py.Body.Tiles.{
  delta_of, pack_u16, pack_deltas, unpack_deltas, validate_strictly_increasing_tile_ids,
}

-- Each id is above the one before.
abbrev pub AscendsFrom : ℕ → List ℕ → Type 0
AscendsFrom previous [] = Unit
AscendsFrom previous (id ∷ ids) = (previous < id) × AscendsFrom id ids

abbrev pub Ascends : List ℕ → Type 0
Ascends [] = Unit
Ascends (id ∷ ids) = AscendsFrom id ids

pub Ascends-of_validate :
    (ids : List ℕ) → validate_strictly_increasing_tile_ids ids ≡ ok tt → Ascends ids
unfolding validate_strictly_increasing_tile_ids
Ascends-of_validate [] h = tt
Ascends-of_validate (a ∷ []) h = tt
Ascends-of_validate (a ∷ b ∷ ids) h =
    let (_, above, h1) = >>=-eq-ok (require (not (leb b a))) _ h in
    let test = require-eq-ok (not (leb b a)) above in
    (ground arith, Ascends-of_validate (b ∷ ids) h1)

-- The differences that are written.
abbrev pub deltas : Option ℕ → List ℕ → List ℕ
deltas previous [] = []
deltas previous (id ∷ ids) = delta_of previous id ∷ deltas (some id) ids

pub length-deltas : (previous : Option ℕ) (ids : List ℕ) → length (deltas previous ids) ≡ length ids
length-deltas previous [] = refl
length-deltas previous (id ∷ ids) = omega (arith, length-deltas (some id) ids)

pub write_all-deltas :
    (previous : Option ℕ) (ids : List ℕ) (bs : Bytes)
    → pack_deltas previous ids ≡ ok bs
    → write_all pack_u16 (deltas previous ids) ≡ ok bs
unfolding pack_deltas write_all
write_all-deltas previous [] bs h = h
write_all-deltas previous (id ∷ ids) bs h =
    let (_, _, h1) = >>=-eq-ok (require (leb (delta_of previous id) 0xFFFF)) _ h in
    let (first, wrote, h2) = >>=-eq-ok (pack_u16 (delta_of previous id)) _ h1 in
    let (rest, wrote_rest, h3) = >>=-eq-ok (pack_deltas (some id) ids) _ h2 in
    rw (wrote, write_all-deltas (some id) ids rest wrote_rest) h3

sums_from :
    (p : ℕ) (ids : List ℕ) → AscendsFrom p ids → unpack_deltas (some p) (deltas (some p) ids) ≡ ids
unfolding unpack_deltas
sums_from p [] h = refl
sums_from p (id ∷ ids) (above, h) =
    let sum : p + (id - p) ≡ id = omega arith in rw sum (ap (λ l. id ∷ l) (sums_from id ids h))

-- The running sums of the differences of ascending ids are the ids.
pub unpack_deltas-deltas : (ids : List ℕ) → Ascends ids → unpack_deltas none (deltas none ids) ≡ ids
unfolding unpack_deltas
unpack_deltas-deltas [] h = refl
unpack_deltas-deltas (id ∷ ids) h = ap (λ l. id ∷ l) (sums_from id ids h)
