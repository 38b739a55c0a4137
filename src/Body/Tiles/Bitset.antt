-- ===== src/Body/Tiles/Bitset.antt =====
-- core/packet.py: a tile index bitset. A bit above all others adds its index behind theirs.
use nnrp_py.Common.{
  ℕ, zero, suc, ◌+◌, ◌*◌, ◌/◌, ◌%◌, ◌^◌, ◌≤◌, ◌<◌, ◌≡◌, refl, sym, ap, Bool, true, ◌&&◌, ◌||◌, not,
  List, [], ◌∷◌, ◌++◌, append-nil, append_assoc, ◌∙◌, length, ltb, lt→ltb, ltb→lt, leb, ◌==◌, zeros,
  bit_or, ok, >>=-eq-ok, from_ok, arith,
}
use nnrp_py.Struct.{Bytes}
use nnrp_py.Body.Tiles.{set_bit, set_bits, offsets_from, shift_ids, bit_indices, same_ids}
use nnrp_py.Body.Tiles.Deltas.{AscendsFrom}

-- A table: the test passes at each of the first numbers.
abbrev passes : (ℕ → Bool) → ℕ → Bool
passes test zero = true
passes test (suc count) = passes test count && test count

look_up :
    (test : ℕ → Bool) (count entry : ℕ)
    → entry < count
    → passes test count ≡ true
    → test entry ≡ true
look_up test zero entry inside table = absurd (omega arith)
look_up test (suc count) entry inside table = ground (arith, look_up test count entry)

pub same_ids→eq : (xs ys : List ℕ) → same_ids xs ys ≡ true → xs ≡ ys
same_ids→eq [] [] h = refl
same_ids→eq [] (y ∷ ys) h = cc
same_ids→eq (x ∷ xs) [] h = cc
same_ids→eq (x ∷ xs) (y ∷ ys) h =
    let rest : xs ≡ ys = same_ids→eq xs ys (ground arith) in
    let first : x ≡ y = ground arith in rw (first, rest)

and_left : (a b : Bool) → (a && b) ≡ true → a ≡ true
and_left a b h = ground arith

and_right : (a b : Bool) → (a && b) ≡ true → b ≡ true
and_right a b h = ground arith

-- A byte with all its bits below an offset, and the bit at the offset set.
abbrev appends : ℕ → ℕ → Bool
appends offset b =
    not (ltb b (2 ^ offset))
    || (ltb (bit_or b (2 ^ offset)) (2 ^ suc offset)
        && same_ids (offsets_from 0 8 (bit_or b (2 ^ offset))) (offsets_from 0 8 b ++ offset ∷ []))

appends_table : passes (λ offset. passes (appends offset) 256) 8 ≡ true
appends_table = refl

byte_appends : (offset b : ℕ) → offset < 8 → b < 256 → appends offset b ≡ true
byte_appends offset b small byte =
    look_up (appends offset) 256 b byte
      (look_up (λ o. passes (appends o) 256) 8 offset small appends_table)

abbrev power_facts : ℕ → ℕ → Bool
power_facts high low =
    leb (2 ^ low) 128 && not (2 ^ low == 0) && (leb high low || leb (2 ^ suc low) (2 ^ high))

power_table : passes (λ high. passes (power_facts high) 8) 8 ≡ true
power_table = refl

powers : (low high : ℕ) → low < 8 → high < 8 → power_facts high low ≡ true
powers low high a b =
    look_up (power_facts high) 8 low a
      (look_up (λ h. passes (power_facts h) 8) 8 high b power_table)

abbrev Zero : Bytes → Type 0
Zero [] = Unit
Zero (b ∷ bs) = (b ≡ 0) × Zero bs

-- No bit at the offset of the byte at the index, or behind it, is set.
abbrev pub Below : ℕ → ℕ → Bytes → Type 0
Below i offset [] = ⊥
Below zero offset (b ∷ bs) = (b < 2 ^ offset) × Zero bs
Below (suc i) offset (b ∷ bs) = Below i offset bs

Zero-zeros : (n : ℕ) → Zero (zeros n)
Zero-zeros zero = tt
Zero-zeros (suc n) = (refl, Zero-zeros n)

Below-of_Zero :
    (i offset : ℕ) (bs : Bytes) → offset < 8 → i < length bs → Zero bs → Below i offset bs
Below-of_Zero i offset [] small h z = absurd (omega arith)
Below-of_Zero zero offset (b ∷ bs) small h z =
    let facts = powers offset 0 small (omega arith) in let zero_is = z.0 in (ground arith, z.1)
Below-of_Zero (suc i) offset (b ∷ bs) small h z = Below-of_Zero i offset bs small (omega arith) z.1

bit_indices-Zero : (i : ℕ) (bs : Bytes) → Zero bs → bit_indices i bs ≡ []
unfolding bit_indices
bit_indices-Zero i [] z = refl
bit_indices-Zero i (b ∷ bs) z = rw (z.0) (bit_indices-Zero (suc i) bs z.1)

shift_ids-append :
    (by : ℕ) (xs ys : List ℕ) → shift_ids by (xs ++ ys) ≡ shift_ids by xs ++ shift_ids by ys
shift_ids-append by [] ys = refl
shift_ids-append by (x ∷ xs) ys = ap (λ l. (by + x) ∷ l) (shift_ids-append by xs ys)

pub length-set_bit :
    (i offset : ℕ) (bs out : Bytes)
    → set_bit i offset bs ≡ ok out
    → (i < length bs) × (length out ≡ length bs)
unfolding set_bit
length-set_bit i offset [] out h = cc
length-set_bit zero offset (b ∷ bs) out h = rw (← from_ok _ out h) (omega arith, refl)
length-set_bit (suc i) offset (b ∷ bs) out h =
    let (rest, found, h1) = >>=-eq-ok (set_bit i offset bs) _ h in
    let (inside, same) = length-set_bit i offset bs rest found in
    rw (← from_ok _ out h1) (omega arith, ap suc same)

byte_table :
    (offset b : ℕ)
    → offset < 8
    → b < 2 ^ offset
    → (ltb (bit_or b (2 ^ offset)) (2 ^ suc offset)
        && same_ids (offsets_from 0 8 (bit_or b (2 ^ offset))) (offsets_from 0 8 b ++ offset ∷ []))
      ≡ true
byte_table offset b small under =
    let facts = powers offset 0 small (omega arith) in
    let table = byte_appends offset b small (ground arith) in
    rw (lt→ltb b (2 ^ offset) under) at table

offsets-below :
    (offset b : ℕ) → offset < 8 → b < 2 ^ offset → bit_or b (2 ^ offset) < 2 ^ suc offset
offsets-below offset b small under = ltb→lt _ _ (and_left _ _ (byte_table offset b small under))

offsets-set :
    (offset b : ℕ)
    → offset < 8
    → b < 2 ^ offset
    → offsets_from 0 8 (bit_or b (2 ^ offset)) ≡ offsets_from 0 8 b ++ offset ∷ []
offsets-set offset b small under = same_ids→eq _ _ (and_right _ _ (byte_table offset b small under))

-- A bit above all others.
bit_indices-set_bit :
    (at i offset : ℕ) (bs out : Bytes)
    → offset < 8
    → Below i offset bs
    → set_bit i offset bs ≡ ok out
    → bit_indices at out ≡ bit_indices at bs ++ ((at + i) * 8 + offset) ∷ []
unfolding set_bit bit_indices
bit_indices-set_bit at i offset [] out small below h = cc
bit_indices-set_bit at zero offset (b ∷ bs) out small below h =
    let bits = offsets-set offset b small below.0 in
    let none_behind = bit_indices-Zero (suc at) bs below.1 in
    let place : (at + zero) * 8 + offset ≡ at * 8 + offset = omega arith in
    rw (← from_ok _ out h, bits, none_behind, place)
      (rw (append-nil, append-nil) (shift_ids-append (at * 8) (offsets_from 0 8 b) (offset ∷ [])))
bit_indices-set_bit at (suc i) offset (b ∷ bs) out small below h =
    let (rest, found, h1) = >>=-eq-ok (set_bit i offset bs) _ h in
    let ih = bit_indices-set_bit (suc at) i offset bs rest small below found in
    let place : (suc at + i) * 8 + offset ≡ (at + suc i) * 8 + offset = omega arith in
    rw (← from_ok _ out h1, ih, place)
      (sym (
        append_assoc (shift_ids (at * 8) (offsets_from 0 8 b)) (bit_indices (suc at) bs)
          (((at + suc i) * 8 + offset) ∷ [])))

Below-set_bit :
    (i offset j later : ℕ) (bs out : Bytes)
    → offset < 8
    → later < 8
    → j < length bs
    → i * 8 + offset < j * 8 + later
    → Below i offset bs
    → set_bit i offset bs ≡ ok out
    → Below j later out
unfolding set_bit
Below-set_bit i offset j later [] out small small' inside above below h = cc
Below-set_bit zero offset zero later (b ∷ bs) out small small' inside above below h =
    let facts = powers offset later small small' in
    let under = (offsets-below offset b small below.0) in
    rw (← from_ok _ out h) (ground arith, below.1)
Below-set_bit zero offset (suc j) later (b ∷ bs) out small small' inside above below h =
    rw (← from_ok _ out h) (Below-of_Zero j later bs small' (omega arith) below.1)
Below-set_bit (suc i) offset zero later (b ∷ bs) out small small' inside above below h =
    absurd (omega arith)
Below-set_bit (suc i) offset (suc j) later (b ∷ bs) out small small' inside above below h =
    let (rest, found, h1) = >>=-eq-ok (set_bit i offset bs) _ h in
    rw (← from_ok _ out h1)
      (Below-set_bit i offset j later bs rest small small' (omega arith) (omega arith) below found)

-- No index from a first one on is set.
abbrev Free : ℕ → Bytes → Type 0
Free first bs = (id : ℕ) → first ≤ id → id / 8 < length bs → Below (id / 8) (id % 8) bs

Free-set_bit :
    (first id : ℕ) (bs out : Bytes)
    → first ≤ id
    → Free first bs
    → set_bit (id / 8) (id % 8) bs ≡ ok out
    → Free (suc id) out
Free-set_bit first id bs out from free h next above inside =
    let (fits, same) = length-set_bit (id / 8) (id % 8) bs out h in
    Below-set_bit (id / 8) (id % 8) (next / 8) (next % 8) bs out (omega arith) (omega arith)
      (omega arith) (omega arith) (free id from fits) h

abbrev AscendsAt : ℕ → List ℕ → Type 0
AscendsAt first [] = Unit
AscendsAt first (id ∷ ids) = (first ≤ id) × AscendsFrom id ids

AscendsAt-suc : (id : ℕ) (ids : List ℕ) → AscendsFrom id ids → AscendsAt (suc id) ids
AscendsAt-suc id [] h = tt
AscendsAt-suc id (next ∷ ids) (above, h) = (omega arith, h)

bit_indices-set_bits :
    (first : ℕ) (ids : List ℕ) (bs out : Bytes)
    → AscendsAt first ids
    → Free first bs
    → set_bits ids bs ≡ ok out
    → bit_indices 0 out ≡ bit_indices 0 bs ++ ids
unfolding set_bits
bit_indices-set_bits first [] bs out ascends free h = rw (← from_ok bs out h, append-nil) refl
bit_indices-set_bits first (id ∷ ids) bs out (from, ascends) free h =
    let (next, found, h1) = >>=-eq-ok (set_bit (id / 8) (id % 8) bs) _ h in
    let (fits, same) = length-set_bit (id / 8) (id % 8) bs next found in
    let one =
      bit_indices-set_bit 0 (id / 8) (id % 8) bs next (omega arith) (free id from fits) found in
    let place : (0 + id / 8) * 8 + id % 8 ≡ id = omega arith in
    let rest =
      bit_indices-set_bits (suc id) ids next out (AscendsAt-suc id ids ascends)
        (Free-set_bit first id bs next from free found) h1 in
    rest
    ∙ ap (λ l. l ++ ids) (one ∙ ap (λ i. bit_indices 0 bs ++ i ∷ []) place)
    ∙ append_assoc (bit_indices 0 bs) (id ∷ []) ids

-- Setting the bits of ascending ids in zeros, as far as they reach, writes a bitset of these ids.
pub bit_indices-set_zeros :
    (id : ℕ) (ids : List ℕ) (size : ℕ) (out : Bytes)
    → AscendsFrom id ids
    → set_bits (id ∷ ids) (zeros size) ≡ ok out
    → bit_indices 0 out ≡ id ∷ ids
bit_indices-set_zeros id ids size out ascends h =
    let free : Free 0 (zeros size) = λ i above inside.
      Below-of_Zero (i / 8) (i % 8) (zeros size) (omega arith) inside (Zero-zeros size) in
    let all = bit_indices-set_bits 0 (id ∷ ids) (zeros size) out (omega arith, ascends) free h in
    rw (bit_indices-Zero 0 (zeros size) (Zero-zeros size)) at all
