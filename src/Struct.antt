-- ===== src/Struct.antt =====
-- Python's `struct` module with little-endian formats, as the code uses it: a format is the list
-- of the widths, in bytes, of its unsigned fields (B is 1, H is 2, I is 4, Q is 8).
pub mod RoundTrip
use nnrp_py.Common.{
  ℕ, zero, suc, ◌+◌, ◌*◌, ◌/◌, ◌%◌, ◌^◌, ◌<◌, List, [], ◌∷◌, ◌++◌, ltb, ◌==◌, if◌then◌else◌, length,
  take, drop, Result, ok, err, struct_error, ◌>>=◌,
}

abbrev pub Bytes : Type 0
Bytes = List ℕ

abbrev pub IsByte : ℕ → Type 0
IsByte b = b < 256

abbrev pub Struct : Type 0
Struct = List ℕ

abbrev pub size : Struct → ℕ
size [] = 0
size (w ∷ ws) = w + size ws

unfoldable pub le_bytes : ℕ → ℕ → Bytes
le_bytes zero v = []
le_bytes (suc w) v = (v % 256) ∷ le_bytes w (v / 256)

unfoldable pub le_value : Bytes → ℕ
le_value [] = 0
le_value (b ∷ bs) = b + 256 * le_value bs

-- `Struct.pack`: struct.error if a value does not fit, or if there are too many or too few.
unfoldable pub pack : Struct → List ℕ → Result Bytes
unfolding le_bytes
pack [] [] = ok []
pack [] (v ∷ vs) = err struct_error
pack (w ∷ ws) [] = err struct_error
pack (w ∷ ws) (v ∷ vs) =
    if ltb v (256 ^ w) then (do rest ← pack ws vs; ok (le_bytes w v ++ rest)) else err struct_error

unfoldable pub values : Struct → Bytes → List ℕ
unfolding le_value
values [] bs = []
values (w ∷ ws) bs = le_value (take w bs) ∷ values ws (drop w bs)

-- `Struct.unpack`: struct.error unless there are exactly as many bytes as the format takes.
unfoldable pub unpack : Struct → Bytes → Result (List ℕ)
unfolding values
unpack ws bs = if length bs == size ws then ok (values ws bs) else err struct_error

-- The values that `pack` takes.
abbrev pub Fits : Struct → List ℕ → Type 0
Fits [] [] = Unit
Fits [] (v ∷ vs) = ⊥
Fits (w ∷ ws) [] = ⊥
Fits (w ∷ ws) (v ∷ vs) = (v < 256 ^ w) × Fits ws vs
