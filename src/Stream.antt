-- ===== src/Stream.antt =====
-- The loop that the decoders of back-to-back records share: read a record off the front of what is
-- left until nothing is left, and keep, skip or refuse each. `write_all` joins records.
pub mod RoundTrip
use nnrp_py.Common.{
  ℕ, zero, suc, Option, none, some, List, [], ◌∷◌, ◌++◌, length, Result, ok, err, out_of_fuel,
  ◌>>=◌,
}
use nnrp_py.Struct.{Bytes}

abbrev pub keep_some {ℓ} : {A : Type ℓ} → Option A → List A → List A
keep_some none rest = rest
keep_some (some a) rest = a ∷ rest

-- A reader returns the record and the bytes behind it.
abbrev pub Reader : Type 0 → Type 0
Reader A = Bytes → Result (A × Bytes)

module _ {A : Type 0} where
  unfoldable pub write_all : (A → Result Bytes) → List A → Result Bytes
  write_all write [] = ok []
  write_all write (a ∷ rest) = do
    first ← write a
    others ← write_all write rest
    ok (first ++ others)

  unfoldable pub read_loop : Reader A → (A → Result (Option A)) → ℕ → Bytes → Result (List A)
  read_loop read keep fuel [] = ok []
  read_loop read keep zero (b ∷ bs) = err out_of_fuel
  read_loop read keep (suc fuel) (b ∷ bs) = do
    (a, rest) ← read (b ∷ bs)
    kept ← keep a
    others ← read_loop read keep fuel rest
    ok (keep_some kept others)

  -- Each record takes a byte at least, so as many rounds as there are bytes are enough.
  unfoldable pub read_all : Reader A → (A → Result (Option A)) → Bytes → Result (List A)
  unfolding read_loop
  read_all read keep bs = read_loop read keep (length bs) bs

  -- What is kept of a list of records, or the first refusal.
  unfoldable pub keep_all : (A → Result (Option A)) → List A → Result (List A)
  keep_all keep [] = ok []
  keep_all keep (a ∷ rest) = do
    kept ← keep a
    others ← keep_all keep rest
    ok (keep_some kept others)
