-- ===== src/Stream/RoundTrip.antt =====
-- The laws of the shared loop, from the laws of one record.
use nnrp_py.Common.{
  ℕ, zero, suc, ◌≤◌, ◌<◌, ◌≡◌, refl, ap, Option, some, List, [], ◌∷◌, ◌++◌, length, length-append,
  All, Result, ok, ◌>>=◌, >>=-eq-ok, RaisesOnly, ok-RaisesOnly, >>=-RaisesOnly, from_ok, arith,
}
use nnrp_py.Struct.{Bytes, IsByte}
use nnrp_py.Stream.{keep_some, write_all, Reader, read_loop, read_all, keep_all}

loop_step :
    {A : Type 0} (read : Reader A) (keep : A → Result (Option A)) (fuel : ℕ) (bs : Bytes) (x : A)
    (rest : Bytes)
    → 0 < length bs
    → read bs ≡ ok (x, rest)
    → read_loop read keep (suc fuel) bs
      ≡ (keep x >>= λ kept. read_loop read keep fuel rest >>= λ others. ok (keep_some kept others))
unfolding read_loop
loop_step read keep fuel [] x rest h e = absurd (omega arith)
loop_step read keep fuel (b ∷ bs) x rest h e = rw e

-- A writer whose records a reader takes off the front again.
pub record Inverts {A : Type 0} (read : Reader A) (write : A → Result Bytes) : Type 0 where
  pub read-write : (x : A) (bs rest : Bytes) → write x ≡ ok bs → read (bs ++ rest) ≡ ok (x, rest)
  pub length-write : (x : A) (bs : Bytes) → write x ≡ ok bs → 0 < length bs

-- A reader that takes nothing but what a writer writes.
pub record Accepts {A : Type 0} (read : Reader A) (write : A → Result Bytes) : Type 0 where
  pub write-read :
      (bs : Bytes) (x : A) (rest : Bytes)
      → All IsByte bs
      → read bs ≡ ok (x, rest)
      → (first : Bytes) × (write x ≡ ok first) × (first ++ rest ≡ bs) × All IsByte rest

module _ {A : Type 0} {read : Reader A} {write : A → Result Bytes} (inverts : Inverts read write)
    (keep : A → Result (Option A)) where
  open inverts use {read-write, length-write}

  -- One round on a record that was written.
  read_loop-append :
      (x : A) (first others : Bytes) (fuel : ℕ)
      → write x ≡ ok first
      → read_loop read keep (suc fuel) (first ++ others)
        ≡ (keep x >>= λ kept. read_loop read keep fuel others >>= λ rest. ok (keep_some kept rest))
  read_loop-append x first others fuel wrote =
      loop_step read keep fuel (first ++ others) x others
        (omega (arith, length-append first others, length-write x first wrote))
        (read-write x first others wrote)

  -- Reading what was written keeps of the records what `keep` says.
  pub read_loop-write_all :
      (xs : List A) (bs : Bytes) (fuel : ℕ)
      → write_all write xs ≡ ok bs
      → length bs ≤ fuel
      → read_loop read keep fuel bs ≡ keep_all keep xs
  unfolding write_all keep_all
  read_loop-write_all [] [] fuel h enough = unfold read_loop in refl
  read_loop-write_all [] (b ∷ bs) fuel h enough = cc
  read_loop-write_all (x ∷ xs) bs zero h enough =
      let (first, wrote, h1) = >>=-eq-ok (write x) _ h in
      let (others, wrote_others, h2) = >>=-eq-ok (write_all write xs) _ h1 in
      let joined : first ++ others ≡ bs = from_ok _ _ h2 in
      absurd
        (omega (arith, ap length joined, length-append first others, length-write x first wrote))
  read_loop-write_all (x ∷ xs) bs (suc fuel) h enough =
      let (first, wrote, h1) = >>=-eq-ok (write x) _ h in
      let (others, wrote_others, h2) = >>=-eq-ok (write_all write xs) _ h1 in
      let joined : first ++ others ≡ bs = from_ok _ _ h2 in
      let room : length others ≤ fuel =
        omega (arith, ap length joined, length-append first others, length-write x first wrote) in
      let rest = read_loop-write_all xs others fuel wrote_others room in
      rw (← joined, read_loop-append x first others fuel wrote, rest)

  pub read_all-write_all :
      (xs : List A) (bs : Bytes)
      → write_all write xs ≡ ok bs
      → read_all read keep bs ≡ keep_all keep xs
  unfolding read_all
  read_all-write_all xs bs h = read_loop-write_all xs bs (length bs) h (omega arith)

module _ {A : Type 0} {read : Reader A} {write : A → Result Bytes}
    (accepts : Accepts read write) where
  open accepts use {write-read}

  -- What is read, with nothing skipped, is what the records are written as.
  write_all-read_loop :
      (fuel : ℕ) (bs : Bytes) (xs : List A)
      → All IsByte bs
      → read_loop read (λ x. ok (some x)) fuel bs ≡ ok xs
      → write_all write xs ≡ ok bs
  unfolding read_loop write_all
  write_all-read_loop fuel [] xs bytes h = rw (← from_ok [] xs h)
  write_all-read_loop zero (b ∷ bs) xs bytes h = cc
  write_all-read_loop (suc fuel) (b ∷ bs) xs bytes h =
      let ((x, rest), took, h1) = >>=-eq-ok (read (b ∷ bs)) _ h in
      let (others, read_others, h2) =
        >>=-eq-ok (read_loop read (λ x. ok (some x)) fuel rest) _ h1 in
      let (first, wrote, joined, rest_bytes) = write-read (b ∷ bs) x rest bytes took in
      let ih = write_all-read_loop fuel rest others rest_bytes read_others in
      rw (← from_ok (x ∷ others) xs h2, wrote, ih, joined)

  pub write_all-read_all :
      (bs : Bytes) (xs : List A)
      → All IsByte bs
      → read_all read (λ x. ok (some x)) bs ≡ ok xs
      → write_all write xs ≡ ok bs
  unfolding read_all
  write_all-read_all bs xs = write_all-read_loop (length bs) bs xs

-- A reader that raises nothing but ValueError, and takes at least a byte of what it is given.
pub record Proceeds {A : Type 0} (read : Reader A) : Type 0 where
  pub takes : (bs : Bytes) (x : A) (rest : Bytes) → read bs ≡ ok (x, rest) → length rest < length bs
  pub raises : (bs : Bytes) → RaisesOnly (read bs)

module _ {A : Type 0} {read : Reader A} (proceeds : Proceeds read) (keep : A → Result (Option A))
    (keeps : (x : A) → RaisesOnly (keep x)) where
  open proceeds use {takes, raises}

  read_loop-RaisesOnly :
      (fuel : ℕ) (bs : Bytes) → length bs ≤ fuel → RaisesOnly (read_loop read keep fuel bs)
  unfolding read_loop
  read_loop-RaisesOnly fuel [] room = ok-RaisesOnly _
  read_loop-RaisesOnly zero (b ∷ bs) room = absurd (omega arith)
  read_loop-RaisesOnly (suc fuel) (b ∷ bs) room =
      >>=-RaisesOnly (read (b ∷ bs)) _ (raises (b ∷ bs)) λ (x, rest) took.
        >>=-RaisesOnly (keep x) _ (keeps x) λ kept _.
          >>=-RaisesOnly (read_loop read keep fuel rest) _
            (read_loop-RaisesOnly fuel rest (omega (arith, takes (b ∷ bs) x rest took)))
            λ others _. ok-RaisesOnly _

  -- The loop ends within its rounds: it returns, or a record raised ValueError.
  pub read_all-RaisesOnly : (bs : Bytes) → RaisesOnly (read_all read keep bs)
  unfolding read_all
  read_all-RaisesOnly bs = read_loop-RaisesOnly (length bs) bs (omega arith)
