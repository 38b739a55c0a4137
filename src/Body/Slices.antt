-- ===== src/Body/Slices.antt =====
-- `view[start:end]`, and the slices that lie one behind the other.
use nnrp_py.Common.{
  ℕ, ◌+◌, ◌-◌, ◌≡◌, refl, ap, List, [], ◌∷◌, ◌++◌, length, length-append, take, drop, take-append,
  drop-append, append_assoc, arith,
}
use nnrp_py.Struct.{Bytes}

abbrev pub slice : ℕ → ℕ → Bytes → Bytes
slice start end bs = take (end - start) (drop start bs)

abbrev pub concat : List Bytes → Bytes
concat [] = []
concat (r ∷ rs) = r ++ concat rs

-- The slices of the given sizes from `start` on.
abbrev pub slices : ℕ → List Bytes → Bytes → List Bytes
slices start [] bs = []
slices start (r ∷ rs) bs = slice start (start + length r) bs ∷ slices (start + length r) rs bs

-- Regions laid one behind the other, behind bytes that fill up to the first, are cut out again.
pub slices-concat :
    (start : ℕ) (rs : List Bytes) (before : Bytes)
    → start ≡ length before
    → slices start rs (before ++ concat rs) ≡ rs
slices-concat start [] before h = refl
slices-concat start (r ∷ rs) before h =
    let at : drop start (before ++ (r ++ concat rs)) ≡ r ++ concat rs =
      drop-append start before _ h in
    let width : start + length r - start ≡ length r = omega arith in
    let cut : take (length r) (r ++ concat rs) ≡ r = take-append (length r) r _ refl in
    let flat : (before ++ r) ++ concat rs ≡ before ++ (r ++ concat rs) =
      append_assoc before r (concat rs) in
    let further : start + length r ≡ length (before ++ r) = omega (arith, length-append before r) in
    rw (at, width, cut)
      (ap (λ l. r ∷ l) (rw flat at (slices-concat (start + length r) rs (before ++ r) further)))

-- The part between two others.
pub slice-middle :
    (start end : ℕ) (before part after : Bytes)
    → start ≡ length before
    → end ≡ length before + length part
    → slice start end (before ++ (part ++ after)) ≡ part
slice-middle start end before part after h e =
    rw (drop-append start before (part ++ after) h)
      (take-append (end - start) part after (omega arith))
