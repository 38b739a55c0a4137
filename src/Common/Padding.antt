-- ===== src/Common/Padding.antt =====
-- Zero bytes that fill up to a multiple of eight.
use Prim.Native.Nat.{ℕ, zero, suc}
use mathlib.Core.Path.{◌≡◌, refl}
use mathlib.Core.Bool.{Bool, true, ◌&&◌}
use mathlib.Core.List.{List, [], ◌∷◌}
use native.Mathlib.Omega.{arith}
use nnrp_py.Common.Tests.{◌==◌}
use nnrp_py.Common.Lists.{length, replicate}

-- `not any(data)`
abbrev pub all_zero : List ℕ → Bool
all_zero [] = true
all_zero (b ∷ bs) = b == 0 && all_zero bs

abbrev pub zeros : ℕ → List ℕ
zeros n = replicate n 0

pub all_zero-zeros : (n : ℕ) → all_zero (zeros n) ≡ true
all_zero-zeros zero = refl
all_zero-zeros (suc n) = all_zero-zeros n

pub zeros_of_all_zero : (bs : List ℕ) → all_zero bs ≡ true → zeros (length bs) ≡ bs
zeros_of_all_zero [] h = refl
zeros_of_all_zero (b ∷ bs) h =
    let rest : zeros (length bs) ≡ bs = zeros_of_all_zero bs (ground arith) in
    let first : b ≡ 0 = ground arith in rw (first, rest)
