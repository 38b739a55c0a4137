-- ===== src/Common/Enum.antt =====
-- Python's `IntEnum`: a member has a value, and `E(n)` finds the first member of that value or
-- raises ValueError.
use Prim.Native.Nat.{ℕ}
use mathlib.Core.Path.{◌≡◌}
use mathlib.Core.List.{List, [], ◌∷◌}
use native.Mathlib.Omega.{arith}
use nnrp_py.Common.Tests.{◌==◌, if◌then◌else◌, Bool-cases}
use nnrp_py.Common.Raises.{Result, ok, err, value_error, RaisesOnly, ok-RaisesOnly}
use mathlib.Core.Logic.{inl, inr}

module _ {A : Type 0} (to_int : A → ℕ) where
  abbrev pub find_member : List A → ℕ → Result A
  find_member [] n = err value_error
  find_member (a ∷ members) n = if to_int a == n then ok a else find_member members n

  -- What the lookup returns has the value that was looked up.
  pub find_member_value :
      (members : List A) (n : ℕ) (a : A) → find_member members n ≡ ok a → to_int a ≡ n
  find_member_value [] n a h = cc
  find_member_value (x ∷ members) n a h = ground (arith, find_member_value members n a)

  pub find_member-RaisesOnly : (members : List A) (n : ℕ) → RaisesOnly (find_member members n)
  find_member-RaisesOnly [] n = λ e h. cc h
  find_member-RaisesOnly (x ∷ members) n = elim (Bool-cases (to_int x == n)) [
    | inl same ↦ rw same (ok-RaisesOnly x)
    | inr other ↦ rw other (find_member-RaisesOnly members n)
  ]
