-- ===== src/Common/Dicts.antt =====
-- Python's dict as a list of entries in the order of their insertion, with keys of any type that
-- has a test for equality.
use mathlib.Core.Path.{◌≡◌, refl, sym, ap}
use mathlib.Core.Logic.{◌↔◌, ◌⊎◌, inl, inr}
use mathlib.Core.Bool.{Bool, true, false, ◌||◌, ◌&&◌}
use mathlib.Core.Option.{Option, none, some}
use mathlib.Core.List.{List, [], ◌∷◌}
use Prim.Native.Nat.{ℕ}
use native.Mathlib.Omega.{arith}
use nnrp_py.Common.Tests.{◌==◌, ==_iff, if◌then◌else◌, Bool-cases}

pub record Key (K : Type 0) : Type 0 where
  pub same : K → K → Bool
  pub same_iff : (a b : K) → (same a b ≡ true) ↔ (a ≡ b)

instance abbrev pub nat_key : Key ℕ
nat_key = record { same = λ a b. a == b; same_iff = ==_iff }

-- Keys that are tuples of two numbers.
abbrev pub same_pair : ℕ × ℕ → ℕ × ℕ → Bool
same_pair (a, b) (c, d) = (a == c) && (b == d)

pub same_pair_iff : (k j : ℕ × ℕ) → (same_pair k j ≡ true) ↔ (k ≡ j)
same_pair_iff (a, b) (c, d) = ground arith

instance abbrev pub pair_key : Key (ℕ × ℕ)
pair_key = record { same = same_pair; same_iff = same_pair_iff }

abbrev pub Dict : Type 0 → Type 0 → Type 0
Dict K V = List (K × V)

module _ {K : Type 0} ⦃key : Key K⦄ where
  open key use {same, same_iff}

  pub same_refl : (k : K) → same k k ≡ true
  same_refl k = (same_iff k k).1 refl

  same_step : (k l j : K) → same k j ≡ true → same l j ≡ same l k
  same_step k l j h = ap (same l) (sym ((same_iff k j).0 h))

  same_false_sym : (k j : K) → same k j ≡ false → same j k ≡ false
  same_false_sym k j h = elim (Bool-cases (same j k)) [
    | inl e ↦ cc (h, (same_iff k j).1 (sym ((same_iff j k).0 e)))
    | inr e ↦ e
  ]

module _ {K V : Type 0} ⦃key : Key K⦄ where
  open key use {same, same_iff}

  -- `k in d`
  abbrev pub has_key : K → Dict K V → Bool
  has_key k [] = false
  has_key k ((j, v) ∷ d) = same k j || has_key k d

  unfoldable pub get : K → Dict K V → Option V
  get k [] = none
  get k ((j, v) ∷ d) = if same k j then some v else get k d

  -- `d[k] = v`: in place when the key is there, behind all others when it is not.
  unfoldable pub set : K → V → Dict K V → Dict K V
  set k v [] = (k, v) ∷ []
  set k v ((j, w) ∷ d) = if same k j then (j, v) ∷ d else (j, w) ∷ set k v d

  -- `d.pop(k, None)`, what is left of it.
  unfoldable pub remove : K → Dict K V → Dict K V
  remove k [] = []
  remove k ((j, w) ∷ d) = if same k j then remove k d else (j, w) ∷ remove k d

  pub get-set_same : (k : K) (v : V) (d : Dict K V) → get k (set k v d) ≡ some v
  unfolding get set
  get-set_same k v [] = rw (same_refl k)
  get-set_same k v ((j, w) ∷ d) = elim (Bool-cases (same k j)) [
    | inl e ↦ rw (e, e)
    | inr e ↦ rw (e, e, get-set_same k v d)
  ]

  pub get-set_other :
      (k l : K) (v : V) (d : Dict K V) → same l k ≡ false → get l (set k v d) ≡ get l d
  unfolding get set
  get-set_other k l v [] h = rw h
  get-set_other k l v ((j, w) ∷ d) h = elim (Bool-cases (same k j)) [
    | inl e ↦ rw (e, same_step k l j e, h)
    | inr e ↦ rw (e, get-set_other k l v d h)
  ]

  pub get-remove_same : (k : K) (d : Dict K V) → get k (remove k d) ≡ none
  unfolding get remove
  get-remove_same k [] = refl
  get-remove_same k ((j, w) ∷ d) = elim (Bool-cases (same k j)) [
    | inl e ↦ rw (e, get-remove_same k d)
    | inr e ↦ rw (e, e, get-remove_same k d)
  ]

  pub get-remove_other : (k l : K) (d : Dict K V) → same l k ≡ false → get l (remove k d) ≡ get l d
  unfolding get remove
  get-remove_other k l [] h = refl
  get-remove_other k l ((j, w) ∷ d) h = elim (Bool-cases (same k j)) [
    | inl e ↦ rw (e, same_step k l j e, h, get-remove_other k l d h)
    | inr e ↦ rw (e, get-remove_other k l d h)
  ]

  pub get-some-has_key : (k : K) (v : V) (d : Dict K V) → get k d ≡ some v → has_key k d ≡ true
  unfolding get
  get-some-has_key k v [] h = cc
  get-some-has_key k v ((j, w) ∷ d) h = elim (Bool-cases (same k j)) [
    | inl e ↦ rw e
    | inr e ↦ rw (e, get-some-has_key k v d (rw e at h))
  ]

  pub get-none-has_key : (k : K) (d : Dict K V) → get k d ≡ none → has_key k d ≡ false
  unfolding get
  get-none-has_key k [] h = refl
  get-none-has_key k ((j, w) ∷ d) h = elim (Bool-cases (same k j)) [
    | inl e ↦ cc (rw e at h)
    | inr e ↦ rw (e, get-none-has_key k d (rw e at h))
  ]

  -- Each key once, as a dict holds them.
  abbrev pub Unique : Dict K V → Type 0
  Unique [] = Unit
  Unique ((j, w) ∷ d) = (has_key j d ≡ false) × Unique d

  has_key-set :
      (k j : K) (v : V) (d : Dict K V)
      → same j k ≡ false
      → has_key j d ≡ false
      → has_key j (set k v d) ≡ false
  unfolding set
  has_key-set k j v [] other h = rw other
  has_key-set k j v ((i, w) ∷ d) other h = elim (Bool-cases (same j i)) [
    | inl e ↦ cc (rw e at h)
    | inr e ↦ elim (Bool-cases (same k i)) [
      | inl f ↦ rw (f, e) (rw e at h)
      | inr f ↦ rw (f, e) (has_key-set k j v d other (rw e at h))
    ]
  ]

  has_key-remove : (k j : K) (d : Dict K V) → has_key j d ≡ false → has_key j (remove k d) ≡ false
  unfolding remove
  has_key-remove k j [] h = refl
  has_key-remove k j ((i, w) ∷ d) h = elim (Bool-cases (same j i)) [
    | inl e ↦ cc (rw e at h)
    | inr e ↦ elim (Bool-cases (same k i)) [
      | inl f ↦ rw f (has_key-remove k j d (rw e at h))
      | inr f ↦ rw (f, e) (has_key-remove k j d (rw e at h))
    ]
  ]

  pub has_key-set_inv :
      (k j : K) (v : V) (d : Dict K V)
      → has_key j (set k v d) ≡ true
      → (j ≡ k) ⊎ (has_key j d ≡ true)
  has_key-set_inv k j v d h = elim (Bool-cases (same j k)) [
    | inl e ↦ inl ((same_iff j k).0 e)
    | inr e ↦ elim (Bool-cases (has_key j d)) [
      | inl f ↦ inr f
      | inr f ↦ cc (h, has_key-set k j v d e f)
    ]
  ]

  pub has_key-remove_inv :
      (k j : K) (d : Dict K V) → has_key j (remove k d) ≡ true → has_key j d ≡ true
  has_key-remove_inv k j d h = elim (Bool-cases (has_key j d)) [
    | inl f ↦ f
    | inr f ↦ cc (h, has_key-remove k j d f)
  ]

  pub get_total : (k : K) (d : Dict K V) → has_key k d ≡ true → (v : V) × (get k d ≡ some v)
  unfolding get
  get_total k [] h = cc
  get_total k ((j, w) ∷ d) h = elim (Bool-cases (same k j)) [
    | inl e ↦ (w, rw e)
    | inr e ↦ let (v, found) = get_total k d (rw e at h) in (v, rw e found)
  ]

  pub has_key-remove_same : (k : K) (d : Dict K V) → has_key k (remove k d) ≡ false
  has_key-remove_same k d = get-none-has_key k (remove k d) (get-remove_same k d)

  pub set-Unique : (k : K) (v : V) (d : Dict K V) → Unique d → Unique (set k v d)
  unfolding set
  set-Unique k v [] u = (refl, tt)
  set-Unique k v ((j, w) ∷ d) u = elim (Bool-cases (same k j)) [
    | inl e ↦ rw e u
    | inr e ↦ rw e (has_key-set k j v d (same_false_sym k j e) u.0, set-Unique k v d u.1)
  ]

  pub remove-Unique : (k : K) (d : Dict K V) → Unique d → Unique (remove k d)
  unfolding remove
  remove-Unique k [] u = tt
  remove-Unique k ((j, w) ∷ d) u = elim (Bool-cases (same k j)) [
    | inl e ↦ rw e (remove-Unique k d u.1)
    | inr e ↦ rw e (has_key-remove k j d u.0, remove-Unique k d u.1)
  ]
