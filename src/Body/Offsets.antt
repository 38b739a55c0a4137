-- ===== src/Body/Offsets.antt =====
-- core/packet.py: `_validate_descriptor_offsets`, on the (start, end) spans of a descriptor table.
-- `previous_end` starts at -1 in the source and at 0 here: no start is below either.
use nnrp_py.Common.{
  ℕ, ◌≤◌, ◌≡◌, ◌↔◌, refl, List, [], ◌∷◌, leb, leb→le, le→leb, All, Result, ok, ◌>>◌, >>=-eq-ok,
  require, require-eq-ok, arith,
}

abbrev pub Span : Type 0
Span = ℕ × ℕ

unfoldable pub offsets_loop : ℕ → ℕ → List Span → Result (Unit {0})
offsets_loop previous_end region [] = ok tt
offsets_loop previous_end region ((start, end) ∷ spans) = do
  require (leb previous_end start)
  require (leb end region)
  offsets_loop end region spans

unfoldable pub validate_descriptor_offsets : ℕ → List Span → Result (Unit {0})
unfolding offsets_loop
validate_descriptor_offsets region spans = offsets_loop 0 region spans

-- Spans in order: none starts before `from` or before an earlier one ends, and none ends behind the
-- region.
abbrev pub InOrder : ℕ → ℕ → List Span → Type 0
InOrder from region [] = Unit
InOrder from region ((start, end) ∷ spans) =
    (from ≤ start) × (end ≤ region) × InOrder end region spans

offsets_loop_iff :
    (from region : ℕ) (spans : List Span)
    → (offsets_loop from region spans ≡ ok tt) ↔ InOrder from region spans
unfolding offsets_loop
offsets_loop_iff from region [] = (λ h. tt, λ h. refl)
offsets_loop_iff from region ((start, end) ∷ spans) = (
  λ h.
      let (_, a, h1) = >>=-eq-ok (require (leb from start)) _ h in
      let (_, b, h2) = >>=-eq-ok (require (leb end region)) _ h1 in
      (
        leb→le _ _ (require-eq-ok _ a),
        leb→le _ _ (require-eq-ok _ b),
        (offsets_loop_iff end region spans).0 h2,
      ),
  λ h. rw (le→leb from start h.0, le→leb end region h.1, (offsets_loop_iff end region spans).1 h.2),
)

-- The table is accepted exactly when its spans are in order within the region.
pub accepted_iff :
    (region : ℕ) (spans : List Span)
    → (validate_descriptor_offsets region spans ≡ ok tt) ↔ InOrder 0 region spans
unfolding validate_descriptor_offsets
accepted_iff region spans = offsets_loop_iff 0 region spans

-- Each span begins before it ends.
abbrev pub Forward : List Span → Type 0
Forward = All (λ s. s.0 ≤ s.1)

-- Every later span starts where the earlier one has ended: no two overlap.
abbrev pub Disjoint : List Span → Type 0
Disjoint [] = Unit
Disjoint (s ∷ spans) = All (λ t. s.1 ≤ t.0) spans × Disjoint spans

starts_earlier : (a b : ℕ) (ts : List Span) → a ≤ b → All (λ t. b ≤ t.0) ts → All (λ t. a ≤ t.0) ts
starts_earlier a b [] le h = tt
starts_earlier a b (t ∷ ts) le h = (omega (arith, h.0), starts_earlier a b ts le h.1)

starts_after :
    (from region : ℕ) (spans : List Span)
    → Forward spans
    → InOrder from region spans
    → All (λ t. from ≤ t.0) spans
starts_after from region [] f h = tt
starts_after from region ((start, end) ∷ spans) f h = (
  h.0,
  starts_earlier from end spans (omega (arith, f.0)) (starts_after end region spans f.1 h.2),
)

Disjoint-InOrder :
    (from region : ℕ) (spans : List Span)
    → Forward spans
    → InOrder from region spans
    → Disjoint spans × All (λ s. s.1 ≤ region) spans
Disjoint-InOrder from region [] f i = (tt, tt)
Disjoint-InOrder from region ((start, end) ∷ ts) f i =
    let (d, within) = Disjoint-InOrder end region ts f.1 i.2 in
    ((starts_after end region ts f.1 i.2, d), (i.1, within))

-- In an accepted table of spans that begin before they end, no two spans overlap and none ends
-- behind the region.
pub Disjoint-of_validate :
    (region : ℕ) (spans : List Span)
    → Forward spans
    → validate_descriptor_offsets region spans ≡ ok tt
    → Disjoint spans × All (λ s. s.1 ≤ region) spans
Disjoint-of_validate region spans f h =
    Disjoint-InOrder 0 region spans f ((accepted_iff region spans).0 h)
