-- ===== src/OrderedBuffer/Pops.antt =====
-- tools/ordered_buffer.py: what `peek_next_frame_id` and `pop_next` give of a buffer.
use nnrp_py.Common.{
  ℕ, ◌≤◌, ◌≡◌, ◌↔◌, inl, inr, refl, ap, Option, none, some, List, [], ◌∷◌, Bool, true, false, ◌==◌,
  ==_iff, Bool-cases, if◌then◌else◌, Dict, nat_key, get, remove, has_key, Unique, remove-Unique,
  has_key-remove_inv, has_key-remove_same, arith,
}
use nnrp_py.OrderedBuffer.{
  FrameResultBuffer, is_unexpected, peek_loop, peek_next_frame_id, pop_loop, pop_next,
}
use nnrp_py.OrderedBuffer.Order.{contains, Sorted, All-contains, IsWellFormed}

from_some : (f g : ℕ) → some f ≡ some g → f ≡ g
from_some f g h = cc

module _ {P : Type 0} where
  -- The least frame id of a dict.
  pub record IsLeast (f : ℕ) (d : Dict ℕ P) : Type 0 where
    pub held : has_key f d ≡ true
    pub least : (g : ℕ) → has_key g d ≡ true → f ≤ g

  abbrev pub Covers : List ℕ → Dict ℕ P → Type 0
  Covers heap d = (g : ℕ) → has_key g d ≡ true → contains g heap ≡ true

  -- A stale entry covers nothing.
  pub Covers-tail :
      (x : ℕ) (heap : List ℕ) (d : Dict ℕ P)
      → has_key x d ≡ false
      → Covers (x ∷ heap) d
      → Covers heap d
  Covers-tail x heap d stale covers g h = elim (Bool-cases (g == x)) [
    | inl e ↦ cc (rw ((==_iff g x).0 e) at h, stale)
    | inr e ↦ rw e at (covers g h)
  ]

  -- Once its packet is gone, an entry covers nothing.
  Covers-remove :
      (x : ℕ) (heap : List ℕ) (d : Dict ℕ P) → Covers (x ∷ heap) d → Covers heap (remove x d)
  Covers-remove x heap d covers g h = elim (Bool-cases (g == x)) [
    | inl e ↦ cc (rw ((==_iff g x).0 e) at h, has_key-remove_same x d)
    | inr e ↦ rw e at (covers g (has_key-remove_inv x g d h))
  ]

  -- A live entry in front is the least.
  front-IsLeast :
      (x : ℕ) (heap : List ℕ) (d : Dict ℕ P)
      → Sorted (x ∷ heap)
      → Covers (x ∷ heap) d
      → has_key x d ≡ true
      → IsLeast x d
  front-IsLeast x heap d sorted covers live = record {
    held = live;
    least = λ g h. elim (Bool-cases (g == x)) [
      | inl e ↦ omega (arith, (==_iff g x).0 e)
      | inr e ↦ All-contains x g heap sorted.0 (rw e at (covers g h))
    ];
  }

  least_unique : (f g : ℕ) (d : Dict ℕ P) → IsLeast f d → IsLeast g d → f ≡ g
  least_unique f g d a b = omega (arith, a.least g b.held, b.least f a.held)

  peek_loop_least :
      (f : ℕ) (d : Dict ℕ P) (heap : List ℕ)
      → Sorted heap
      → Covers heap d
      → IsLeast f d
      → (peek_loop d heap).0 ≡ some f
  unfolding peek_loop
  peek_loop_least f d [] sorted covers least = cc (covers f least.held)
  peek_loop_least f d (x ∷ heap) sorted covers least = elim (Bool-cases (has_key x d)) [
    | inl live ↦
        rw live (ap some (least_unique x f d (front-IsLeast x heap d sorted covers live) least))
    | inr stale ↦
        rw stale (peek_loop_least f d heap sorted.1 (Covers-tail x heap d stale covers) least)
  ]

  peek_loop_found :
      (f : ℕ) (d : Dict ℕ P) (heap : List ℕ)
      → Sorted heap
      → Covers heap d
      → (peek_loop d heap).0 ≡ some f
      → IsLeast f d
  unfolding peek_loop
  peek_loop_found f d [] sorted covers h = cc h
  peek_loop_found f d (x ∷ heap) sorted covers h = elim (Bool-cases (has_key x d)) [
    | inl live ↦ rw (from_some x f (rw live at h)) at (front-IsLeast x heap d sorted covers live)
    | inr stale ↦
        peek_loop_found f d heap sorted.1 (Covers-tail x heap d stale covers) (rw stale at h)
  ]

  pop_loop_least :
      (expected : Option ℕ) (f : ℕ) (d : Dict ℕ P) (ready : Bool) (heap : List ℕ)
      → Sorted heap
      → Covers heap d
      → IsLeast f d
      → (pop_loop expected d ready heap).0 ≡ (if is_unexpected expected f then none else get f d)
        × ((pop_loop expected d ready heap).1.by_frame_id
            ≡ (if is_unexpected expected f then d else remove f d))
  unfolding pop_loop
  pop_loop_least expected f d ready [] sorted covers least = cc (covers f least.held)
  pop_loop_least expected f d ready (x ∷ heap) sorted covers least =
      elim (Bool-cases (has_key x d)) [
        | inl live ↦
            let same : x ≡ f =
              least_unique x f d (front-IsLeast x heap d sorted covers live) least in
            elim (Bool-cases (is_unexpected expected f)) [
              | inl u ↦ rw (live, same, u) (refl, refl)
              | inr u ↦ rw (live, same, u) (refl, refl)
            ]
        | inr stale ↦ rw stale (
            pop_loop_least expected f d ready heap sorted.1 (Covers-tail x heap d stale covers)
              least)
      ]

  pop_loop-IsWellFormed :
      (expected : Option ℕ) (d : Dict ℕ P) (ready : Bool) (heap : List ℕ)
      → Sorted heap
      → Covers heap d
      → Unique d
      → IsWellFormed (pop_loop expected d ready heap).1
  unfolding pop_loop
  pop_loop-IsWellFormed expected d ready [] sorted covers unique = record {
    sorted = tt;
    covers = covers;
    unique = unique;
  }
  pop_loop-IsWellFormed expected d ready (x ∷ heap) sorted covers unique =
      elim (Bool-cases (has_key x d)) [
        | inl live ↦ elim (Bool-cases (is_unexpected expected x)) [
          | inl u ↦ rw (live, u) (record { sorted = sorted; covers = covers; unique = unique })
          | inr u ↦
              rw (live, u)
                (record {
                  sorted = sorted.1;
                  covers = Covers-remove x heap d covers;
                  unique = remove-Unique x d unique;
                })
        ]
        | inr stale ↦ rw stale (
            pop_loop-IsWellFormed expected d ready heap sorted.1 (Covers-tail x heap d stale covers)
              unique)
      ]

  -- Popping the next packet, whatever frame id is expected, keeps the buffer well formed.
  pub pop_next-IsWellFormed :
      (expected : Option ℕ) (b : FrameResultBuffer P)
      → IsWellFormed b
      → IsWellFormed (pop_next expected b).1
  unfolding pop_next
  pop_next-IsWellFormed expected b wf =
      pop_loop-IsWellFormed expected b.by_frame_id b.ready b.heap wf.sorted wf.covers wf.unique

  -- In a well-formed buffer the frame id that is peeked at is the least one of the dict.
  pub peek_next_frame_id_iff :
      (b : FrameResultBuffer P) (f : ℕ)
      → IsWellFormed b
      → ((peek_next_frame_id b).0 ≡ some f) ↔ IsLeast f b.by_frame_id
  unfolding peek_next_frame_id
  peek_next_frame_id_iff b f wf = (
    λ h. peek_loop_found f b.by_frame_id b.heap wf.sorted wf.covers h,
    λ least. peek_loop_least f b.by_frame_id b.heap wf.sorted wf.covers least,
  )

  -- If f is the least frame id of a well-formed buffer, `pop_next` returns the packet of f and takes
  -- it out of the dict, or, where another frame id is expected, returns none and leaves the dict as it is.
  pub pop_next_least :
      (expected : Option ℕ) (f : ℕ) (b : FrameResultBuffer P)
      → IsWellFormed b
      → IsLeast f b.by_frame_id
      → ((pop_next expected b).0 ≡ (if is_unexpected expected f then none else get f b.by_frame_id))
        × ((pop_next expected b).1.by_frame_id
            ≡ (if is_unexpected expected f then b.by_frame_id else remove f b.by_frame_id))
  unfolding pop_next
  pop_next_least expected f b wf =
      pop_loop_least expected f b.by_frame_id b.ready b.heap wf.sorted wf.covers
