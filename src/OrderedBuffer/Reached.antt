-- ===== src/OrderedBuffer/Reached.antt =====
-- tools/ordered_buffer.py: every state of a buffer that its operations lead to.
use nnrp_py.Common.{
  ℕ, ◌≡◌, refl, Bool, true, false, ◌==◌, ==_iff, Option, none, some, ◌↔◌, List, [], ◌∷◌, Dict,
  has_key, nat_key, get_total, Bool-cases, inl, inr, same_refl,
}
use nnrp_py.OrderedBuffer.{
  FrameResultBuffer, empty_buffer, add, peek_loop, peek_next_frame_id, pop_loop, pop_next,
  pop_frame,
}
use nnrp_py.OrderedBuffer.Order.{
  contains, Sorted, IsWellFormed, empty_buffer-IsWellFormed, add-IsWellFormed,
  pop_frame-IsWellFormed,
}
use nnrp_py.OrderedBuffer.Pops.{
  IsLeast, peek_next_frame_id_iff, Covers, Covers-tail, pop_next-IsWellFormed,
}

module _ {P : Type 0} where
  -- The buffers that calls lead to, in any order.
  pub data Reached : FrameResultBuffer P → Type 0 where
    made : Reached empty_buffer
    added :
        {b : FrameResultBuffer P} (frame_id : ℕ) (packet : P)
        → Reached b
        → Reached (add frame_id packet b)
    peeked : {b : FrameResultBuffer P} → Reached b → Reached (peek_next_frame_id b).1
    popped_next :
        {b : FrameResultBuffer P} (expected_frame_id : Option ℕ)
        → Reached b
        → Reached (pop_next expected_frame_id b).1
    popped_frame :
        {b : FrameResultBuffer P} (frame_id : ℕ) → Reached b → Reached (pop_frame frame_id b).1

  peek_loop-keeps :
      (d : Dict ℕ P) (heap : List ℕ)
      → Sorted heap
      → Covers heap d
      → Sorted (peek_loop d heap).1 × Covers (peek_loop d heap).1 d
  unfolding peek_loop
  peek_loop-keeps d [] sorted covers = (tt, covers)
  peek_loop-keeps d (f ∷ heap) sorted covers = elim (Bool-cases (has_key f d)) [
    | inl live ↦ rw live (sorted, covers)
    | inr stale ↦ rw stale (peek_loop-keeps d heap sorted.1 (Covers-tail f heap d stale covers))
  ]

  peek-IsWellFormed :
      (b : FrameResultBuffer P) → IsWellFormed b → IsWellFormed (peek_next_frame_id b).1
  unfolding peek_next_frame_id
  peek-IsWellFormed b wf =
      let (sorted, covers) = peek_loop-keeps b.by_frame_id b.heap wf.sorted wf.covers in
      record { sorted = sorted; covers = covers; unique = wf.unique }

  -- Every buffer of the model that calls lead to, in any order, is well formed.
  pub Reached-IsWellFormed : (b : FrameResultBuffer P) → Reached b → IsWellFormed b
  Reached-IsWellFormed b made = empty_buffer-IsWellFormed
  Reached-IsWellFormed b (added {b = before} frame_id packet run) =
      add-IsWellFormed frame_id packet before (Reached-IsWellFormed before run)
  Reached-IsWellFormed b (peeked {b = before} run) =
      peek-IsWellFormed before (Reached-IsWellFormed before run)
  Reached-IsWellFormed b (popped_next {b = before} expected run) =
      pop_next-IsWellFormed expected before (Reached-IsWellFormed before run)
  Reached-IsWellFormed b (popped_frame {b = before} frame_id run) =
      pop_frame-IsWellFormed frame_id before (Reached-IsWellFormed before run)

  -- Where nothing is popped, no entry of the heap is held.
  none-popped :
      (d : Dict ℕ P) (ready : Bool) (heap : List ℕ) (f : ℕ)
      → (pop_loop none d ready heap).0 ≡ none
      → contains f heap ≡ true
      → has_key f d ≡ false
  unfolding pop_loop
  none-popped d ready [] f h there = cc
  none-popped d ready (x ∷ heap) f h there = elim (Bool-cases (has_key x d)) [
    | inl live ↦ let (p, found) = get_total x d live in cc (rw live at h, found)
    | inr stale ↦ elim (Bool-cases (f == x)) [
      | inl same ↦ rw ((==_iff f x).0 same) stale
      | inr other ↦ none-popped d ready heap f (rw stale at h) (rw other at there)
    ]
  ]

  pub no_key : (d : Dict ℕ P) → ((f : ℕ) → has_key f d ≡ true → has_key f d ≡ false) → d ≡ []
  no_key [] h = refl
  no_key ((f, p) ∷ d) h =
      let held : has_key f ((f, p) ∷ d) ≡ true = rw (same_refl f) in cc (held, h f held)

  -- A buffer that calls have led to and that holds a packet hands one out: `pop_next` with no
  -- expected frame id returns none only when the dict is empty.
  pub pop_next-none :
      (b : FrameResultBuffer P) → Reached b → (pop_next none b).0 ≡ none → b.by_frame_id ≡ []
  unfolding pop_next
  pop_next-none b run h =
      let wf = Reached-IsWellFormed b run in
      no_key b.by_frame_id λ f held. none-popped b.by_frame_id b.ready b.heap f h (wf.covers f held)

  -- In every buffer that calls lead to, in any order, the frame id that is peeked at is the least of
  -- those that the dict holds.
  pub peek_next_frame_id-Reached :
      (b : FrameResultBuffer P) (f : ℕ)
      → Reached b
      → ((peek_next_frame_id b).0 ≡ some f) ↔ IsLeast f b.by_frame_id
  peek_next_frame_id-Reached b f run = peek_next_frame_id_iff b f (Reached-IsWellFormed b run)
