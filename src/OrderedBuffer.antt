-- ===== src/OrderedBuffer.antt =====
-- tools/ordered_buffer.py: FrameResultBuffer, which hands out result packets in the order of their
-- frame ids. `_heap` is a heapq, here the ascending list of its frame ids: heapq gives the smallest
-- first, and the packet ids that break ties are never read. `_by_frame_id` is a dict and `_ready`
-- the flag of the asyncio event. Each operation returns its result with the buffer behind it.
pub mod Order
pub mod Pops
pub mod Reached
pub mod Drain
use nnrp_py.Common.{
  ℕ, ◌≡◌, Option, none, some, List, [], ◌∷◌, Bool, true, false, not, ◌&&◌, ◌==◌, leb, if◌then◌else◌,
  Dict, nat_key, get, set, remove, has_key,
}

pub record FrameResultBuffer (P : Type 0) : Type 0 where
  pub heap : List ℕ
  pub by_frame_id : Dict ℕ P
  pub ready : Bool

-- `heapq.heappush`
unfoldable pub heappush : ℕ → List ℕ → List ℕ
heappush frame_id [] = frame_id ∷ []
heappush frame_id (f ∷ heap) =
    if leb frame_id f then frame_id ∷ f ∷ heap else f ∷ heappush frame_id heap

-- `expected_frame_id is not None and fid != expected_frame_id`
abbrev pub is_unexpected : Option ℕ → ℕ → Bool
is_unexpected none frame_id = false
is_unexpected (some expected) frame_id = not (frame_id == expected)

module _ {P : Type 0} where
  abbrev pub is_empty : Dict ℕ P → Bool
  is_empty [] = true
  is_empty (_ ∷ _) = false

  abbrev pub empty_buffer : FrameResultBuffer P
  empty_buffer = record { heap = []; by_frame_id = []; ready = false }

  unfoldable pub add : ℕ → P → FrameResultBuffer P → FrameResultBuffer P
  add frame_id packet b = record {
    heap = if has_key frame_id b.by_frame_id then b.heap else heappush frame_id b.heap;
    by_frame_id = set frame_id packet b.by_frame_id;
    ready = true;
  }

  -- The loop of `peek_next_frame_id`: the frame id and the heap that is left.
  unfoldable pub peek_loop : Dict ℕ P → List ℕ → Option ℕ × List ℕ
  peek_loop by_frame_id [] = (none, [])
  peek_loop by_frame_id (f ∷ heap) =
      if has_key f by_frame_id then (some f, f ∷ heap) else peek_loop by_frame_id heap

  unfoldable pub peek_next_frame_id : FrameResultBuffer P → Option ℕ × FrameResultBuffer P
  unfolding peek_loop
  peek_next_frame_id b =
      let (found, heap) = peek_loop b.by_frame_id b.heap in
      (found, record { heap = heap; by_frame_id = b.by_frame_id; ready = b.ready })

  -- The loop of `pop_next`.
  unfoldable pub pop_loop : Option ℕ → Dict ℕ P → Bool → List ℕ → Option P × FrameResultBuffer P
  pop_loop expected_frame_id by_frame_id ready [] =
      (none, record { heap = []; by_frame_id = by_frame_id; ready = ready })
  pop_loop expected_frame_id by_frame_id ready (f ∷ heap) =
      if not (has_key f by_frame_id)
      then pop_loop expected_frame_id by_frame_id ready heap
      else if is_unexpected expected_frame_id f
      then (none, record { heap = f ∷ heap; by_frame_id = by_frame_id; ready = ready })
      else (
        get f by_frame_id,
        record { heap = heap; by_frame_id = remove f by_frame_id; ready = ready },
      )

  unfoldable pub pop_next : Option ℕ → FrameResultBuffer P → Option P × FrameResultBuffer P
  unfolding pop_loop
  pop_next expected_frame_id b = pop_loop expected_frame_id b.by_frame_id b.ready b.heap

  unfoldable pub pop_frame : ℕ → FrameResultBuffer P → Option P × FrameResultBuffer P
  pop_frame frame_id b =
      let left = remove frame_id b.by_frame_id in
      (
        get frame_id b.by_frame_id,
        record {
          heap = b.heap;
          by_frame_id = left;
          ready = if is_empty left then false else b.ready;
        },
      )
