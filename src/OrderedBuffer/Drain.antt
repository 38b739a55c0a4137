-- ===== src/OrderedBuffer/Drain.antt =====
-- tools/ordered_buffer.py: a buffer that is emptied by `pop_next`, with no packet added in between.
use mathlib.Core.List.{Perm}
use mathlib.Core.List.Perm
use nnrp_py.Common.{
  ℕ, zero, suc, ◌<◌, ◌≡◌, refl, ap, true, false, ◌==◌, ==_iff, Option, none, some, List, [], ◌∷◌,
  length, All, Dict, nat_key, get, remove, has_key, Unique, get_total, has_key-remove_inv,
  has_key-remove_same, Bool-cases, inl, inr, ◌⊎◌, no_length, arith,
}
use nnrp_py.OrderedBuffer.{FrameResultBuffer, peek_loop, peek_next_frame_id, pop_next}
use nnrp_py.OrderedBuffer.Order.{contains, IsWellFormed}
use nnrp_py.OrderedBuffer.Pops.{
  IsLeast, peek_next_frame_id_iff, pop_next_least, pop_next-IsWellFormed,
}
use nnrp_py.OrderedBuffer.Reached.{Reached, Reached-IsWellFormed, no_key}

option_cases : (o : Option ℕ) → (o ≡ none) ⊎ ((f : ℕ) × (o ≡ some f))
option_cases none = inl refl
option_cases (some f) = inr (f, refl)

module _ {P : Type 0} where
  abbrev pub next_of : Option ℕ → Option P → List (ℕ × P) → List (ℕ × P)
  next_of (some frame_id) (some packet) rest = (frame_id, packet) ∷ rest
  next_of _ _ rest = []

  -- What the given number of rounds hand out, each with the frame id that was peeked at before; they
  -- end where nothing is popped.
  unfoldable pub drain : ℕ → FrameResultBuffer P → List (ℕ × P)
  drain zero b = []
  drain (suc rounds) b =
      let rest = drain rounds (pop_next none b).1 in
      next_of (peek_next_frame_id b).0 (pop_next none b).0 rest

  abbrev pub Ascends : List (ℕ × P) → Type 0
  Ascends [] = Unit
  Ascends ((f, p) ∷ rest) = All (λ (e : ℕ × P). f < e.0) rest × Ascends rest

  remove_absent : (k : ℕ) (d : Dict ℕ P) → has_key k d ≡ false → remove k d ≡ d
  unfolding remove
  remove_absent k [] h = refl
  remove_absent k ((j, w) ∷ d) h = elim (Bool-cases (k == j)) [
    | inl e ↦ cc (rw e at h)
    | inr e ↦ rw e (ap (λ l. (j, w) ∷ l) (remove_absent k d (rw e at h)))
  ]

  -- A dict is the entry of a key and what is left without it.
  remove-perm :
      (k : ℕ) (v : P) (d : Dict ℕ P)
      → Unique d
      → get k d ≡ some v
      → Perm d ((k, v) ∷ remove k d) × (length d ≡ suc (length (remove k d)))
  unfolding get remove
  remove-perm k v [] u h = cc
  remove-perm k v ((j, w) ∷ d) u h = elim (Bool-cases (k == j)) [
    | inl e ↦
        let same : k ≡ j = (==_iff k j).0 e in
        let gone : remove k d ≡ d = remove_absent k d (rw same u.0) in
        let value : w ≡ v = cc (rw e at h) in rw (e, gone, same, value) (Perm.rfl, refl)
    | inr e ↦
        let (perm, size) = remove-perm k v d u.1 (rw e at h) in
        rw e
          (Perm.trans (Perm.cons (j, w) perm) (Perm.swap (k, v) (j, w) (remove k d)), ap suc size)
  ]

  peek_loop-none :
      (d : Dict ℕ P) (heap : List ℕ) (f : ℕ)
      → (peek_loop d heap).0 ≡ none
      → contains f heap ≡ true
      → has_key f d ≡ false
  unfolding peek_loop
  peek_loop-none d [] f h there = cc
  peek_loop-none d (x ∷ heap) f h there = elim (Bool-cases (has_key x d)) [
    | inl live ↦ cc (rw live at h)
    | inr stale ↦ elim (Bool-cases (f == x)) [
      | inl same ↦ rw ((==_iff f x).0 same) stale
      | inr other ↦ peek_loop-none d heap f (rw stale at h) (rw other at there)
    ]
  ]

  -- A well-formed buffer shows a frame id, or its dict is empty.
  peek_cases :
      (b : FrameResultBuffer P)
      → IsWellFormed b
      → (b.by_frame_id ≡ []) ⊎ ((f : ℕ) × ((peek_next_frame_id b).0 ≡ some f))
  unfolding peek_next_frame_id
  peek_cases b wf = elim (option_cases (peek_loop b.by_frame_id b.heap).0) [
    | inl e ↦
        inl (
          no_key b.by_frame_id λ f held. peek_loop-none b.by_frame_id b.heap f e (wf.covers f held))
    | inr found ↦ inr found
  ]

  -- Everything that is held without the least frame id is above it.
  above_least :
      (f : ℕ) (d : Dict ℕ P) (rest : List (ℕ × P))
      → IsLeast f d
      → All (λ (e : ℕ × P). has_key e.0 (remove f d) ≡ true) rest
      → All (λ (e : ℕ × P). f < e.0) rest × All (λ (e : ℕ × P). has_key e.0 d ≡ true) rest
  above_least f d [] least held = (tt, tt)
  above_least f d ((g, p) ∷ rest) least held =
      let there = has_key-remove_inv f g d held.0 in
      let (above, others) = above_least f d rest least held.1 in
      let further : f < g = elim (Bool-cases (g == f)) [
        | inl e ↦ absurd (cc (rw ((==_iff g f).0 e) at (held.0), has_key-remove_same f d))
        | inr e ↦ ground (arith, least.least g there)
      ] in
      ((further, above), (there, others))

  abbrev IsDrained : Dict ℕ P → List (ℕ × P) → Type 0
  IsDrained d out = Perm d out × Ascends out × All (λ (e : ℕ × P). has_key e.0 d ≡ true) out

  drain-IsDrained :
      (n : ℕ) (b : FrameResultBuffer P)
      → IsWellFormed b
      → length b.by_frame_id ≡ n
      → IsDrained b.by_frame_id (drain n b)
  unfolding drain
  drain-IsDrained zero b wf size =
      let empty = no_length b.by_frame_id size in rw empty (Perm.rfl, tt, tt)
  drain-IsDrained (suc n) b wf size = elim (peek_cases b wf) [
    | inl empty ↦ absurd (omega (arith, ap length empty))
    | inr (f, found) ↦
        let least = (peek_next_frame_id_iff b f wf).0 found in
        let (popped, left) = pop_next_least none f b wf least in
        let (p, held) = get_total f b.by_frame_id least.held in
        let (perm, less) = remove-perm f p b.by_frame_id wf.unique held in
        let (rest_perm, rest_up, rest_held) =
          drain-IsDrained n (pop_next none b).1 (pop_next-IsWellFormed none b wf)
            (rw left (omega arith)) in
        let (above, there) = above_least f b.by_frame_id _ least (rw left at rest_held) in
        rw (found, popped, held)
          (
            Perm.trans perm (Perm.cons (f, p) (rw left at rest_perm)),
            (above, rest_up),
            (least.held, there),
          )
  ]

  -- A buffer that calls have led to, in any order, and that is then emptied by as many calls of
  -- `pop_next` as it holds packets, with no other call in between but `peek_next_frame_id`, hands out
  -- every packet of its dict under its frame id, each once, in strictly ascending order of these ids.
  pub drain-Reached :
      (b : FrameResultBuffer P)
      → Reached b
      → Perm b.by_frame_id (drain (length b.by_frame_id) b)
        × Ascends (drain (length b.by_frame_id) b)
  drain-Reached b run =
      let (all_out, up, _) =
        drain-IsDrained (length b.by_frame_id) b (Reached-IsWellFormed b run) refl in
      (all_out, up)
