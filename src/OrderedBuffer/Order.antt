-- ===== src/OrderedBuffer/Order.antt =====
-- tools/ordered_buffer.py: well-formed buffers, and the operations on a given frame id.
use nnrp_py.Common.{
  ℕ, ◌≤◌, ◌≡◌, ◌≢◌, ◌||◌, inl, inr, refl, ◌∙◌, none, some, List, [], ◌∷◌, Bool, true, false, ◌==◌,
  ==_iff, ==_self, leb, leb→le, Bool-cases, All, nat_key, set, has_key, Unique, set-Unique,
  remove-Unique, get-set_same, get-set_other, get-remove_same, has_key-set_inv, has_key-remove_inv,
  arith,
}
use nnrp_py.OrderedBuffer.{FrameResultBuffer, heappush, empty_buffer, add, pop_frame}

abbrev pub contains : ℕ → List ℕ → Bool
contains f [] = false
contains f (g ∷ heap) = (f == g) || contains f heap

abbrev pub Sorted : List ℕ → Type 0
Sorted [] = Unit
Sorted (f ∷ heap) = All (λ g. f ≤ g) heap × Sorted heap

pub All-contains :
    (f g : ℕ) (heap : List ℕ) → All (λ x. f ≤ x) heap → contains g heap ≡ true → f ≤ g
All-contains f g [] all h = cc
All-contains f g (x ∷ heap) all h = elim (Bool-cases (g == x)) [
  | inl e ↦ omega (arith, all.0, (==_iff g x).0 e)
  | inr e ↦ All-contains f g heap all.1 (rw e at h)
]

All-heappush :
    (f g : ℕ) (heap : List ℕ) → f ≤ g → All (λ x. f ≤ x) heap → All (λ x. f ≤ x) (heappush g heap)
unfolding heappush
All-heappush f g [] le all = (le, tt)
All-heappush f g (x ∷ heap) le all = elim (Bool-cases (leb g x)) [
  | inl e ↦ rw e (le, all)
  | inr e ↦ rw e (all.0, All-heappush f g heap le all.1)
]

All-le : (f g : ℕ) (heap : List ℕ) → f ≤ g → All (λ x. g ≤ x) heap → All (λ x. f ≤ x) heap
All-le f g [] le all = tt
All-le f g (x ∷ heap) le all = (omega (arith, all.0), All-le f g heap le all.1)

heappush-Sorted : (f : ℕ) (heap : List ℕ) → Sorted heap → Sorted (heappush f heap)
unfolding heappush
heappush-Sorted f [] s = (tt, tt)
heappush-Sorted f (x ∷ heap) s = elim (Bool-cases (leb f x)) [
  | inl e ↦ rw e ((leb→le f x e, All-le f x heap (leb→le f x e) s.0), s)
  | inr e ↦ rw e (All-heappush x f heap (ground arith) s.0, heappush-Sorted f heap s.1)
]

contains-heappush_same : (f : ℕ) (heap : List ℕ) → contains f (heappush f heap) ≡ true
unfolding heappush
contains-heappush_same f [] = rw (==_self f f refl)
contains-heappush_same f (x ∷ heap) = elim (Bool-cases (leb f x)) [
  | inl e ↦ rw (e, ==_self f f refl)
  | inr e ↦ rw e (ground (arith, contains-heappush_same f heap))
]

contains-heappush :
    (f g : ℕ) (heap : List ℕ) → contains g heap ≡ true → contains g (heappush f heap) ≡ true
unfolding heappush
contains-heappush f g [] h = cc
contains-heappush f g (x ∷ heap) h = elim (Bool-cases (leb f x)) [
  | inl e ↦ rw e (ground arith)
  | inr e ↦ elim (Bool-cases (g == x)) [
    | inl i ↦ rw (e, i)
    | inr i ↦ rw (e, i) (contains-heappush f g heap (rw i at h))
  ]
]

module _ {P : Type 0} where
  -- The model's heap, a sorted list, ascends and holds every frame id of the dict, and the dict each
  -- once.
  pub record IsWellFormed (b : FrameResultBuffer P) : Type 0 where
    pub sorted : Sorted b.heap
    pub covers : (f : ℕ) → has_key f b.by_frame_id ≡ true → contains f b.heap ≡ true
    pub unique : Unique b.by_frame_id

  pub empty_buffer-IsWellFormed : IsWellFormed empty_buffer
  empty_buffer-IsWellFormed = record { sorted = tt; covers = λ f h. h; unique = tt }

  -- Adding a packet to a well-formed buffer, under a new frame id or a known one, keeps it well formed.
  pub add-IsWellFormed :
      (frame_id : ℕ) (packet : P) (b : FrameResultBuffer P)
      → IsWellFormed b
      → IsWellFormed (add frame_id packet b)
  unfolding add
  add-IsWellFormed frame_id packet b wf =
      let unique = set-Unique frame_id packet b.by_frame_id wf.unique in
      elim (Bool-cases (has_key frame_id b.by_frame_id)) [
        | inl e ↦ rw e (record {
          sorted = wf.sorted;
          covers = λ f h. elim (has_key-set_inv frame_id f packet b.by_frame_id h) [
            | inl same ↦ wf.covers f (rw same e)
            | inr there ↦ wf.covers f there
          ];
          unique = unique;
        })
        | inr e ↦ rw e (record {
          sorted = heappush-Sorted frame_id b.heap wf.sorted;
          covers = λ f h. elim (has_key-set_inv frame_id f packet b.by_frame_id h) [
            | inl same ↦ rw same (contains-heappush_same frame_id b.heap)
            | inr there ↦ contains-heappush frame_id f b.heap (wf.covers f there)
          ];
          unique = unique;
        })
      ]

  -- Popping a frame id keeps the buffer well formed; its heap entry stays behind.
  pub pop_frame-IsWellFormed :
      (frame_id : ℕ) (b : FrameResultBuffer P)
      → IsWellFormed b
      → IsWellFormed ((pop_frame frame_id b).1)
  unfolding pop_frame
  pop_frame-IsWellFormed frame_id b wf = record {
    sorted = wf.sorted;
    covers = λ f h. wf.covers f (has_key-remove_inv frame_id f b.by_frame_id h);
    unique = remove-Unique frame_id b.by_frame_id wf.unique;
  }

  -- The packet that was added last for a frame id is what `pop_frame` of that id returns, whatever was
  -- added in between for another id; after it, the first id holds no packet.
  pub pop_frame-add :
      (f g : ℕ) (p q : P) (b : FrameResultBuffer P)
      → g ≢ f
      → ((pop_frame f (add g q (add f p b))).0 ≡ some p)
        × ((pop_frame f (pop_frame f (add g q (add f p b))).1).0 ≡ none)
  unfolding add pop_frame
  pop_frame-add f g p q b other =
      let apart : (f == g) ≡ false = ground arith in
      (
        get-set_other g f q (set f p b.by_frame_id) apart ∙ get-set_same f p b.by_frame_id,
        get-remove_same f (set g q (set f p b.by_frame_id)),
      )
