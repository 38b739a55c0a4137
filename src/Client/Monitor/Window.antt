-- ===== src/Client/Monitor/Window.antt =====
-- client/transport.py: what the monitor keeps of all the samples it was given, and when it asks for
-- a migration, from the samples themselves.
use nnrp_py.Common.{
  ℕ, zero, suc, ◌≤◌, ◌<◌, ◌≡◌, refl, sym, ap, ◌∙◌, min, false, ◌&&◌, List, [], ◌∷◌, ◌++◌, length,
  length-append, length-take, take, drop, ltb, lt→ltb, ltb→lt, leb, le→leb, if◌then◌else◌,
  Bool-cases, inl, inr, arith,
}
use nnrp_py.Client.Monitor.{
  FloatOps, PathHealthSample, MigrationTriggerPolicy, MigrationTriggerMonitor, no_reasons,
  degraded_reasons, snapshot, push_sample, observe, new_monitor,
}

leb-false : (a b : ℕ) → b < a → leb a b ≡ false
leb-false a b h = ground arith

le→ltb_false : (a b : ℕ) → b ≤ a → ltb a b ≡ false
le→ltb_false a b h = ground arith

ltb_false→le : (a b : ℕ) → ltb a b ≡ false → b ≤ a
ltb_false→le a b h = ground arith

module _ {A : Type 0} where
  abbrev reverse : List A → List A
  reverse [] = []
  reverse (x ∷ xs) = reverse xs ++ x ∷ []

  length-reverse : (xs : List A) → length (reverse xs) ≡ length xs
  length-reverse [] = refl
  length-reverse (x ∷ xs) = omega (arith, length-append (reverse xs) (x ∷ []), length-reverse xs)

  drop-append_one :
      (xs : List A) (x : A) → 0 < length xs → drop 1 (xs ++ x ∷ []) ≡ drop 1 xs ++ x ∷ []
  drop-append_one [] x h = absurd (omega arith)
  drop-append_one (y ∷ xs) x h = refl

  -- The oldest is the last of the newest first.
  drop-reverse :
      (n : ℕ) (xs : List A) → length xs ≡ suc n → drop 1 (reverse xs) ≡ reverse (take n xs)
  drop-reverse n [] h = absurd (omega arith)
  drop-reverse zero (x ∷ []) h = refl
  drop-reverse zero (x ∷ y ∷ xs) h = absurd (omega arith)
  drop-reverse (suc n) (x ∷ xs) h =
      drop-append_one (reverse xs) x (omega (arith, length-reverse xs))
      ∙ ap (λ l. l ++ x ∷ []) (drop-reverse n xs (omega arith))

  take-take : (n : ℕ) (xs : List A) → take n (take (suc n) xs) ≡ take n xs
  take-take zero xs = refl
  take-take (suc n) [] = refl
  take-take (suc n) (x ∷ xs) = ap (λ l. x ∷ l) (take-take n xs)

  take_more : (n : ℕ) (xs : List A) → length xs ≤ n → take (suc n) xs ≡ take n xs
  take_more zero [] h = refl
  take_more zero (x ∷ xs) h = absurd (omega arith)
  take_more (suc n) [] h = refl
  take_more (suc n) (x ∷ xs) h = ap (λ l. x ∷ l) (take_more n xs (omega arith))

module _ {F : Type 0} (ops : FloatOps F) (policy : MigrationTriggerPolicy F) where
  abbrev window : ℕ
  window = policy.window_size

  -- The last samples, as many as the window holds, oldest first, of samples with the newest first.
  abbrev pub window_of : List (PathHealthSample F) → List (PathHealthSample F)
  window_of recent = reverse (take policy.window_size recent)

  -- How many windows in a row, up to the newest sample, are full and degraded.
  abbrev pub streak : List (PathHealthSample F) → ℕ
  streak [] = 0
  streak (s ∷ older) =
      let earlier = streak older in
      if ltb (length (s ∷ older)) policy.window_size
      then 0
      else if no_reasons (degraded_reasons ops policy (window_of (s ∷ older)))
      then 0
      else suc earlier

  -- The monitor after the samples, the newest first.
  abbrev pub run : List (PathHealthSample F) → MigrationTriggerMonitor F
  run [] = new_monitor ops policy
  run (s ∷ older) = (observe ops (run older) s).1

  push_at :
      (w : ℕ) (s : PathHealthSample F) (older : List (PathHealthSample F))
      → 0 < w
      → push_sample ops w (reverse (take w older)) s ≡ reverse (take w (s ∷ older))
  push_at zero s older h = absurd (omega arith)
  push_at (suc n) s older h =
      let kept = take (suc n) older in
      let size : length (reverse (s ∷ kept)) ≡ suc (min (suc n) (length older)) =
        omega (arith, length-reverse (s ∷ kept), length-take (suc n) older) in
      elim (Bool-cases (ltb (suc n) (length (reverse (s ∷ kept))))) [
        | inl longer ↦
            let full : length kept ≡ suc n =
              omega (arith, ltb→lt _ _ longer, size, length-take (suc n) older) in
            rw longer (
              drop-reverse (suc n) (s ∷ kept) (omega arith)
              ∙ ap (λ l. reverse (s ∷ l)) (take-take n older))
        | inr fits ↦
            let few : length older ≤ n = ground (arith, size) in
            rw fits (ap (λ l. reverse (s ∷ l)) (take_more n older few))
      ]

  push-window :
      (s : PathHealthSample F) (older : List (PathHealthSample F))
      → 0 < policy.window_size
      → push_sample ops policy.window_size (window_of older) s ≡ window_of (s ∷ older)
  push-window s older h = push_at policy.window_size s older h

  streak_zero :
      (recent : List (PathHealthSample F)) → length recent < policy.window_size → streak recent ≡ 0
  streak_zero [] h = refl
  streak_zero (s ∷ older) h = rw (lt→ltb (length (s ∷ older)) policy.window_size h)

  abbrev state_of : List (PathHealthSample F) → MigrationTriggerMonitor F
  state_of recent = record {
    policy = policy;
    samples = window_of recent;
    consecutive = streak recent;
  }

  length-window :
      (recent : List (PathHealthSample F))
      → length (window_of recent) ≡ min policy.window_size (length recent)
  length-window recent =
      length-reverse (take policy.window_size recent) ∙ length-take policy.window_size recent

  empty-window : (w : ℕ) → take {A = PathHealthSample F} w [] ≡ []
  empty-window zero = refl
  empty-window (suc w) = refl

  -- One more sample, on a monitor that is as the samples say.
  observe_step :
      (s : PathHealthSample F) (older : List (PathHealthSample F))
      → 0 < policy.window_size
      → ((observe ops (state_of older) s).1 ≡ state_of (s ∷ older))
        × ((observe ops (state_of older) s).0.should_trigger ≡ (
            leb policy.window_size (length (s ∷ older))
            && leb policy.consecutive_degraded_windows (streak (s ∷ older))))
  unfolding observe snapshot
  observe_step s older h =
      let pushed = push-window s older h in
      let size = length-window (s ∷ older) in
      elim (Bool-cases (ltb (length (s ∷ older)) policy.window_size)) [
        | inl short ↦
            let is_short =
              lt→ltb (length (window_of (s ∷ older))) policy.window_size
                (omega (arith, size, ltb→lt _ _ short)) in
            let none_yet = streak_zero older (omega (arith, ltb→lt _ _ short)) in
            let early = leb-false policy.window_size (length (s ∷ older)) (ltb→lt _ _ short) in
            (rw (pushed, is_short, short, none_yet), rw (pushed, is_short, early))
        | inr full ↦
            let reached : policy.window_size ≤ length (s ∷ older) = ltb_false→le _ _ full in
            let is_full =
              le→ltb_false (length (window_of (s ∷ older))) policy.window_size
                (omega (arith, size, reached)) in
            let late = le→leb policy.window_size (length (s ∷ older)) reached in
            (rw (pushed, is_full, full), rw (pushed, is_full, full, late))
      ]

  -- The state after any samples.
  run-state :
      (recent : List (PathHealthSample F)) → 0 < policy.window_size → run recent ≡ state_of recent
  run-state [] h =
      ap (λ l. record { policy = policy; samples = reverse l; consecutive = 0 })
        (sym (empty-window policy.window_size))
  run-state (s ∷ older) h =
      ap (λ m. (observe ops m s).1) (run-state older h) ∙ (observe_step s older h).0

  -- After any samples, the newest first, a monitor with a window that is not empty keeps the last of
  -- them as a window, and its counter is the number of full windows in a row, up to the newest, that
  -- were degraded. With one more sample it asks for a migration exactly when the window is full and
  -- this number has reached the policy's.
  pub observe-refines :
      (s : PathHealthSample F) (older : List (PathHealthSample F))
      → 0 < policy.window_size
      → ((run (s ∷ older)).samples ≡ window_of (s ∷ older))
        × ((run (s ∷ older)).consecutive ≡ streak (s ∷ older))
        × ((observe ops (run older) s).0.should_trigger ≡ (
            leb policy.window_size (length (s ∷ older))
            && leb policy.consecutive_degraded_windows (streak (s ∷ older))))
  observe-refines s older h =
      let state = run-state (s ∷ older) h in
      (
        ap (λ m. m.samples) state,
        ap (λ m. m.consecutive) state,
        ap (λ m. (observe ops m s).0.should_trigger) (run-state older h)
            ∙ (observe_step s older h).1,
      )
