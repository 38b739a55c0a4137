-- ===== src/Client/Monitor.antt =====
-- client/transport.py: `MigrationTriggerMonitor`. Floating point numbers and the `median` of the
-- module statistics are parameters: `ratio` is the division of two counts, `is_above` is `>`, and
-- `whole_median` is the median of whole numbers, cut to one.
pub mod Window
use nnrp_py.Common.{
  ℕ, suc, ◌-◌, ◌<◌, max, Bool, true, false, not, ◌&&◌, ◌||◌, Option, none, some, List, [], ◌∷◌,
  ◌++◌, length, ltb, leb, ◌==◌, if◌then◌else◌, drop,
}

pub record FloatOps (F : Type 0) : Type 0 where
  pub zero_rate : F
  pub ratio : ℕ → ℕ → F
  pub is_above : F → F → Bool
  pub whole_median : List ℕ → ℕ
  pub median : List F → F

pub record PathHealthSample (F : Type 0) : Type 0 where
  pub round_trip_us : ℕ
  pub effective_throughput_bytes_per_sec : F
  pub timed_out : Bool

pub record MigrationTriggerPolicy (F : Type 0) : Type 0 where
  pub window_size : ℕ
  pub consecutive_degraded_windows : ℕ
  pub max_timeout_rate : F
  pub min_median_throughput_bytes_per_sec : Option F
  pub max_median_round_trip_us : Option ℕ
  pub max_jitter_us : Option ℕ

pub data DegradedReason : Type 0 where
  timeout_rate throughput round_trip jitter : DegradedReason

pub record MigrationTriggerSnapshot (F : Type 0) : Type 0 where
  pub sample_count : ℕ
  pub median_round_trip_us : Option ℕ
  pub median_effective_throughput_bytes_per_sec : Option F
  pub jitter_us : Option ℕ
  pub timeout_rate : F
  pub degraded_reasons : List DegradedReason
  pub consecutive_degraded_windows : ℕ
  pub should_trigger : Bool

pub record MigrationTriggerMonitor (F : Type 0) : Type 0 where
  pub policy : MigrationTriggerPolicy F
  pub samples : List (PathHealthSample F)
  pub consecutive : ℕ

-- `abs(current - previous)` of neighbours.
abbrev pub differences : List ℕ → List ℕ
differences [] = []
differences (previous ∷ []) = []
differences (previous ∷ current ∷ values) =
    max (current - previous) (previous - current) ∷ differences (current ∷ values)

abbrev pub no_reasons : List DegradedReason → Bool
no_reasons [] = true
no_reasons (r ∷ reasons) = false

abbrev pub reason_if : Bool → DegradedReason → List DegradedReason
reason_if true r = r ∷ []
reason_if false r = []

module _ {F : Type 0} (ops : FloatOps F) where
  open ops use {zero_rate, ratio, is_above, whole_median, median}

  abbrev pub timeout_count : List (PathHealthSample F) → ℕ
  timeout_count [] = 0
  timeout_count (s ∷ samples) =
      let rest = timeout_count samples in if s.timed_out then suc rest else rest

  abbrev pub round_trip_values : List (PathHealthSample F) → List ℕ
  round_trip_values [] = []
  round_trip_values (s ∷ samples) =
      let rest = round_trip_values samples in if s.timed_out then rest else s.round_trip_us ∷ rest

  abbrev pub throughput_values : List (PathHealthSample F) → List F
  throughput_values [] = []
  throughput_values (s ∷ samples) =
      let rest = throughput_values samples in
      if s.timed_out then rest else s.effective_throughput_bytes_per_sec ∷ rest

  abbrev pub median_round_trip : List ℕ → Option ℕ
  median_round_trip [] = none
  median_round_trip (v ∷ values) = some (whole_median (v ∷ values))

  abbrev pub median_throughput : List F → Option F
  median_throughput [] = none
  median_throughput (v ∷ values) = some (median (v ∷ values))

  abbrev pub jitter_of : List ℕ → Option ℕ
  jitter_of values =
      if leb 2 (length values) then some (whole_median (differences values)) else none

  -- `x is not None and bound is not None and x > bound`
  abbrev pub exceeds : Option ℕ → Option ℕ → Bool
  exceeds (some value) (some bound) = ltb bound value
  exceeds _ _ = false

  abbrev pub falls_below : Option F → Option F → Bool
  falls_below (some value) (some bound) = is_above bound value
  falls_below _ _ = false

  -- The reasons for which a full window is degraded.
  unfoldable pub degraded_reasons :
      MigrationTriggerPolicy F → List (PathHealthSample F) → List DegradedReason
  degraded_reasons policy samples =
      reason_if (is_above (ratio (timeout_count samples) (length samples)) policy.max_timeout_rate)
        DegradedReason.timeout_rate
      ++ (reason_if
            (falls_below (median_throughput (throughput_values samples))
              policy.min_median_throughput_bytes_per_sec)
            DegradedReason.throughput
          ++ (reason_if
                (exceeds (median_round_trip (round_trip_values samples))
                  policy.max_median_round_trip_us)
                DegradedReason.round_trip
              ++ reason_if (exceeds (jitter_of (round_trip_values samples)) policy.max_jitter_us)
                  DegradedReason.jitter))

  abbrev pub next_consecutive : List DegradedReason → ℕ → ℕ
  next_consecutive reasons n = if no_reasons reasons then 0 else suc n

  -- The snapshot, and the counter afterwards.
  unfoldable pub snapshot : MigrationTriggerMonitor F → MigrationTriggerSnapshot F × ℕ
  unfolding degraded_reasons
  snapshot m =
      let reasons = degraded_reasons m.policy m.samples in
      let consecutive = next_consecutive reasons m.consecutive in
      if ltb (length m.samples) m.policy.window_size
      then (
        record {
          sample_count = length m.samples;
          median_round_trip_us = none;
          median_effective_throughput_bytes_per_sec = none;
          jitter_us = none;
          timeout_rate = zero_rate;
          degraded_reasons = [];
          consecutive_degraded_windows = m.consecutive;
          should_trigger = false;
        },
        m.consecutive,
      )
      else (
        record {
          sample_count = length m.samples;
          median_round_trip_us = median_round_trip (round_trip_values m.samples);
          median_effective_throughput_bytes_per_sec =
              median_throughput (throughput_values m.samples);
          jitter_us = jitter_of (round_trip_values m.samples);
          timeout_rate = ratio (timeout_count m.samples) (length m.samples);
          degraded_reasons = reasons;
          consecutive_degraded_windows = consecutive;
          should_trigger = leb m.policy.consecutive_degraded_windows consecutive;
        },
        consecutive,
      )

  -- `append`, and `popleft` when the window is longer than it may be.
  abbrev pub push_sample :
      ℕ → List (PathHealthSample F) → PathHealthSample F → List (PathHealthSample F)
  push_sample window samples s =
      let longer = samples ++ s ∷ [] in if ltb window (length longer) then drop 1 longer else longer

  unfoldable pub observe :
      MigrationTriggerMonitor F
      → PathHealthSample F
      → MigrationTriggerSnapshot F × MigrationTriggerMonitor F
  unfolding snapshot
  observe m s =
      let moved : MigrationTriggerMonitor F = record {
        policy = m.policy;
        samples = push_sample m.policy.window_size m.samples s;
        consecutive = m.consecutive;
      } in
      let (view, consecutive) = snapshot moved in
      (view, record { policy = m.policy; samples = moved.samples; consecutive = consecutive })

  abbrev pub new_monitor : MigrationTriggerPolicy F → MigrationTriggerMonitor F
  new_monitor policy = record { policy = policy; samples = []; consecutive = 0 }
