-- ===== src/Tests/Clients.antt =====
-- A client session, a migration monitor and a result router at concrete inputs.
use nnrp_py.Common.{
  ℕ, ◌*◌, ◌/◌, ◌≡◌, refl, subst, true, false, ◌&&◌, none, some, List, [], ◌∷◌, ◌++◌, ltb, leb,
  length, if◌then◌else◌, Result, ok, err, value_error, get, set, pair_key, arith,
}
use nnrp_py.Struct
use nnrp_py.Header.Enums.{WireFormat, MessageType}
use nnrp_py.Struct.{Bytes}
use nnrp_py.Metadata
use nnrp_py.Metadata.FrameSubmit
use nnrp_py.Metadata.FrameSubmit.{FrameSubmitMetadata}
use nnrp_py.Packet
use nnrp_py.Packet.{NnrpPacket}
use nnrp_py.Tests.Tensors.{submitted}
use nnrp_py.Client.Submit.{
  ClientSession, SubmitRequest, migrated, check_frame_id, validate_migrated_current_frame_id,
  submit_packet, start_submit, after_submit, Calls, begin, starts, refused, returns, raises, first,
}
use nnrp_py.Client.Submit.Order.{Descends, InTurn, ids_after_migration}
use nnrp_py.Client.Monitor.{
  FloatOps, PathHealthSample, MigrationTriggerPolicy, degraded_reasons, snapshot, observe,
}
use nnrp_py.Client.Monitor.Window.{window_of, streak, run, observe-refines}
use nnrp_py.Client.Router.{
  RouteKey, ResultRouter, Action, task_round, task_end, starts_receive, resumes_receive, Outcome,
  waits, deliver, stop, take_item, receive, receive_from, resume, act,
}
use nnrp_py.Client.Router as Router
use nnrp_py.Client.Router.Fifo.{of_key, queued, delivered, run-fifo}

abbrev request : ℕ → SubmitRequest
request frame_id = record {
  operation_id = 3;
  frame_id = frame_id;
  header = record { flags = 0; view_id = 0; route_id = 0; trace_id = 0 };
  metadata = submitted;
  body = [];
}

abbrev session_at : ℕ → ClientSession
session_at last = record {
  session_id = 7;
  current_min_frame_id = 10;
  current_last_submitted_frame_id = some last;
}

abbrev no_packet : NnrpPacket
no_packet = record {
  header = record {
    version_major = 0;
    wire_format = WireFormat.current;
    msg_type = MessageType.close;
    flags = 0;
    meta_len = 0;
    body_len = 0;
    session_id = 0;
    frame_id = 0;
    view_id = 0;
    route_id = 0;
    trace_id = 0;
    header_len = 0;
  };
  metadata = [];
  body = [];
}

abbrev packet_in : Result NnrpPacket → NnrpPacket
packet_in (ok packet) = packet
packet_in (err raised) = no_packet

abbrev packet_of : ClientSession → ℕ → NnrpPacket
packet_of s frame_id = packet_in (start_submit s (request frame_id))

first_starts : start_submit (migrated 7 10) (request 10) ≡ ok (packet_of (migrated 7 10) 10)
unfolding start_submit migrated check_frame_id validate_migrated_current_frame_id submit_packet
    FrameSubmit.check Metadata.pack Struct.pack Packet.build
first_starts = refl

refused_again : start_submit (session_at 10) (request 10) ≡ err value_error
unfolding start_submit check_frame_id validate_migrated_current_frame_id
refused_again = refl

second_starts : start_submit (session_at 10) (request 12) ≡ ok (packet_of (session_at 10) 12)
unfolding start_submit check_frame_id validate_migrated_current_frame_id submit_packet
    FrameSubmit.check Metadata.pack Struct.pack Packet.build
second_starts = refl

migrated_after : after_submit (migrated 7 10) 10 ≡ session_at 10
unfolding migrated
migrated_after = refl

-- The frame 10 is sent, then refused; the frame 12 fails in the connection, then waits again.
one_returned : Calls InTurn (migrated 7 10) (10 ∷ []) (10 ∷ []) [] (session_at 10)
one_returned =
    subst (λ s. Calls InTurn (migrated 7 10) (10 ∷ []) (10 ∷ []) [] s) migrated_after
      (returns 10 (starts (request 10) (packet_of (migrated 7 10) 10) begin refl first_starts)
        first)

failed_once : Calls InTurn (migrated 7 10) (12 ∷ 12 ∷ 10 ∷ []) (10 ∷ []) (12 ∷ []) (session_at 10)
failed_once =
    starts (request 12) (packet_of (session_at 10) 12)
      (raises 12
        (starts (request 12) (packet_of (session_at 10) 12)
          (refused (request 10) value_error one_returned refused_again) refl second_starts)
        first)
      refl second_starts

ids_after_migration_example : Descends 10 (12 ∷ 10 ∷ [])
ids_after_migration_example =
    ids_after_migration 7 10 (12 ∷ 12 ∷ 10 ∷ []) (10 ∷ []) (12 ∷ []) (session_at 10) (omega arith)
      failed_once

-- Any number of calls at once.
abbrev AtOnce : List ℕ → Type 0
AtOnce waiting = Unit

abbrev insert : ℕ → List ℕ → List ℕ
insert x [] = x ∷ []
insert x (y ∷ ys) = let rest = insert x ys in if leb x y then x ∷ y ∷ ys else y ∷ rest

abbrev sort : List ℕ → List ℕ
sort [] = []
sort (x ∷ xs) = insert x (sort xs)

abbrev at_index : ℕ → List ℕ → ℕ
at_index n [] = 0
at_index ℕ.zero (x ∷ xs) = x
at_index (ℕ.suc n) (x ∷ xs) = at_index n xs

-- Rates in thousandths, and the upper median.
abbrev thousandths : FloatOps ℕ
thousandths = record {
  zero_rate = 0;
  ratio = λ a b. a * 1000 / b;
  is_above = λ a b. ltb b a;
  whole_median = λ l. at_index (length l / 2) (sort l);
  median = λ l. at_index (length l / 2) (sort l);
}

abbrev policy : MigrationTriggerPolicy ℕ
policy = record {
  window_size = 2;
  consecutive_degraded_windows = 2;
  max_timeout_rate = 250;
  min_median_throughput_bytes_per_sec = none;
  max_median_round_trip_us = some 100;
  max_jitter_us = none;
}

abbrev sample : ℕ → PathHealthSample ℕ
sample round_trip_us = record {
  round_trip_us = round_trip_us;
  effective_throughput_bytes_per_sec = 5;
  timed_out = false;
}

-- The third sample is the second full window that is degraded.
abbrev older_samples : List (PathHealthSample ℕ)
older_samples = sample 300 ∷ sample 200 ∷ []

observe-refines_example :
    ((run thousandths policy (sample 400 ∷ older_samples)).samples
      ≡ window_of thousandths policy (sample 400 ∷ older_samples))
    × ((run thousandths policy (sample 400 ∷ older_samples)).consecutive
        ≡ streak thousandths policy (sample 400 ∷ older_samples))
    × ((observe thousandths (run thousandths policy older_samples) (sample 400)).0.should_trigger
        ≡ (leb 2 3 && leb 2 (streak thousandths policy (sample 400 ∷ older_samples))))
observe-refines_example =
    observe-refines thousandths policy (sample 400) older_samples (omega arith)

migration_asked :
    (observe thousandths (run thousandths policy older_samples) (sample 400)).0.should_trigger
    ≡ true
unfolding observe snapshot degraded_reasons
migration_asked = refl

abbrev routed : RouteKey × ℕ → RouteKey
routed r = r.0

abbrev no_queues : ResultRouter (RouteKey × ℕ)
no_queues = record { queues = []; error = false; closed = false }

abbrev actions : List (Action (RouteKey × ℕ))
actions =
    starts_receive (1, 0)
    ∷ task_round ((1, 0), 50)
    ∷ task_round ((2, 0), 60)
    ∷ task_round ((1, 0), 51)
    ∷ resumes_receive (1, 0)
    ∷ task_end true
    ∷ starts_receive (1, 0)
    ∷ starts_receive (1, 0)
    ∷ []

run-fifo_example :
    of_key (1, 0) (Router.run routed actions no_queues).0
      ++ queued (1, 0) (Router.run routed actions no_queues).1
    ≡ queued (1, 0) no_queues ++ delivered routed (1, 0) false actions
run-fifo_example = run-fifo routed (1, 0) actions no_queues

-- Two callers wait for one key when the task ends: the queue gets one closing item, so that the
-- second of them goes on waiting.
abbrev waiting : ResultRouter (RouteKey × ℕ)
waiting = (receive (1, 0) (receive (1, 0) no_queues).1).1

second_waits : (resume (1, 0) (resume (1, 0) (stop true waiting)).1).0 ≡ waits
unfolding get set receive receive_from resume take_item stop
second_waits = refl
