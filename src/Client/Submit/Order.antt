-- ===== src/Client/Submit/Order.antt =====
-- client/transport.py: the order of the frame ids that a migrated session submits.
use nnrp_py.Common.{
  ℕ, ◌-◌, ◌≤◌, ◌<◌, ◌≡◌, refl, ap, ◌∙◌, subst, true, not, ◌&&◌, some, List, [], ◌∷◌, ltb, leb, ok,
  All, length, no_length, ◌++◌, ◌+◌, >>=-eq-ok, require, require-eq-ok, arith, lt→ltb, inl, inr,
  Bool-cases,
}
use nnrp_py.Packet.{NnrpPacket}
use nnrp_py.Client.Submit.{
  ClientSession, SubmitRequest, migrated, is_tracked, validate_migrated_current_frame_id,
  after_submit, check_frame_id, start_submit, Removes, first, later, Calls, begin, starts, refused,
  returns, raises,
}

-- Ids with the last one first: each is above those behind it, and none is below `resume`.
abbrev pub Descends : ℕ → List ℕ → Type 0
Descends resume [] = Unit
Descends resume (id ∷ []) = resume ≤ id
Descends resume (id ∷ earlier ∷ ids) = (earlier < id) × Descends resume (earlier ∷ ids)

-- What the session remembers after these ids.
abbrev last_of : ℕ → List ℕ → ℕ
last_of resume [] = resume - 1
last_of resume (id ∷ ids) = id

abbrev state_after : ℕ → ℕ → List ℕ → ClientSession
state_after session_id resume ids = record {
  session_id = session_id;
  current_min_frame_id = resume;
  current_last_submitted_frame_id = some (last_of resume ids);
}

tracked_state :
    (session_id resume : ℕ) (ids : List ℕ) → is_tracked (state_after session_id resume ids) ≡ true
tracked_state session_id resume ids = elim (Bool-cases (ltb 0 resume)) [
  | inl e ↦ rw e
  | inr e ↦ rw e
]

valid_above :
    (session_id resume id : ℕ) (ids : List ℕ)
    → Descends resume ids
    → validate_migrated_current_frame_id (state_after session_id resume ids) id ≡ ok tt
    → 0 < resume
    → Descends resume (id ∷ ids)
unfolding validate_migrated_current_frame_id
valid_above session_id resume id ids h valid moved =
    let (_, low, v1) = >>=-eq-ok (require (not (ltb 0 resume && ltb id resume))) _ valid in
    let from = require-eq-ok _ low in
    let above = require-eq-ok (not (leb id (last_of resume ids))) v1 in
    elim ids
        as (λ l.
          Descends resume l → not (leb id (last_of resume l)) ≡ true → Descends resume (id ∷ l)) [
            | [] ↦ λ _ _. ground arith
            | earlier ∷ older ↦ λ d a. (ground arith, d)
          ]
      h above

checked :
    (s : ClientSession) (id : ℕ)
    → is_tracked s ≡ true
    → check_frame_id s id ≡ ok tt
    → validate_migrated_current_frame_id s id ≡ ok tt
unfolding check_frame_id
checked s id tracked h = rw tracked at h

after_tracked :
    (session_id resume id : ℕ) (ids : List ℕ)
    → is_tracked (state_after session_id resume ids) ≡ true
    → after_submit (state_after session_id resume ids) id ≡ state_after session_id resume (id ∷ ids)
after_tracked session_id resume id ids tracked = rw tracked

migrated_state :
    (session_id resume : ℕ)
    → 0 < resume
    → migrated session_id resume ≡ state_after session_id resume []
unfolding migrated
migrated_state session_id resume moved = rw (lt→ltb 0 resume moved)

-- A call that has started has passed the test.
start_valid :
    (s : ClientSession) (request : SubmitRequest) (packet : NnrpPacket)
    → is_tracked s ≡ true
    → start_submit s request ≡ ok packet
    → validate_migrated_current_frame_id s request.frame_id ≡ ok tt
unfolding start_submit
start_valid s request packet tracked h =
    let (_, valid, _) = >>=-eq-ok (check_frame_id s request.frame_id) _ h in
    checked s request.frame_id tracked valid

-- No id is below the one to resume from, and the session keeps that id.
abbrev FromResume : ℕ → List ℕ → Type 0
FromResume resume ids = All (λ id. resume ≤ id) ids

abbrev KeepsResume : ℕ → ClientSession → Type 0
KeepsResume resume s = s.current_min_frame_id ≡ resume

length-Removes : (id : ℕ) (ids left : List ℕ) → Removes id ids left → length ids ≡ 1 + length left
length-Removes id ids left first = omega arith
length-Removes id ids left (later {ids = tail} {left = less} rest) =
    omega (arith, length-Removes id tail less rest)

-- The only call that waits is the one that is over.
removes_only :
    (id : ℕ) (ids left : List ℕ)
    → length ids ≤ 1
    → Removes id ids left
    → (ids ≡ id ∷ []) × (left ≡ [])
removes_only id ids left one (first {ids = others}) =
    let empty = no_length others (omega arith) in (ap (λ l. id ∷ l) empty, empty)
removes_only id ids left one (later {ids = tail} {left = less} rest) =
    absurd (omega (arith, length-Removes id tail less rest))

-- One call at a time: none starts while another waits.
abbrev pub InTurn : List ℕ → Type 0
InTurn waiting = waiting ≡ []

-- What holds of calls in turn: the ids of those that returned, with the one that waits in front.
record IsInTurn (session_id resume : ℕ) (returned waiting : List ℕ) (s : ClientSession)
    : Type 0 where
  at_most_one : length waiting ≤ 1
  descends : Descends resume (waiting ++ returned)
  descends_returned : Descends resume returned
  remembered : s ≡ state_after session_id resume returned

Calls-IsInTurn :
    (session_id resume : ℕ) (handed returned waiting : List ℕ) (s : ClientSession)
    → 0 < resume
    → Calls InTurn (state_after session_id resume []) handed returned waiting s
    → IsInTurn session_id resume returned waiting s
Calls-IsInTurn session_id resume handed returned waiting s moved begin = record {
  at_most_one = omega arith;
  descends = tt;
  descends_returned = tt;
  remembered = refl;
}
Calls-IsInTurn session_id resume handed returned waiting s moved
      (starts {handed = before} {waiting = others} request packet run free e) =
    let was = Calls-IsInTurn session_id resume before returned others s moved run in
    let valid =
      start_valid (state_after session_id resume returned) request packet
        (tracked_state session_id resume returned)
        (subst (λ x. start_submit x request ≡ ok packet) was.remembered e) in
    let above =
      valid_above session_id resume request.frame_id returned was.descends_returned valid moved in
    record {
      at_most_one = omega (arith, ap length free);
      descends = rw free above;
      descends_returned = was.descends_returned;
      remembered = was.remembered;
    }
Calls-IsInTurn session_id resume handed returned waiting s moved (refused request raised run e) =
    Calls-IsInTurn session_id resume handed returned waiting s moved run
Calls-IsInTurn session_id resume handed returned waiting s moved
      (returns {returned = before} {waiting = others} {s = earlier} id run over) =
    let was = Calls-IsInTurn session_id resume handed before others earlier moved run in
    let (only, none_waits) = removes_only id others waiting was.at_most_one over in
    let ordered : Descends resume (id ∷ before) = rw only at was.descends in
    record {
      at_most_one = omega (arith, ap length none_waits);
      descends = rw none_waits ordered;
      descends_returned = ordered;
      remembered =
          ap (λ x. after_submit x id) was.remembered
          ∙ after_tracked session_id resume id before (tracked_state session_id resume before);
    }
Calls-IsInTurn session_id resume handed returned waiting s moved
      (raises {waiting = others} id run over) =
    let was = Calls-IsInTurn session_id resume handed returned others s moved run in
    let (only, none_waits) = removes_only id others waiting was.at_most_one over in
    record {
      at_most_one = omega (arith, ap length none_waits);
      descends = rw none_waits was.descends_returned;
      descends_returned = was.descends_returned;
      remembered = was.remembered;
    }

-- If the calls on a session that has migrated with a frame id to resume from are made one at a time,
-- each once the one before has returned or raised, then, whatever the connection does, the frame ids
-- of those that returned and of the one that waits ascend strictly, and none is below that id.
pub ids_after_migration :
    (session_id resume : ℕ) (handed returned waiting : List ℕ) (s : ClientSession)
    → 0 < resume
    → Calls InTurn (migrated session_id resume) handed returned waiting s
    → Descends resume (waiting ++ returned)
ids_after_migration session_id resume handed returned waiting s moved run =
    (Calls-IsInTurn session_id resume handed returned waiting s moved (
      subst (λ x. Calls InTurn x handed returned waiting s) (migrated_state session_id resume moved)
        run)).descends
