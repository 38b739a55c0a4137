-- ===== src/Lifecycle/Sessions.antt =====
-- lifecycle.py: the sessions of a connection snapshot.
use mathlib.Core.List.{Perm}
use mathlib.Core.List.Perm
use nnrp_py.Common.{
  ℕ, ◌≤◌, ◌<◌, ◌≡◌, inl, inr, refl, List, [], ◌∷◌, true, false, not, ◌&&◌, ◌==◌, ==_iff, leb,
  leb→le, le→leb, Bool-cases, length, All, ok, >>=-eq-ok, require, require-eq-ok, from_ok, arith,
}
use nnrp_py.Lifecycle.{
  ConnectionLifecycleState, closed_state, SessionLifecycleSnapshot, ConnectionLifecycleSnapshot,
  place_session, sort_sessions, holds_id, distinct, is_session_closed, is_connection_closed,
  any_not_closed, ids_of, connection_snapshot,
}

place_session-perm :
    (s : SessionLifecycleSnapshot) (ts : List SessionLifecycleSnapshot)
    → Perm (place_session s ts) (s ∷ ts)
unfolding place_session
place_session-perm s [] = Perm.rfl
place_session-perm s (t ∷ ts) = elim (Bool-cases (leb s.session_id t.session_id)) [
  | inl e ↦ rw e Perm.rfl
  | inr e ↦ rw e (Perm.trans (Perm.cons t (place_session-perm s ts)) (Perm.swap s t ts))
]

sort_sessions-perm : (ss : List SessionLifecycleSnapshot) → Perm (sort_sessions ss) ss
unfolding sort_sessions
sort_sessions-perm [] = Perm.rfl
sort_sessions-perm (s ∷ ss) =
    Perm.trans (place_session-perm s (sort_sessions ss)) (Perm.cons s (sort_sessions-perm ss))

-- Ascending, and strictly ascending, in the session ids.
abbrev pub Above : ℕ → List SessionLifecycleSnapshot → Type 0
Above i ss = All (λ (t : SessionLifecycleSnapshot). i ≤ t.session_id) ss

abbrev pub Ascending : List SessionLifecycleSnapshot → Type 0
Ascending [] = Unit
Ascending (s ∷ ss) = Above s.session_id ss × Ascending ss

abbrev pub StrictlyAscending : List SessionLifecycleSnapshot → Type 0
StrictlyAscending [] = Unit
StrictlyAscending (s ∷ ss) =
    All (λ (t : SessionLifecycleSnapshot). s.session_id < t.session_id) ss × StrictlyAscending ss

Above-le : (i j : ℕ) (ss : List SessionLifecycleSnapshot) → i ≤ j → Above j ss → Above i ss
Above-le i j [] le h = tt
Above-le i j (s ∷ ss) le h = (omega (arith, h.0), Above-le i j ss le h.1)

place_session-Above :
    (i : ℕ) (s : SessionLifecycleSnapshot) (ss : List SessionLifecycleSnapshot)
    → i ≤ s.session_id
    → Above i ss
    → Above i (place_session s ss)
unfolding place_session
place_session-Above i s [] le h = (le, tt)
place_session-Above i s (t ∷ ts) le h = elim (Bool-cases (leb s.session_id t.session_id)) [
  | inl e ↦ rw e (le, h)
  | inr e ↦ rw e (h.0, place_session-Above i s ts le h.1)
]

place_session-Ascending :
    (s : SessionLifecycleSnapshot) (ss : List SessionLifecycleSnapshot)
    → Ascending ss
    → Ascending (place_session s ss)
unfolding place_session
place_session-Ascending s [] h = (tt, tt)
place_session-Ascending s (t ∷ ts) h = elim (Bool-cases (leb s.session_id t.session_id)) [
  | inl e ↦ rw e ((leb→le _ _ e, Above-le s.session_id t.session_id ts (leb→le _ _ e) h.0), h)
  | inr e ↦
      rw e
        (place_session-Above t.session_id s ts (ground arith) h.0, place_session-Ascending s ts h.1)
]

sort_sessions-Ascending : (ss : List SessionLifecycleSnapshot) → Ascending (sort_sessions ss)
unfolding sort_sessions
sort_sessions-Ascending [] = tt
sort_sessions-Ascending (s ∷ ss) =
    place_session-Ascending s (sort_sessions ss) (sort_sessions-Ascending ss)

distinct_le : (ids : List ℕ) → length (distinct ids) ≤ length ids
distinct_le [] = omega arith
distinct_le (i ∷ ids) = ground (arith, distinct_le ids)

length-ids_of : (ss : List SessionLifecycleSnapshot) → length (ids_of ss) ≡ length ss
length-ids_of [] = refl
length-ids_of (s ∷ ss) = omega (arith, length-ids_of ss)

Above-strict :
    (i : ℕ) (ss : List SessionLifecycleSnapshot)
    → holds_id i (ids_of ss) ≡ false
    → Above i ss
    → All (λ (t : SessionLifecycleSnapshot). i < t.session_id) ss
Above-strict i [] h above = tt
Above-strict i (s ∷ ss) h above =
    (ground (arith, above.0), Above-strict i ss (ground (arith)) above.1)

-- Ascending ids of which the set is as long as the list ascend strictly.
StrictlyAscending-of_distinct :
    (ss : List SessionLifecycleSnapshot)
    → Ascending ss
    → length (distinct (ids_of ss)) ≡ length ss
    → StrictlyAscending ss
StrictlyAscending-of_distinct [] asc h = tt
StrictlyAscending-of_distinct (s ∷ ss) asc h =
    let le = distinct_le (ids_of ss) in
    let size = length-ids_of ss in
    elim (Bool-cases (holds_id s.session_id (ids_of ss))) [
      | inl e ↦ absurd (omega (arith, rw e at h))
      | inr e ↦ (
        Above-strict s.session_id ss e asc.0,
        StrictlyAscending-of_distinct ss asc.1 (omega (arith, rw e at h)),
      )
    ]

any_not_closed-false :
    (ss : List SessionLifecycleSnapshot)
    → any_not_closed ss ≡ false
    → All (λ (s : SessionLifecycleSnapshot). is_session_closed s.state ≡ true) ss
any_not_closed-false [] h = tt
any_not_closed-false (s ∷ ss) h = elim (Bool-cases (is_session_closed s.state)) [
  | inl e ↦ (e, any_not_closed-false ss (rw e at h))
  | inr e ↦ cc (rw e at h)
]

-- A connection snapshot that is made keeps the state it is given and every session, ascending
-- strictly in the session ids; the sessions of a closed one are all closed.
pub connection_snapshot_made :
    (state : ConnectionLifecycleState) (sessions : List SessionLifecycleSnapshot)
    (c : ConnectionLifecycleSnapshot)
    → connection_snapshot state sessions ≡ ok c
    → (c.state ≡ state)
      × Perm c.sessions sessions
      × StrictlyAscending c.sessions
      × (state ≡ closed_state
          → All (λ (s : SessionLifecycleSnapshot). is_session_closed s.state ≡ true) c.sessions)
unfolding connection_snapshot
connection_snapshot_made state sessions c h =
    let (_, apart, h1) =
      >>=-eq-ok
        (require
          (length (distinct (ids_of (sort_sessions sessions))) == length (sort_sessions sessions)))
        _ h in
    let (_, rule, h2) =
      >>=-eq-ok
        (require (not (is_connection_closed state && any_not_closed (sort_sessions sessions)))) _
        h1 in
    let made = from_ok _ c h2 in
    let strict =
      StrictlyAscending-of_distinct (sort_sessions sessions) (sort_sessions-Ascending sessions)
        ((==_iff _ _).0 (require-eq-ok _ apart)) in
    rw (← made) (
      refl,
      sort_sessions-perm sessions,
      strict,
      λ is.
          any_not_closed-false (sort_sessions sessions) (ground (arith, is, require-eq-ok _ rule)),
    )

place_session_front :
    (s : SessionLifecycleSnapshot) (ts : List SessionLifecycleSnapshot)
    → Above s.session_id ts
    → place_session s ts ≡ s ∷ ts
unfolding place_session
place_session_front s [] h = refl
place_session_front s (t ∷ ts) h = rw (le→leb s.session_id t.session_id h.0)

sort_sessions_same : (ss : List SessionLifecycleSnapshot) → Ascending ss → sort_sessions ss ≡ ss
unfolding sort_sessions
sort_sessions_same [] h = refl
sort_sessions_same (s ∷ ss) h = rw (sort_sessions_same ss h.1) (place_session_front s ss h.0)

-- A connection snapshot made again from its own state and sessions is the same snapshot.
pub connection_snapshot_again :
    (state : ConnectionLifecycleState) (sessions : List SessionLifecycleSnapshot)
    (c : ConnectionLifecycleSnapshot)
    → connection_snapshot state sessions ≡ ok c
    → connection_snapshot c.state c.sessions ≡ ok c
unfolding connection_snapshot
connection_snapshot_again state sessions c h =
    let ordered = sort_sessions sessions in
    let (_, apart, h1) =
      >>=-eq-ok (require (length (distinct (ids_of ordered)) == length ordered)) _ h in
    let (_, rule, h2) =
      >>=-eq-ok (require (not (is_connection_closed state && any_not_closed ordered))) _ h1 in
    rw
      (← from_ok _ c h2, sort_sessions_same ordered (sort_sessions-Ascending sessions), apart, rule)
