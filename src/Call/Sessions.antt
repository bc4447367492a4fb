-- ===== src/Call/Sessions.antt =====
-- A call and its session of media ports come and go together.
use minghe.Prelude.{
  ◌≡◌, sym, ap, ◌∙◌, subst, Bool, false, Option, none, some, list_eq, list_beq_iff, ◌==◌,
  if◌then◌else◌, Option-cases, Bool-cases, inl, inr, arith,
}
use minghe.Prelude.Dict.{get, get-insert, get-remove}
use minghe.Text.{Text}
use minghe.Relay.{RelaySession, MediaRelayManager, create_session}
use minghe.Relay.Opening.{Opened, create_session-Opened, create_session-keeps}
use minghe.Call.{CallInfo, Router, Env, cleanup_call}
use minghe.Call.Response.{start_media_relay}
use minghe.Call.Steps.{
  Step, counts, ends, exhausts, abandons, places, updates, relays, poisons, Steps, stays, then_step,
}

-- Every call has a session with the two ports that it names.
abbrev pub IsCoupled : Router → Type 0
IsCoupled s =
    (id : Text) (call : CallInfo)
    → get id s.active_calls ≡ some call
    → (session : RelaySession) × (get id s.media_manager.sessions ≡ some session)
      × (session.caller_port ≡ call.caller_relay_port)
      × (session.callee_port ≡ call.callee_relay_port)

-- No session outlives its call.
abbrev pub IsTidy : Router → Type 0
IsTidy s = (id : Text) → get id s.active_calls ≡ none → get id s.media_manager.sessions ≡ none

pub get-cleanup_call :
    (id x : Text) (s : Router)
    → get x (cleanup_call id s).active_calls ≡ (if id == x then none else get x s.active_calls)
unfolding cleanup_call
get-cleanup_call id x s = elim (Option-cases (get id s.active_calls)) [
  | inl absent ↦ ground (arith, list_beq_iff id x)
  | inr (call, present) ↦ ground (arith, get-remove id x s.active_calls)
]

session-cleanup_call :
    (id x : Text) (s : Router)
    → IsTidy s
    → get x (cleanup_call id s).media_manager.sessions
      ≡ (if id == x then none else get x s.media_manager.sessions)
unfolding cleanup_call minghe.Relay.remove_session
session-cleanup_call id x s tidy = elim (Option-cases (get id s.active_calls)) [
  | inl absent ↦ ground (arith, list_beq_iff id x, tidy id absent)
  | inr (call, present) ↦ ground (arith, get-remove id x s.media_manager.sessions)
]

session_of_other :
    (id x : Text) (s : Router)
    → (id == x) ≡ false
    → get x (cleanup_call id s).media_manager.sessions ≡ get x s.media_manager.sessions
unfolding cleanup_call minghe.Relay.remove_session
session_of_other id x s other = elim (Option-cases (get id s.active_calls)) [
  | inl absent ↦ ground arith
  | inr (call, present) ↦ ground (arith, get-remove id x s.media_manager.sessions)
]

relayed :
    (e : Env) (id : Text) (call : CallInfo) (s : Router)
    → get id s.active_calls ≡ some call
    → ((start_media_relay e id s).active_calls ≡ s.active_calls)
      × ((start_media_relay e id s).media_manager.sessions ≡ s.media_manager.sessions)
unfolding start_media_relay minghe.Relay.register_shutdown
relayed e id call s present = (ground arith, ground arith)

opened :
    (id : Text) (m after : MediaRelayManager) (o : Option RelaySession)
    → create_session id m ≡ (o, after)
    → Opened id m (o, after)
opened id m after o e = subst (Opened id m) e (create_session-Opened id m)

Step-IsCoupled : {b : Bool} {s t : Router} → Step b s t → IsCoupled s → IsCoupled t
Step-IsCoupled (counts now ip) h = h
Step-IsCoupled {s = s} (ends id) h = λ x call present. elim (Bool-cases (id == x)) [
  | inl same ↦ absurd (ground (arith, get-cleanup_call id x s))
  | inr other ↦
      rw (session_of_other id x s other) (h x call (ground (arith, get-cleanup_call id x s)))
]
Step-IsCoupled {s = s} (exhausts id media e) h =
    λ x call present. rw (opened id s.media_manager media none e x) (h x call present)
Step-IsCoupled {s = s} (abandons id session media e p) h = λ x call present.
    let (found, there, first, second) = h x call present in
    (
      found,
      create_session-keeps id x s.media_manager media (some session) found e there,
      first,
      second,
    )
Step-IsCoupled {s = s} (places id session media new e n) h = λ x call present.
    elim (Bool-cases (id == x)) [
      | inl same ↦ (
        session,
        ground (arith, opened id s.media_manager media (some session) e x),
        ground (arith, get-insert id x new s.active_calls, n.caller_port),
        ground (arith, get-insert id x new s.active_calls, n.callee_port),
      )
      | inr other ↦
          let (found, there, first, second) =
            h x call (ground (arith, get-insert id x new s.active_calls)) in
          (
            found,
            create_session-keeps id x s.media_manager media (some session) found e there,
            first,
            second,
          )
    ]
Step-IsCoupled {s = s} (updates id old new here ev) h = λ x call present.
    elim (Bool-cases (id == x)) [
      | inl same ↦
          let (found, there, first, second) = h x old (ground (arith, list_beq_iff id x)) in
          (
            found,
            there,
            ground (arith, get-insert id x new s.active_calls, ev.caller_port),
            ground (arith, get-insert id x new s.active_calls, ev.callee_port),
          )
      | inr other ↦ h x call (ground (arith, get-insert id x new s.active_calls))
    ]
Step-IsCoupled {s = s} (relays e id call here key) h = λ x other present.
    let (calls, sessions) = relayed e id call s here in
    rw sessions (h x other (ap (get x) (sym calls) ∙ present))
Step-IsCoupled (poisons p) h = h

Step-IsTidy : {s t : Router} → Step false s t → IsTidy s → IsTidy t
Step-IsTidy (counts now ip) h = h
Step-IsTidy {s = s} (ends id) h =
    λ x absent. ground (arith, session-cleanup_call id x s h, get-cleanup_call id x s, h x)
Step-IsTidy {s = s} (exhausts id media e) h =
    λ x absent. opened id s.media_manager media none e x ∙ h x absent
Step-IsTidy (abandons id session media e p) h = absurd (ground arith)
Step-IsTidy {s = s} (places id session media new e n) h = λ x absent. ground (
  arith,
  opened id s.media_manager media (some session) e x,
  get-insert id x new s.active_calls,
  h x,
)
Step-IsTidy {s = s} (updates id old new here ev) h =
    λ x absent. h x (ground (arith, get-insert id x new s.active_calls))
Step-IsTidy {s = s} (relays e id call here key) h = λ x absent.
    let (calls, sessions) = relayed e id call s here in
    rw sessions (h x (ap (get x) (sym calls) ∙ absent))
Step-IsTidy (poisons p) h = absurd (ground arith)

pub Steps-IsCoupled : {b : Bool} {s t : Router} → Steps b s t → IsCoupled s → IsCoupled t
Steps-IsCoupled stays h = h
Steps-IsCoupled (then_step before step) h = Step-IsCoupled step (Steps-IsCoupled before h)

pub Steps-IsTidy : {s t : Router} → Steps false s t → IsTidy s → IsTidy t
Steps-IsTidy stays h = h
Steps-IsTidy (then_step before step) h = Step-IsTidy step (Steps-IsTidy before h)
