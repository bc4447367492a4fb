-- ===== src/Relay/Opening.antt =====
-- What opening a session does to the table of sessions, whatever the range of ports.
use minghe.Prelude.{
  ℕ, zero, suc, ◌+◌, ◌%◌, ◌^◌, ◌≡◌, refl, ap, subst, sym, ◌∙◌, Option, none, some, arith,
  if◌then◌else◌, if-both, ◌==◌, list_eq, list_beq_iff, Option-cases, inl, inr,
}
use minghe.Prelude.Dict.{Dict, get, get-insert}
use minghe.Text.{Text}
use minghe.Relay.Sessions.{create_session-absent, create_session-again}
use minghe.Relay.{
  MediaRelayManager, RelaySession, Allocated, no_fuel, exhausted, port_pair, set_next,
  allocate_loop, allocate_port_pair, enough, first_port, second_port, new_session, create_session,
}

-- An allocation touches the cursor only.
abbrev Untouched : MediaRelayManager → Allocated → Type 0
Untouched s no_fuel = Unit
Untouched s (exhausted t) = t.sessions ≡ s.sessions
Untouched s (port_pair p t) = t.sessions ≡ s.sessions

allocate_loop-Untouched :
    (fuel attempts : ℕ) (s : MediaRelayManager) → Untouched s (allocate_loop fuel attempts s)
unfolding allocate_loop
allocate_loop-Untouched zero attempts s = tt
allocate_loop-Untouched (suc fuel) attempts s = ground (
  arith,
  allocate_loop-Untouched fuel (attempts + 1) (set_next s.port_start s),
  allocate_loop-Untouched fuel attempts (set_next ((s.next_port + 2) % 2 ^ 16) s),
)

allocate-Untouched : (s : MediaRelayManager) → Untouched s (allocate_port_pair s)
unfolding allocate_port_pair
allocate-Untouched s = allocate_loop-Untouched enough 0 s

-- The call has a session afterwards if one is returned, and the other sessions stay.
abbrev pub Opened : Text → MediaRelayManager → Option RelaySession × MediaRelayManager → Type 0
Opened id m (none, after) = (x : Text) → get x after.sessions ≡ get x m.sessions
Opened id m (some session, after) =
    (x : Text) → get x after.sessions ≡ (if id == x then some session else get x m.sessions)

second_port-Opened :
    (id : Text) (port : ℕ) (m before : MediaRelayManager) (r : Allocated)
    → before.sessions ≡ m.sessions
    → Untouched before r
    → Opened id m (second_port id port r (none, m))
second_port-Opened id port m before no_fuel e h = λ x. refl
second_port-Opened id port m before (exhausted s) e h = λ x. ap (get x) (h ∙ e)
second_port-Opened id port m before (port_pair callee s) e h = λ x.
    get-insert id x (new_session id port callee) s.sessions
    ∙ ap
        (λ (d : Dict Text RelaySession).
          if id == x then some (new_session id port callee) else get x d)
        (h ∙ e)

first_port-Opened :
    (id : Text) (m : MediaRelayManager) (r : Allocated)
    → Untouched m r
    → Opened id m (first_port id r (none, m))
first_port-Opened id m no_fuel h = λ x. refl
first_port-Opened id m (exhausted s) h = λ x. ap (get x) h
first_port-Opened id m (port_pair caller s) h =
    second_port-Opened id caller m s (allocate_port_pair s) h (allocate-Untouched s)

existing-Opened :
    (id : Text) (m : MediaRelayManager) (session : RelaySession)
    → get id m.sessions ≡ some session
    → Opened id m (some session, m)
existing-Opened id m session h x =
    if-both (λ (o : Option RelaySession). get x m.sessions ≡ o) (id == x) (some session)
      (get x m.sessions)
      (λ same. ap (λ (i : Text). get i m.sessions) (sym ((list_beq_iff id x).0 same)) ∙ h)
      (λ other. refl)

pub create_session-Opened : (id : Text) (m : MediaRelayManager) → Opened id m (create_session id m)
unfolding minghe.Relay.get_session
create_session-Opened id m = elim (Option-cases (get id m.sessions)) [
  | inl absent ↦
      subst (Opened id m) (sym (create_session-absent id m absent))
        (first_port-Opened id m (allocate_port_pair m) (allocate-Untouched m))
  | inr (session, present) ↦
      subst (Opened id m) (sym (create_session-again id session m present))
        (existing-Opened id m session present)
]

-- A session that is there stays as it is.
pub create_session-keeps :
    (id x : Text) (m after : MediaRelayManager) (o : Option RelaySession) (present : RelaySession)
    → create_session id m ≡ (o, after)
    → get x m.sessions ≡ some present
    → get x after.sessions ≡ some present
unfolding minghe.Relay.get_session
create_session-keeps id x m after o present e h = elim (Option-cases (get id m.sessions)) [
  | inl absent ↦ other o (subst (Opened id m) e (create_session-Opened id m)) absent
  | inr (session, has) ↦
      ap (λ (r : Option RelaySession × MediaRelayManager). get x r.1.sessions)
        (sym e ∙ create_session-again id session m has)
      ∙ h
]
  where
    other :
        (o : Option RelaySession)
        → Opened id m (o, after)
        → get id m.sessions ≡ none
        → get x after.sessions ≡ some present
    other none opened absent = opened x ∙ h
    other (some session) opened absent = ground (arith, opened x, list_beq_iff id x)
