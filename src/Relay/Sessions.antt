-- ===== src/Relay/Sessions.antt =====
-- What the table of sessions holds after each operation.
use minghe.Prelude.{
  ℕ, ◌+◌, ◌≡◌, ◌≢◌, ap, sym, subst, ◌∙◌, none, some, arith, if◌then◌else◌, ◌==◌, list_eq,
  list_beq_iff,
}
use minghe.Prelude.Dict.{get, insert, get-insert, get-remove}
use minghe.Text.{Text}
use minghe.Relay.{
  MediaRelayManager, RelaySession, set_next, allocate_port_pair, first_port, second_port,
  new_session, create_session, get_session, register_shutdown, remove_session,
}
use minghe.Relay.Ports.{IsRange, upcoming, allocate_port_pair-IsRange}

upcoming-differs :
    (s : MediaRelayManager) → IsRange s → upcoming s ≢ upcoming (set_next (upcoming s + 2) s)
upcoming-differs s h = let two = h.two in ground arith

added : Text → RelaySession → ℕ → MediaRelayManager → MediaRelayManager
added id session next s = record s { next_port = next; sessions = insert id session s.sessions }

pub create_session-absent :
    (id : Text) (s : MediaRelayManager)
    → get id s.sessions ≡ none
    → create_session id s ≡ first_port id (allocate_port_pair s) (none, s)
unfolding create_session
create_session-absent id s absent = ground arith

create_session-added :
    (id : Text) (s : MediaRelayManager)
    → IsRange s
    → get id s.sessions ≡ none
    → let caller = upcoming s in
      let callee = upcoming (set_next (caller + 2) s) in
      let session = new_session id caller callee in
      create_session id s ≡ (some session, added id session (callee + 2) s)
unfolding added
create_session-added id s h absent =
    let (first, low, high, even, range) = allocate_port_pair-IsRange s h in
    let (second, low2, high2, even2, range2) =
      allocate_port_pair-IsRange (set_next (upcoming s + 2) s) range in
    create_session-absent id s absent
    ∙ ap (λ r. first_port id r (none, s)) first
    ∙ ap (λ r. second_port id (upcoming s) r (none, s)) second

-- In a range that starts at an even port, has two even ports at least and ends below 65535, a call
-- that is new gets two different even ports of the range, in a session that is found by its
-- identifier from then on, beside all sessions of before.
pub create_session-new :
    (id x : Text) (s : MediaRelayManager)
    → IsRange s
    → get_session id s ≡ none
    → let caller = upcoming s in
      let callee = upcoming (set_next (caller + 2) s) in
      ((create_session id s).0 ≡ some (new_session id caller callee))
      × (get_session x (create_session id s).1
          ≡ (if id == x then (create_session id s).0 else get_session x s))
      × (caller ≢ callee)
      × IsRange (create_session id s).1
unfolding get_session added
create_session-new id x s h absent =
    let (first, low, high, even, range) = allocate_port_pair-IsRange s h in
    let (second, low2, high2, even2, range2) =
      allocate_port_pair-IsRange (set_next (upcoming s + 2) s) range in
    let e = create_session-added id s h absent in
    let session = new_session id (upcoming s) (upcoming (set_next (upcoming s + 2) s)) in
    (
      ap (λ r. r.0) e,
      ap (λ r. get x r.1.sessions) e
          ∙ get-insert id x session s.sessions
          ∙ ap (λ o. if id == x then o else get x s.sessions) (sym (ap (λ r. r.0) e)),
      upcoming-differs s h,
      subst (λ r. IsRange r.1) (sym e)
          (record {
            start_even = range2.start_even;
            next_even = range2.next_even;
            two = range2.two;
            below = range2.below;
            from_start = range2.from_start;
            to_end = range2.to_end;
          }),
    )

-- A call that has a session keeps it, and no port is taken.
pub create_session-again :
    (id : Text) (existing : RelaySession) (s : MediaRelayManager)
    → get_session id s ≡ some existing
    → create_session id s ≡ (some existing, s)
unfolding create_session get_session
create_session-again id existing s h = ground arith

-- A removal gives the session and the stop channel that was registered for it, forgets both, so
-- that a second removal stops nothing, and leaves every other session.
pub remove_session-stops :
    (id x : Text) (tx : ℕ) (s : MediaRelayManager)
    → let (session, stopped, after) = remove_session id (register_shutdown id tx s) in
      (session ≡ get_session id s)
      × (stopped ≡ some tx)
      × (get_session x after ≡ (if id == x then none else get_session x s))
      × ((remove_session id after).0 ≡ none)
      × ((remove_session id after).1 ≡ none)
unfolding remove_session register_shutdown get_session
remove_session-stops id x tx s = ground (
  arith,
  get-insert id id tx s.shutdown_senders,
  get-remove id x s.sessions,
  get-remove id id s.sessions,
  get-remove id id (insert id tx s.shutdown_senders),
  list_beq_iff id id,
)
