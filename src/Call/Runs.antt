-- ===== src/Call/Runs.antt =====
-- Runs of the router: requests of all kinds, responses, and what other parts of the server do to
-- the registrations and the connections, in any order.
use minghe.Prelude.{◌≡◌, refl, subst, Bool, false, List, [], ◌∷◌, Option, list_eq, arith}
use minghe.Prelude.Dict.{get}
use minghe.Text.{Text}
use minghe.Registrar.State.{RegistrarService}
use minghe.Relay.{MediaRelayManager}
use minghe.Transport.{ConnectionSink, Outlets}
use minghe.Call.{Router, Env, Handled, register_writer, unregister_writer}
use minghe.Call.Invite.{handle_invite}
use minghe.Call.Response.{handle_callee_response}
use minghe.Call.Dialog.{handle_ack, handle_bye, handle_cancel}
use minghe.Call.Steps.{Steps}
use minghe.Call.Handlers.{
  is_panic, handle_invite-Reached, handle_ack-Reached, handle_bye-Reached, handle_cancel-Reached,
}
use minghe.Call.Answers.{handle_callee_response-Reached}
use minghe.Call.Sessions.{IsCoupled, IsTidy, Steps-IsCoupled, Steps-IsTidy}
use minghe.Call.Keys.{IsSecure, Steps-IsSecure}

pub data Event : Type 0 where
  invite :
      (request : Text) (sink : ConnectionSink) (from_addr : Text) (connection_ext : Option Text)
      → Event
  response : (text : Text) → Event
  ack : (request : Text) → Event
  bye : (request from_extension : Text) → Event
  cancel : (request : Text) → Event
  writer : (extension : Text) (sink : ConnectionSink) → Event
  no_writer : (extension : Text) → Event
  registrations : (registrar : RegistrarService) → Event

-- `Router::new`
unfoldable pub new : RegistrarService → MediaRelayManager → Text → Text → Bool → Router
new registrar media_manager domain media_addr udp_socket = record {
  active_calls = [];
  poisoned = false;
  registrar = registrar;
  media_manager = media_manager;
  domain = domain;
  media_addr = media_addr;
  outlets = record { connection_writers = []; udp_socket = udp_socket };
  tasks = [];
}

abbrev outcome {ℓ} : {A : Type ℓ} → Handled A → Router × Bool
outcome (s, sent, answer) = (s, is_panic answer)

-- The router after an event, and whether its handler has panicked.
abbrev pub handle : Env → Event → Router → Router × Bool
handle e (invite request sink from_addr connection_ext) s =
    outcome (handle_invite e request sink from_addr connection_ext s)
handle e (response text) s = outcome (handle_callee_response e text s)
handle e (ack request) s = outcome (handle_ack e request s)
handle e (bye request from_extension) s = outcome (handle_bye e request from_extension s)
handle e (cancel request) s = outcome (handle_cancel e request s)
handle e (writer extension sink) s = (register_writer extension sink s, false)
handle e (no_writer extension) s = (unregister_writer extension s, false)
handle e (registrations registrar) s = (record s { registrar = registrar }, false)

-- The events that a handler of the router answers. The others stand for what other parts of the
-- server do to the connections and the registrations.
abbrev pub IsHandled : Event → Type 0
IsHandled (invite request sink from_addr connection_ext) = Unit
IsHandled (response text) = Unit
IsHandled (ack request) = Unit
IsHandled (bye request from_extension) = Unit
IsHandled (cancel request) = Unit
IsHandled (writer extension sink) = ⊥
IsHandled (no_writer extension) = ⊥
IsHandled (registrations registrar) = ⊥

-- Every handler, of an INVITE, a response, an ACK, a BYE or a CANCEL, whatever its input, is a
-- sequence of the steps of the abstract relation: counting a failure of an IP, a try to open a
-- session that finds no ports, opening a session with its call, an update that keeps the ports and
-- the keys of the offer, a relay for an answered call, a clean-up; and, only when it panics,
-- abandoning a session or poisoning the lock.
pub handle-Steps :
    (e : Env) (event : Event) (s : Router)
    → IsHandled event
    → Steps (handle e event s).1 s (handle e event s).0
handle-Steps e (invite request sink from_addr connection_ext) s h =
    handle_invite-Reached e request sink from_addr connection_ext s
handle-Steps e (response text) s h = handle_callee_response-Reached e text s
handle-Steps e (ack request) s h = handle_ack-Reached e request s
handle-Steps e (bye request from_extension) s h = handle_bye-Reached e request from_extension s
handle-Steps e (cancel request) s h = handle_cancel-Reached e request s
handle-Steps e (writer extension sink) s h = absurd h
handle-Steps e (no_writer extension) s h = absurd h
handle-Steps e (registrations registrar) s h = absurd h

module _ (P : Router → Type 0) (Q : Bool → Type 0)
    (kept : (b : Bool) (s t : Router) → Q b → Steps b s t → P s → P t)
    (connected : (outlets : Outlets) (s : Router) → P s → P (record s { outlets = outlets }))
    (registered : (registrar : RegistrarService) (s : Router)
      → P s
      → P (record s { registrar = registrar })) where
  -- What the steps and the other parts of the server preserve, each event preserves.
  handle-keeps :
      (e : Env) (event : Event) (s : Router) → Q (handle e event s).1 → P s → P (handle e event s).0
  unfolding register_writer unregister_writer
  handle-keeps e (invite request sink from_addr connection_ext) s q =
      kept _ s _ q (handle_invite-Reached e request sink from_addr connection_ext s)
  handle-keeps e (response text) s q = kept _ s _ q (handle_callee_response-Reached e text s)
  handle-keeps e (ack request) s q = kept _ s _ q (handle_ack-Reached e request s)
  handle-keeps e (bye request from_extension) s q =
      kept _ s _ q (handle_bye-Reached e request from_extension s)
  handle-keeps e (cancel request) s q = kept _ s _ q (handle_cancel-Reached e request s)
  handle-keeps e (writer extension sink) s q =
      connected (register_writer extension sink s).outlets s
  handle-keeps e (no_writer extension) s q = connected (unregister_writer extension s).outlets s
  handle-keeps e (registrations registrar) s q = registered registrar s

-- The router after all events, each with what its environment gives.
unfoldable pub run : List (Env × Event) → Router → Router
run [] s = s
run ((e, event) ∷ events) s = run events (handle e event s).0

-- No handler panics on the way.
abbrev pub NoPanic : List (Env × Event) → Router → Type 0
NoPanic [] s = Unit
NoPanic ((e, event) ∷ events) s =
    ((handle e event s).1 ≡ false) × NoPanic events (handle e event s).0

run-keeps_IsSecure :
    (events : List (Env × Event)) (s : Router) → IsSecure s → IsSecure (run events s)
unfolding run
run-keeps_IsSecure [] s h = h
run-keeps_IsSecure ((e, event) ∷ events) s h = run-keeps_IsSecure events (handle e event s).0 (
    handle-keeps IsSecure (λ b. Unit) (λ b s t q steps k. Steps-IsSecure steps k)
      (λ outlets s k. record { calls = k.calls; tasks = k.tasks })
      (λ registrar s k. record { calls = k.calls; tasks = k.tasks }) e event s tt h)

run-keeps_IsCoupled :
    (events : List (Env × Event)) (s : Router) → IsCoupled s → IsCoupled (run events s)
unfolding run
run-keeps_IsCoupled [] s h = h
run-keeps_IsCoupled ((e, event) ∷ events) s h = run-keeps_IsCoupled events (handle e event s).0 (
    handle-keeps IsCoupled (λ b. Unit) (λ b s t q steps k. Steps-IsCoupled steps k)
      (λ outlets s k. k) (λ registrar s k. k) e event s tt h)

run-keeps_IsTidy :
    (events : List (Env × Event)) (s : Router) → NoPanic events s → IsTidy s → IsTidy (run events s)
unfolding run
run-keeps_IsTidy [] s n h = h
run-keeps_IsTidy ((e, event) ∷ events) s n h = run-keeps_IsTidy events (handle e event s).0 n.1 (
    handle-keeps IsTidy (λ b. b ≡ false)
      (λ b s t q steps k. Steps-IsTidy (subst (λ (x : Bool). Steps x s t) q steps) k)
      (λ outlets s k. k) (λ registrar s k. k) e event s n.0 h)

-- After any events that reach a new router, in any order, a call that is established or relayed has
-- the callee's key, and every relay that was started has a key in both directions for both sides, of
-- one suite for each side.
pub run-IsSecure :
    (events : List (Env × Event)) (registrar : RegistrarService) (media : MediaRelayManager)
    (domain media_addr : Text) (udp : Bool)
    → IsSecure (run events (new registrar media domain media_addr udp))
unfolding new get
run-IsSecure events registrar media domain media_addr udp =
    run-keeps_IsSecure events (new registrar media domain media_addr udp)
      (record { calls = λ id call h. absurd (ground arith); tasks = tt })

-- After any events that reach a new router, every call has a session, with the ports of the call.
pub run-IsCoupled :
    (events : List (Env × Event)) (registrar : RegistrarService) (media : MediaRelayManager)
    (domain media_addr : Text) (udp : Bool)
    → IsCoupled (run events (new registrar media domain media_addr udp))
unfolding new get
run-IsCoupled events registrar media domain media_addr udp =
    run-keeps_IsCoupled events (new registrar media domain media_addr udp)
      (λ id call h. absurd (ground arith))

-- After events of which none makes a handler panic, on a new router whose pool has no session, every
-- session belongs to a call.
pub run-IsTidy :
    (events : List (Env × Event)) (registrar : RegistrarService) (media : MediaRelayManager)
    (domain media_addr : Text) (udp : Bool)
    → media.sessions ≡ []
    → NoPanic events (new registrar media domain media_addr udp)
    → IsTidy (run events (new registrar media domain media_addr udp))
unfolding new get
run-IsTidy events registrar media domain media_addr udp empty n =
    run-keeps_IsTidy events (new registrar media domain media_addr udp) n (λ id h. rw empty refl)
