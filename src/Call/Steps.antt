-- ===== src/Call/Steps.antt =====
-- The changes of the router that its handlers are made of, as a relation. A handler changes neither
-- the registrations nor the connections; of the registrar it only counts the failures of an IP.
use minghe.Prelude.{ℕ, ◌≡◌, Bool, true, false, none, some, list_eq, ◌⊎◌}
use minghe.Prelude.Dict.{get, insert}
use minghe.Text.{Text}
use minghe.Registrar.Blocking.{record_failure}
use minghe.Relay.{MediaRelayManager, RelaySession, create_session}
use minghe.Srtp.Suite.{aes_cm_128_hmac_sha1_80, aead_aes_128_gcm}
use minghe.Srtp.Packet.{SrtpCryptoSuite}
use minghe.Call.{CallInfo, trying, established, Router, Env, set_calls, cleanup_call}
use minghe.Call.Response.{has_key, start_media_relay}

-- The keys for the two sides: those towards the caller have the suite of its offer, and there is
-- one pair of each suite for the callee.
pub record IsOffered (call : CallInfo) : Type 0 where
  pub caller_keys :
      (remote own : SrtpCryptoSuite) × (call.caller_remote_crypto ≡ some remote)
      × (call.caller_local_crypto ≡ some own)
      × (own.suite ≡ remote.suite)
  pub callee_keys :
      (aes gcm : SrtpCryptoSuite) × (call.callee_local_crypto ≡ some aes)
      × (call.callee_local_crypto_gcm ≡ some gcm)
      × (aes.suite ≡ aes_cm_128_hmac_sha1_80)
      × (gcm.suite ≡ aead_aes_128_gcm)

-- A call as an INVITE enters it, on the ports of its session.
pub record IsNew (session : RelaySession) (call : CallInfo) : Type 0 where
  pub state : call.state ≡ trying
  pub offered : IsOffered call
  pub unanswered : call.callee_remote_crypto ≡ none
  pub stopped : call.relay_started ≡ false
  pub caller_port : session.caller_port ≡ call.caller_relay_port
  pub callee_port : session.callee_port ≡ call.callee_relay_port

-- What an update may do to a call.
pub record Evolves (old new : CallInfo) : Type 0 where
  pub caller_port : new.caller_relay_port ≡ old.caller_relay_port
  pub callee_port : new.callee_relay_port ≡ old.callee_relay_port
  pub caller_remote : new.caller_remote_crypto ≡ old.caller_remote_crypto
  pub caller_local : new.caller_local_crypto ≡ old.caller_local_crypto
  pub callee_local : new.callee_local_crypto ≡ old.callee_local_crypto
  pub callee_local_gcm : new.callee_local_crypto_gcm ≡ old.callee_local_crypto_gcm
  pub answered : has_key old.callee_remote_crypto ≡ true → has_key new.callee_remote_crypto ≡ true
  pub started :
      new.relay_started ≡ true
      → (old.relay_started ≡ true) ⊎ (has_key new.callee_remote_crypto ≡ true)
  pub confirmed :
      new.state ≡ established
      → (old.state ≡ established) ⊎ (has_key new.callee_remote_crypto ≡ true)

-- `panicked` says that the handler ends in a panic, the only case where a session is abandoned.
pub data Step (panicked : Bool) (s : Router) : Router → Type 0 where
  counts :
      (now : ℕ) (ip : Text)
      → Step panicked s (record s { registrar = (record_failure now ip s.registrar).0 })
  ends : (id : Text) → Step panicked s (cleanup_call id s)
  exhausts :
      (id : Text) (media : MediaRelayManager)
      → create_session id s.media_manager ≡ (none, media)
      → Step panicked s (record s { media_manager = media })
  abandons :
      (id : Text) (session : RelaySession) (media : MediaRelayManager)
      → create_session id s.media_manager ≡ (some session, media)
      → panicked ≡ true
      → Step panicked s (record s { media_manager = media })
  places :
      (id : Text) (session : RelaySession) (media : MediaRelayManager) (call : CallInfo)
      → create_session id s.media_manager ≡ (some session, media)
      → IsNew session call
      → Step panicked s
          (record s { active_calls = insert id call s.active_calls; media_manager = media })
  updates :
      (id : Text) (old new : CallInfo)
      → get id s.active_calls ≡ some old
      → Evolves old new
      → Step panicked s (set_calls (insert id new s.active_calls) s)
  relays :
      (e : Env) (id : Text) (call : CallInfo)
      → get id s.active_calls ≡ some call
      → has_key call.callee_remote_crypto ≡ true
      → Step panicked s (start_media_relay e id s)
  poisons : panicked ≡ true → Step panicked s (record s { poisoned = true })

-- One step after another; the last one stands outside.
pub data Steps (panicked : Bool) (s : Router) : Router → Type 0 where
  stays : Steps panicked s s
  then_step : {t u : Router} → Steps panicked s t → Step panicked t u → Steps panicked s u
