-- ===== src/Call/Keys.antt =====
-- The keys of the calls and of the relays that run.
use minghe.Prelude.{
  ◌≡◌, ◌≢◌, refl, sym, ap, ◌∙◌, subst, Bool, true, Option, some, list_eq, ◌==◌, All, ◌∷◌,
  Option-cases, Bool-cases, inl, inr, arith,
}
use minghe.Prelude.Dict.{get, get-insert}
use minghe.Text.{Text}
use minghe.Relay.{RelaySession}
use minghe.Srtp.Suite.{SrtpSuite, aes_cm_128_hmac_sha1_80, aead_aes_128_gcm}
use minghe.Srtp.Packet.{SrtpCryptoSuite}
use minghe.Call.{CallInfo, trying, established, RelayTask, Router, Env, cleanup_call}
use minghe.Call.Response.{has_key, relay_task, start_media_relay, encrypt_for_callee}
use minghe.Call.Steps.{
  IsOffered, IsNew, Evolves, Step, counts, ends, exhausts, abandons, places, updates, relays,
  poisons, Steps, stays, then_step,
}
use minghe.Call.Sessions.{get-cleanup_call}

-- The keys of the offer are there; a call that is established or relayed has the callee's key too.
pub record IsKeyed (call : CallInfo) : Type 0 where
  pub offered : IsOffered call
  pub started : call.relay_started ≡ true → has_key call.callee_remote_crypto ≡ true
  pub confirmed : call.state ≡ established → has_key call.callee_remote_crypto ≡ true

-- A relay has a key in each direction for each side, and each side has one suite in both.
abbrev pub IsFull : RelayTask → Type 0
IsFull task =
    (from_caller to_caller from_callee to_callee : SrtpCryptoSuite) × (task.caller_decrypt_crypto
      ≡ some from_caller)
    × (task.caller_encrypt_crypto ≡ some to_caller)
    × (task.callee_decrypt_crypto ≡ some from_callee)
    × (task.callee_encrypt_crypto ≡ some to_callee)
    × (to_caller.suite ≡ from_caller.suite)
    × (to_callee.suite ≡ from_callee.suite)

pub record IsSecure (s : Router) : Type 0 where
  pub calls : (id : Text) (call : CallInfo) → get id s.active_calls ≡ some call → IsKeyed call
  pub tasks : All IsFull s.tasks

-- The own keys for the callee have the suite of its answer.
own_keys :
    (call : CallInfo) (remote : SrtpCryptoSuite)
    → IsOffered call
    → (own : SrtpCryptoSuite) × (encrypt_for_callee (some remote) call ≡ some own)
      × (own.suite ≡ remote.suite)
own_keys call remote offered = go remote.suite refl
  where
    go :
        (suite : SrtpSuite)
        → remote.suite ≡ suite
        → (own : SrtpCryptoSuite) × (encrypt_for_callee (some remote) call ≡ some own)
          × (own.suite ≡ remote.suite)
    go aes_cm_128_hmac_sha1_80 e =
        let (aes, gcm, has_aes, has_gcm, aes_suite, gcm_suite) = offered.callee_keys in
        (aes, rw (e, has_aes) refl, aes_suite ∙ sym e)
    go aead_aes_128_gcm e =
        let (aes, gcm, has_aes, has_gcm, aes_suite, gcm_suite) = offered.callee_keys in
        (gcm, rw (e, has_gcm) refl, gcm_suite ∙ sym e)

relay_task-IsFull :
    (id : Text) (call : CallInfo)
    → IsOffered call
    → has_key call.callee_remote_crypto ≡ true
    → IsFull (relay_task id call)
unfolding relay_task
relay_task-IsFull id call offered key = elim (Option-cases call.callee_remote_crypto) [
  | inl absent ↦ absurd (ground arith)
  | inr (remote, present) ↦
      let (their, ours, has_their, has_ours, same) = offered.caller_keys in
      let (own, has_own, suite) = own_keys call remote offered in
      (
        their,
        ours,
        remote,
        own,
        has_their,
        has_ours,
        present,
        ap (λ (o : Option SrtpCryptoSuite). encrypt_for_callee o call) present ∙ has_own,
        same,
        suite,
      )
]

Evolves-IsKeyed : (old new : CallInfo) → Evolves old new → IsKeyed old → IsKeyed new
Evolves-IsKeyed old new ev k = record {
  offered =
      let (their, ours, has_their, has_ours, same) = k.offered.caller_keys in
      let (aes, gcm, has_aes, has_gcm, aes_suite, gcm_suite) = k.offered.callee_keys in
      record {
        caller_keys = (their, ours, ev.caller_remote ∙ has_their, ev.caller_local ∙ has_ours, same);
        callee_keys = (
          aes,
          gcm,
          ev.callee_local ∙ has_aes,
          ev.callee_local_gcm ∙ has_gcm,
          aes_suite,
          gcm_suite,
        );
      };
  started =
      λ h. elim (ev.started h) [ inl before ↦ ev.answered (k.started before) | inr key ↦ key ];
  confirmed =
      λ h. elim (ev.confirmed h) [ inl before ↦ ev.answered (k.confirmed before) | inr key ↦ key ];
}

IsNew-IsKeyed : (session : RelaySession) (call : CallInfo) → IsNew session call → IsKeyed call
IsNew-IsKeyed session call n = record {
  offered = n.offered;
  started = λ h. absurd (ground (arith, n.stopped));
  confirmed = λ h. absurd (trying-differs (sym n.state ∙ h));
}
  where
    trying-differs : trying ≢ established
    trying-differs k = ground arith

relayed_calls :
    (e : Env) (id : Text) (call : CallInfo) (s : Router)
    → get id s.active_calls ≡ some call
    → ((start_media_relay e id s).active_calls ≡ s.active_calls)
      × ((start_media_relay e id s).tasks ≡ relay_task id call ∷ s.tasks)
unfolding start_media_relay
relayed_calls e id call s present = (ground arith, ground arith)

pub cleaned_tasks : (id : Text) (s : Router) → (cleanup_call id s).tasks ≡ s.tasks
unfolding cleanup_call
cleaned_tasks id s = elim (Option-cases (get id s.active_calls)) [
  | inl absent ↦ ground arith
  | inr (call, present) ↦ ground arith
]

Step-IsSecure : {b : Bool} {s t : Router} → Step b s t → IsSecure s → IsSecure t
Step-IsSecure (counts now ip) h = record { calls = h.calls; tasks = h.tasks }
Step-IsSecure {s = s} (ends id) h = record {
  calls = λ x call present. h.calls x call (ground (arith, get-cleanup_call id x s));
  tasks = subst (All IsFull) (sym (cleaned_tasks id s)) h.tasks;
}
Step-IsSecure (exhausts id media e) h = record { calls = h.calls; tasks = h.tasks }
Step-IsSecure (abandons id session media e p) h = record { calls = h.calls; tasks = h.tasks }
Step-IsSecure {s = s} (places id session media new e n) h = record {
  calls = λ x call present. elim (Bool-cases (id == x)) [
    | inl same ↦
        subst IsKeyed (ground (arith, get-insert id x new s.active_calls))
          (IsNew-IsKeyed session new n)
    | inr other ↦ h.calls x call (ground (arith, get-insert id x new s.active_calls))
  ];
  tasks = h.tasks;
}
Step-IsSecure {s = s} (updates id old new here ev) h = record {
  calls = λ x call present. elim (Bool-cases (id == x)) [
    | inl same ↦
        subst IsKeyed (ground (arith, get-insert id x new s.active_calls))
          (Evolves-IsKeyed old new ev (h.calls id old here))
    | inr other ↦ h.calls x call (ground (arith, get-insert id x new s.active_calls))
  ];
  tasks = h.tasks;
}
Step-IsSecure {s = s} (relays e id call here key) h =
    let (calls, tasks) = relayed_calls e id call s here in
    record {
      calls = λ x other present. h.calls x other (ap (get x) (sym calls) ∙ present);
      tasks =
          subst (All IsFull) (sym tasks)
            (relay_task-IsFull id call (h.calls id call here).offered key, h.tasks);
    }
Step-IsSecure (poisons p) h = record { calls = h.calls; tasks = h.tasks }

pub Steps-IsSecure : {b : Bool} {s t : Router} → Steps b s t → IsSecure s → IsSecure t
Steps-IsSecure stays h = h
Steps-IsSecure (then_step before step) h = Step-IsSecure step (Steps-IsSecure before h)
