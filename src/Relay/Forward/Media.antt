-- ===== src/Relay/Forward/Media.antt =====
-- What the relay does to the media of a call.
use minghe.Prelude.{
  ℕ, ◌≡◌, refl, ap, ◌∙◌, List, [], ◌∷◌, Option, some, if-both, Option-cases, inl, inr, is_nil, ◌≤◌,
  length, take_all,
}
use minghe.Text.{Text}
use minghe.Srtp.Suite.{ok}
use minghe.Srtp.Cipher.{Crypto, IsLawful}
use minghe.Srtp.Packet.{SrtpCryptoSuite, protect_rtp, unprotect_rtp}
use minghe.Srtp.Packet.RoundTrip.{InSync, protect-unprotect}
use minghe.Relay.Forward.{
  Relaying, Side, caller, callee, Datagram, recode, unprotected, protected, from_caller,
  from_callee, arrives, relay_all, received, buffer_len,
}

forwarded :
    (c : Crypto) (r : Relaying) (source dest : Text) (decrypt encrypt : SrtpCryptoSuite) (b : ℕ)
    (q w datagram : List ℕ)
    → received datagram ≡ b ∷ q
    → r.callee_remote ≡ some dest
    → recode c r.decrypt_caller r.encrypt_callee (b ∷ q) ≡ ((some decrypt, some encrypt), some w)
    → ((from_caller c source datagram r).1 ≡ some (dest, w))
      × ((from_caller c source datagram r).0.decrypt_caller ≡ some decrypt)
      × ((from_caller c source datagram r).0.encrypt_callee ≡ some encrypt)
unfolding from_caller
forwarded c r source dest decrypt encrypt b q w datagram whole known e = (
  rw (whole, known, whole, e) refl,
  rw (whole, known, whole, e) refl,
  rw (whole, known, whole, e) refl,
)

-- A packet that the caller protects, in at most 2048 bytes, that the relay's side can protect again, and that goes to a
-- callee whose address is known, is sent there, and the callee unprotects it to the caller's bytes;
-- both pairs of keys are in sync again.
pub from_caller-unprotect :
    (c : Crypto)
    → IsLawful c
    → (r : Relaying) (source dest : Text)
      (sender sender' decrypt encrypt encrypt' receiver : SrtpCryptoSuite) (b : ℕ) (p q w : List ℕ)
    → length (b ∷ q) ≤ buffer_len
    → InSync sender decrypt
    → InSync encrypt receiver
    → r.decrypt_caller ≡ some decrypt
    → r.encrypt_callee ≡ some encrypt
    → r.callee_remote ≡ some dest
    → protect_rtp c sender p ≡ (sender', ok (b ∷ q))
    → protect_rtp c encrypt p ≡ (encrypt', ok w)
    → (decrypt' receiver' : SrtpCryptoSuite) × ((from_caller c source (b ∷ q) r).1 ≡ some (dest, w))
      × ((from_caller c source (b ∷ q) r).0.decrypt_caller ≡ some decrypt')
      × ((from_caller c source (b ∷ q) r).0.encrypt_callee ≡ some encrypt')
      × (unprotect_rtp c receiver w ≡ (receiver', ok p))
      × InSync sender' decrypt'
      × InSync encrypt' receiver'
unfolding recode
from_caller-unprotect c l r source dest sender sender' decrypt encrypt encrypt' receiver b p q w
      fits first second has_decrypt has_encrypt known sent again =
    let (decrypt', opened, in_sync) =
      protect-unprotect c l sender decrypt sender' p (b ∷ q) first sent in
    let (receiver', arrived, in_sync') =
      protect-unprotect c l encrypt receiver encrypt' p w second again in
    let e : recode c r.decrypt_caller r.encrypt_callee (b ∷ q)
        ≡ ((some decrypt', some encrypt'), some w) =
      rw (has_decrypt, has_encrypt)
        (ap (unprotected c encrypt) opened ∙ ap (protected decrypt') again) in
    let whole : received (b ∷ q) ≡ b ∷ q = take_all buffer_len (b ∷ q) fits in
    let (out, decrypts, encrypts) =
      forwarded c r source dest decrypt' encrypt' b q w (b ∷ q) whole known e in
    (decrypt', receiver', out, decrypts, encrypts, arrived, in_sync, in_sync')

Stays : Text → Relaying × Option (Text × List ℕ) → Type 0
Stays a (r, out) = r.caller_remote ≡ some a

caller-Stays :
    (c : Crypto) (a source : Text) (packet : List ℕ) (r : Relaying)
    → r.caller_remote ≡ some a
    → Stays a (from_caller c source packet r)
unfolding from_caller Stays
caller-Stays c a source packet r h =
    if-both (Stays a) (is_nil (received packet)) _ _ (λ e. h)
      (λ e. elim (Option-cases r.callee_remote) [
        | inl unknown ↦ rw (unknown, h) refl
        | inr (dest, known) ↦ rw (known, h) refl
      ])

callee-Stays :
    (c : Crypto) (a source : Text) (packet : List ℕ) (r : Relaying)
    → r.caller_remote ≡ some a
    → Stays a (from_callee c source packet r)
unfolding from_callee Stays
callee-Stays c a source packet r h =
    if-both (Stays a) (is_nil (received packet)) _ _ (λ e. h) (λ e. rw h h)

arrives-Stays :
    (c : Crypto) (a : Text) (side : Side) (source : Text) (bytes : List ℕ) (r : Relaying)
    → r.caller_remote ≡ some a
    → (arrives c (record { side = side; source = source; bytes = bytes }) r).0.caller_remote
      ≡ some a
unfolding Stays
arrives-Stays c a caller source bytes r h = caller-Stays c a source bytes r h
arrives-Stays c a callee source bytes r h = callee-Stays c a source bytes r h

-- The address of the caller, once it is known, stays the same whatever arrives at either port: also
-- the address that its description declares, when its packets come from another one.
pub relay_all-caller_remote :
    (c : Crypto) (a : Text) (ds : List Datagram) (r : Relaying)
    → r.caller_remote ≡ some a
    → (relay_all c ds r).0.caller_remote ≡ some a
unfolding relay_all
relay_all-caller_remote c a [] r h = h
relay_all-caller_remote c a (d ∷ ds) r h =
    relay_all-caller_remote c a ds (arrives c d r).0 (arrives-Stays c a d.side d.source d.bytes r h)
