-- ===== src/Registrar/Nonces/Replay.antt =====
-- Which nonces pass, and that a count passes once.
use minghe.Prelude.{
  Bool-cases, ℕ, ◌-◌, ◌≤◌, ◌<◌, ◌≡◌, refl, subst, ◌↔◌, ◌⊎◌, inl, inr, true, false, Option, none,
  some, arith, length, list_eq, list_beq_iff, ◌==◌, codes,
}
use minghe.Prelude.Dict.{
  Dict, get, retain_values, Distinct, get-insert, get-remove, get-retain_values, Distinct-insert,
  Distinct-remove, Distinct-retain_values, length-insert-le, length-remove-le,
  length-insert_present,
}
use minghe.Text.{Text}
use minghe.Registrar.State.{NonceEntry, nonce_ttl_secs, max_issued_nonces}
use minghe.Registrar.Nonces.{
  alive, make_room, issue, check_entry, check_count, is_auth, or_zero, validate_nonce,
}

-- A request passes exactly if its nonce is in the table under the same IP, is younger than 300
-- seconds and, when the quality is `auth`, has a count above the highest one seen.
pub record Passes (now : ℕ) (nonce ip : Text) (nc : Option ℕ) (qop : Option Text)
    (nonces : Dict Text NonceEntry) : Type 0 where
  pub entry : NonceEntry
  pub issued : get nonce nonces ≡ some entry
  pub same_ip : entry.ip ≡ ip
  pub fresh : now - entry.issued_at < nonce_ttl_secs
  pub above : qop ≡ some (codes "auth") → entry.max_nc < or_zero nc

make_room-lt :
    (now : ℕ) (nonces : Dict Text NonceEntry) → length (make_room now nonces) < max_issued_nonces
unfolding make_room
make_room-lt now nonces = ground arith

-- Issuing a nonce keeps the table within its limit, whatever its size was.
pub issue-bound :
    (now : ℕ) (nonce ip : Text) (nonces : Dict Text NonceEntry)
    → length (issue now nonce ip nonces) ≤ max_issued_nonces
unfolding issue
issue-bound now nonce ip nonces = omega (
  arith,
  make_room-lt now nonces,
  length-insert-le nonce (record { issued_at = now; ip = ip; max_nc = 0 }) (make_room now nonces),
)

length-check :
    (now : ℕ) (nonce ip : Text) (nc : Option ℕ) (qop : Option Text) (m : Dict Text NonceEntry)
    (o : Option NonceEntry)
    → get nonce m ≡ o
    → length (check_entry now nonce ip nc qop m o).0 ≤ length m
unfolding check_entry
length-check now nonce ip nc qop m none eq = omega arith
length-check now nonce ip nc qop m (some e) eq = ground (
  arith,
  length-remove-le nonce m,
  length-insert_present nonce (record e { max_nc = or_zero nc }) e m eq,
)

-- A check never makes the table longer.
pub length-validate_nonce :
    (now : ℕ) (nonce ip : Text) (nc : Option ℕ) (qop : Option Text) (m : Dict Text NonceEntry)
    → length (validate_nonce now nonce ip nc qop m).0 ≤ length m
unfolding validate_nonce
length-validate_nonce now nonce ip nc qop m = length-check now nonce ip nc qop m (get nonce m) refl

-- The nonce is gone, or counts up to `k` have been used with it.
abbrev Used : Text → ℕ → Dict Text NonceEntry → Type 0
Used nonce k nonces =
    (get nonce nonces ≡ none) ⊎ ((e : NonceEntry) × (get nonce nonces ≡ some e) × (k ≤ e.max_nc))

auth_is_auth : is_auth (some (codes "auth")) ≡ true
unfolding is_auth
auth_is_auth = refl

check-Used :
    (now : ℕ) (nonce ip : Text) (nc : Option ℕ) (nonces : Dict Text NonceEntry)
    (o : Option NonceEntry)
    → (check_entry now nonce ip nc (some (codes "auth")) nonces o).1 ≡ true
    → Used nonce (or_zero nc) (check_entry now nonce ip nc (some (codes "auth")) nonces o).0
unfolding check_entry
check-Used now nonce ip nc nonces none ok = cc
check-Used now nonce ip nc nonces (some e) ok =
    let e' : NonceEntry = record e { max_nc = or_zero nc } in
    inr
      (e', ground (arith, get-insert nonce nonce e' nonces, list_beq_iff nonce nonce), ground arith)

-- What may happen to the table after that: other nonces are issued, requests are checked, old
-- entries are cleaned up. The random nonces do not repeat the one in question.
pub data Step (nonce : Text) (m : Dict Text NonceEntry) : Dict Text NonceEntry → Type 0 where
  issues :
      (now : ℕ) (other ip : Text) → (other == nonce) ≡ false → Step nonce m (issue now other ip m)
  checks :
      (now : ℕ) (other ip : Text) (nc : Option ℕ) (qop : Option Text)
      → Step nonce m (validate_nonce now other ip nc qop m).0
  cleans : (now : ℕ) → Step nonce m (retain_values (alive now) m)

pub data Steps (nonce : Text) (m : Dict Text NonceEntry) : Dict Text NonceEntry → Type 0 where
  here : Steps nonce m m
  next : {t u : Dict Text NonceEntry} → Steps nonce m t → Step nonce t u → Steps nonce m u

make_room-Distinct : (now : ℕ) (m : Dict Text NonceEntry) → Distinct m → Distinct (make_room now m)
unfolding make_room
make_room-Distinct now m d = ground (arith, Distinct-retain_values (alive now) m d)

Used-retain :
    (nonce : Text) (k now : ℕ) (m : Dict Text NonceEntry)
    → Distinct m
    → Used nonce k m
    → Used nonce k (retain_values (alive now) m)
Used-retain nonce k now m d u = ground (arith, get-retain_values (alive now) nonce m d)

Used-make_room :
    (nonce : Text) (k now : ℕ) (m : Dict Text NonceEntry)
    → Distinct m
    → Used nonce k m
    → Used nonce k (make_room now m)
unfolding make_room get
Used-make_room nonce k now m d u = ground (arith, Used-retain nonce k now m d u)

check-keeps :
    (nonce : Text) (k now : ℕ) (other ip : Text) (nc : Option ℕ) (qop : Option Text)
    (m : Dict Text NonceEntry) (o : Option NonceEntry)
    → get other m ≡ o
    → Distinct m × Used nonce k m
    → Distinct (check_entry now other ip nc qop m o).0
      × Used nonce k (check_entry now other ip nc qop m o).0
unfolding check_entry
check-keeps nonce k now other ip nc qop m none eq h = h
check-keeps nonce k now other ip nc qop m (some e) eq h =
    let e' : NonceEntry = record e { max_nc = or_zero nc } in
    ground (
      arith,
      get-insert other nonce e' m,
      get-remove other nonce m,
      Distinct-insert other e' m h.0,
      Distinct-remove other m h.0,
      list_beq_iff other nonce,
    )

Step-keeps :
    {nonce : Text} {m t : Dict Text NonceEntry} (k : ℕ)
    → Step nonce m t
    → Distinct m × Used nonce k m
    → Distinct t × Used nonce k t
unfolding issue validate_nonce
Step-keeps {nonce} {m} k (issues now other ip new) h =
    let e : NonceEntry = record { issued_at = now; ip = ip; max_nc = 0 } in
    let d = make_room-Distinct now m h.0 in
    let u = Used-make_room nonce k now m h.0 h.1 in
    (
      Distinct-insert other e (make_room now m) d,
      ground (arith, get-insert other nonce e (make_room now m)),
    )
Step-keeps {nonce} {m} k (checks now other ip nc qop) h =
    check-keeps nonce k now other ip nc qop m (get other m) refl h
Step-keeps {nonce} {m} k (cleans now) h =
    (Distinct-retain_values (alive now) m h.0, Used-retain nonce k now m h.0 h.1)

Steps-keep :
    {nonce : Text} {m t : Dict Text NonceEntry} (k : ℕ)
    → Steps nonce m t
    → Distinct m × Used nonce k m
    → Distinct t × Used nonce k t
Steps-keep k here h = h
Steps-keep k (next r st) h = Step-keeps k st (Steps-keep k r h)

Distinct-check :
    (now : ℕ) (nonce ip : Text) (nc : Option ℕ) (m : Dict Text NonceEntry) (o : Option NonceEntry)
    → Distinct m
    → Distinct (check_entry now nonce ip nc (some (codes "auth")) m o).0
unfolding check_entry
Distinct-check now nonce ip nc m none d = d
Distinct-check now nonce ip nc m (some e) d =
    ground (
      arith,
      Distinct-insert nonce (record e { max_nc = or_zero nc }) m d,
      Distinct-remove nonce m d,
    )

check-refuses :
    (nonce : Text) (k later : ℕ) (ip : Text) (nc : Option ℕ) (m : Dict Text NonceEntry)
    (o : Option NonceEntry)
    → get nonce m ≡ o
    → Used nonce k m
    → or_zero nc ≤ k
    → (check_entry later nonce ip nc (some (codes "auth")) m o).1 ≡ false
unfolding check_entry
check-refuses nonce k later ip nc m none eq u le = refl
check-refuses nonce k later ip nc m (some e) eq u le = ground arith

-- A count passes once with quality `auth`: after a nonce has been accepted with that quality, a
-- request for it that has quality `auth` too and the same count or a smaller one is refused, at any
-- later time, from any IP and whatever happened to the table in between, as long as no new nonce
-- repeats it. The table is a map: it has each nonce once. Requests without that quality are not
-- counted.
pub no_replay :
    (now later : ℕ) (nonce ip other : Text) (nc nc' : Option ℕ) (m t : Dict Text NonceEntry)
    → Distinct m
    → (validate_nonce now nonce ip nc (some (codes "auth")) m).1 ≡ true
    → Steps nonce (validate_nonce now nonce ip nc (some (codes "auth")) m).0 t
    → or_zero nc' ≤ or_zero nc
    → (validate_nonce later nonce other nc' (some (codes "auth")) t).1 ≡ false
unfolding validate_nonce
no_replay now later nonce ip other nc nc' m t d ok steps le =
    let u = check-Used now nonce ip nc m (get nonce m) ok in
    let d' = Distinct-check now nonce ip nc m (get nonce m) d in
    let (_, v) = Steps-keep (or_zero nc) steps (d', u) in
    check-refuses nonce (or_zero nc) later other nc' t (get nonce t) refl v le

auth_qop : (qop : Option Text) → (is_auth qop ≡ true) ↔ (qop ≡ some (codes "auth"))
unfolding is_auth
auth_qop none = ground arith
auth_qop (some qop) = ground (arith, list_beq_iff qop (codes "auth"))

count_passes :
    (nonce : Text) (nc : Option ℕ) (qop : Option Text) (e : NonceEntry) (m : Dict Text NonceEntry)
    → ((check_count nonce nc qop e m).1 ≡ true)
      ↔ (qop ≡ some (codes "auth") → e.max_nc < or_zero nc)
unfolding check_count
count_passes nonce nc qop e m = elim (Bool-cases (is_auth qop)) [
  | inl auth ↦ (λ h _. ground arith, λ h. let lt = h ((auth_qop qop).0 auth) in ground arith)
  | inr other ↦ (λ h q. absurd (ground (arith, (auth_qop qop).1 q)), λ h. ground arith)
]

entry-Passes :
    (now : ℕ) (nonce ip : Text) (nc : Option ℕ) (qop : Option Text) (m : Dict Text NonceEntry)
    (o : Option NonceEntry)
    → get nonce m ≡ o
    → ((check_entry now nonce ip nc qop m o).1 ≡ true) ↔ Passes now nonce ip nc qop m
unfolding check_entry
entry-Passes now nonce ip nc qop m none eq = (λ h. absurd (ground arith), λ p. absurd (cc p.issued))
entry-Passes now nonce ip nc qop m (some e) eq =
    let c = count_passes nonce nc qop e m in
    (
      λ h. record {
        entry = e;
        issued = eq;
        same_ip = ground (arith, list_beq_iff e.ip ip);
        fresh = ground arith;
        above = c.0 (ground arith);
      },
      λ p.
          let same : p.entry ≡ e = cc p.issued in
          let above =
            subst (λ (x : NonceEntry). qop ≡ some (codes "auth") → x.max_nc < or_zero nc) same
              p.above in
          let fresh = subst (λ (x : NonceEntry). now - x.issued_at < nonce_ttl_secs) same p.fresh in
          let same_ip = subst (λ (x : NonceEntry). x.ip ≡ ip) same p.same_ip in
          ground (arith, c.1 above, list_beq_iff e.ip ip),
    )

-- A nonce is accepted exactly if it is in the table under the IP of the request, is younger than
-- 300 seconds and, when the quality is `auth`, comes with a count above the highest one accepted
-- for it.
pub validate_nonce_iff :
    (now : ℕ) (nonce ip : Text) (nc : Option ℕ) (qop : Option Text) (m : Dict Text NonceEntry)
    → ((validate_nonce now nonce ip nc qop m).1 ≡ true) ↔ Passes now nonce ip nc qop m
unfolding validate_nonce
validate_nonce_iff now nonce ip nc qop m = entry-Passes now nonce ip nc qop m (get nonce m) refl
