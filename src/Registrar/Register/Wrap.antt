-- ===== src/Registrar/Register/Wrap.antt =====
-- A request for a very long registration.
use minghe.Prelude.{
  ℕ, ◌+◌, ◌^◌, ◌≤◌, ◌<◌, ◌≡◌, refl, [], ◌∷◌, ◌++◌, codes, Option, none, some, arith, list_eq,
  list_beq_iff,
}
use minghe.Prelude.Dict.{get}
use minghe.Text.{Text, returns}
use minghe.Parser.Response.{decimal, build_response_with_headers}
use minghe.Registrar.State.{RegistrarService}
use minghe.Registrar.Table.{lookup}
use minghe.Registrar.Table.Online.{lookup-register, get-register}
use minghe.Registrar.Register.{Call, store, registration, or_default_contact}

-- When the end of the registration passes 2 ^ 64 seconds, the sum wraps: the registration is stored
-- and answered with 200 and the seconds that were asked for, and counts as expired at once.
pub store-wraps :
    (c : Call) (request extension : Text) (expires : ℕ) (s : RegistrarService) (found : Option Text)
    → c.now < 2 ^ 64
    → expires < 2 ^ 64
    → 2 ^ 64 ≤ c.now + expires
    → let contact = or_default_contact c request extension found in
      let (t, answer) = store c request extension expires s (returns found) in
      (get extension t.registrations ≡ some (registration c request extension expires contact))
      × (answer
          ≡ returns (
              build_response_with_headers c.tag request 200 (codes "OK") (
                (codes "Contact", codes "<" ++ contact ++ codes ">;expires=" ++ decimal expires)
                ∷ (codes "Expires", decimal expires)
                ∷ [])))
      × (lookup c.now extension t ≡ none)
unfolding store
store-wraps c request extension expires s found now word wraps =
    let reg =
      registration c request extension expires (or_default_contact c request extension found) in
    (
      ground (arith, get-register reg extension s, list_beq_iff extension extension),
      refl,
      ground (arith, lookup-register c.now reg extension s, list_beq_iff extension extension),
    )

-- A registration whose end is before 2 ^ 64 seconds is online, with the contact of the request or
-- the default one, at each time before its end.
pub store-online :
    (c : Call) (request extension : Text) (expires later : ℕ) (s : RegistrarService)
    (found : Option Text)
    → c.now + expires < 2 ^ 64
    → later < c.now + expires
    → lookup later extension (store c request extension expires s (returns found)).0
      ≡ some
          (registration c request extension expires (or_default_contact c request extension found))
unfolding store
store-online c request extension expires later s found word before =
    let reg =
      registration c request extension expires (or_default_contact c request extension found) in
    ground (arith, lookup-register later reg extension s, list_beq_iff extension extension)
