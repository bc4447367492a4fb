-- ===== src/Registrar/Table/Online.antt =====
-- Who is online after each operation on the table.
use minghe.Prelude.{ℕ, ◌≤◌, ◌≡◌, not, none, some, arith, ltb, leb, if◌then◌else◌, ◌==◌, list_eq}
use minghe.Prelude.Dict.{Distinct, get, get-insert, get-remove, get-retain_values}
use minghe.Text.{Text}
use minghe.Registrar.State.{RegistrarService, Registration}
use minghe.Registrar.Table.{register, unregister, lookup, cleanup_expired}

-- After a registration the extension is online with exactly that contact until it expires, and no
-- other extension has changed.
pub lookup-register :
    (now : ℕ) (reg : Registration) (other : Text) (s : RegistrarService)
    → lookup now other (register reg s) ≡ (
        if reg.extension == other
        then (if ltb now reg.expires_at then some reg else none)
        else lookup now other s)
unfolding lookup register
lookup-register now reg other s = ground (arith, get-insert reg.extension other reg s.registrations)

-- After an unregistration the extension is offline, and no other extension has changed.
pub lookup-unregister :
    (now : ℕ) (extension other : Text) (s : RegistrarService)
    → lookup now other (unregister extension s)
      ≡ (if extension == other then none else lookup now other s)
unfolding lookup unregister
lookup-unregister now extension other s = ground (arith, get-remove extension other s.registrations)

-- In a table with each extension once, the clean-up takes nobody offline who is online, then or
-- later, and brings nobody back.
pub lookup-cleanup :
    (now later : ℕ) (extension : Text) (s : RegistrarService)
    → Distinct s.registrations
    → now ≤ later
    → lookup later extension (cleanup_expired now s) ≡ lookup later extension s
unfolding lookup cleanup_expired
lookup-cleanup now later extension s d le = ground (
  arith,
  get-retain_values (λ (reg : Registration). not (leb reg.expires_at now)) extension s.registrations
      d,
)

pub get-register :
    (reg : Registration) (other : Text) (s : RegistrarService)
    → get other (register reg s).registrations
      ≡ (if reg.extension == other then some reg else get other s.registrations)
unfolding register
get-register reg other s = get-insert reg.extension other reg s.registrations

pub get-unregister :
    (extension other : Text) (s : RegistrarService)
    → get other (unregister extension s).registrations
      ≡ (if extension == other then none else get other s.registrations)
unfolding unregister
get-unregister extension other s = get-remove extension other s.registrations
