-- ===== src/Registrar/Table.antt =====
-- sip/registrar.rs: the table of registrations, and the periodic clean-up. The clock is an argument.
pub mod Online
use minghe.Prelude.{
  ℕ, ◌-◌, Bool, true, false, not, Option, none, some, ltb, leb, if◌then◌else◌, list_eq, length,
}
use minghe.Prelude.Dict.{Dict, get, insert, remove, retain_values}
use minghe.Text.{Text}
use minghe.Registrar.State.{RegistrarService, Registration, NonceEntry}
use minghe.Registrar.Nonces.{alive}

unfoldable pub register : Registration → RegistrarService → RegistrarService
register reg s = record s { registrations = insert reg.extension reg s.registrations }

unfoldable pub unregister : Text → RegistrarService → RegistrarService
unregister extension s = record s { registrations = remove extension s.registrations }

abbrev pub unexpired : ℕ → Registration → Bool
unexpired now reg = ltb now reg.expires_at

current : ℕ → Option Registration → Option Registration
current now none = none
current now (some reg) = if unexpired now reg then some reg else none

unfoldable pub lookup : ℕ → Text → RegistrarService → Option Registration
unfolding current
lookup now extension s = current now (get extension s.registrations)

unfoldable pub is_registered : ℕ → Text → RegistrarService → Bool
is_registered now extension s = elim (lookup now extension s) [ none ↦ false | some reg ↦ true ]

pub online_count : RegistrarService → ℕ
online_count s = length s.registrations

pub cleanup_expired : ℕ → RegistrarService → RegistrarService
cleanup_expired now s = record s {
  registrations = retain_values (λ reg. not (leb reg.expires_at now)) s.registrations;
  issued_nonces = retain_values (alive now) s.issued_nonces;
}
