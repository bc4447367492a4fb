-- ===== src/Registrar/Register/Invariants.antt =====
-- What no REGISTER request can break.
use minghe.Prelude.{◌≤◌, ◌<◌, ◌≡◌, true, arith, length, list_eq}
use minghe.Text.{Text}
use minghe.Registrar.State.{RegistrarService, max_issued_nonces}
use minghe.Registrar.Blocking.{is_blocked}
use minghe.Registrar.Blocking.Bounds.{
  InBounds, record_failure-InBounds, clear_failures-InBounds, is_blocked-record_failure,
  record_failure-SameElsewhere, clear_failures-SameElsewhere,
}
use minghe.Registrar.Nonces.Replay.{issue-bound, length-validate_nonce}
use minghe.Registrar.Table.{register, unregister}
use minghe.Registrar.Register.{Call, handle_register}
use minghe.Registrar.Register.Keeps.{IsKept, handle_register-keeps}

-- The three tables that an attacker could fill are within their limits.
pub record IsLimited (s : RegistrarService) : Type 0 where
  pub room : 0 < s.ip_block.max_failed_ips
  pub tables : InBounds s
  pub nonces : length s.issued_nonces ≤ max_issued_nonces

IsLimited-kept : IsKept IsLimited
unfolding register unregister
IsLimited-kept = record {
  by_failure = λ now ip s h.
      let same = record_failure-SameElsewhere now ip s in
      record {
        room = ground arith;
        tables = record_failure-InBounds now ip s h.room h.tables;
        nonces = ground arith;
      };
  by_success = λ ip s h.
      let same = clear_failures-SameElsewhere ip s in
      record {
        room = ground arith;
        tables = clear_failures-InBounds ip s h.tables;
        nonces = ground arith;
      };
  by_issue = λ now nonce ip s h. record {
    room = h.room;
    tables = record { failed = h.tables.failed; blocked = h.tables.blocked };
    nonces = issue-bound now nonce ip s.issued_nonces;
  };
  by_check = λ now nonce ip nc qop s h. record {
    room = h.room;
    tables = record { failed = h.tables.failed; blocked = h.tables.blocked };
    nonces = omega (arith, length-validate_nonce now nonce ip nc qop s.issued_nonces, h.nonces);
  };
  by_register = λ reg s h. record {
    room = h.room;
    tables = record { failed = h.tables.failed; blocked = h.tables.blocked };
    nonces = h.nonces;
  };
  by_unregister = λ extension s h. record {
    room = h.room;
    tables = record { failed = h.tables.failed; blocked = h.tables.blocked };
    nonces = h.nonces;
  };
}

-- No REGISTER request takes the tables of failures, of blocked IPs and of nonces over their
-- limits, if they were within them and the limit on failures is above 0.
pub handle_register-IsLimited :
    (c : Call) (request : Text) (s : RegistrarService)
    → IsLimited s
    → IsLimited (handle_register c request s).0
handle_register-IsLimited c request s h =
    handle_register-keeps IsLimited IsLimited-kept c request s h

is_blocked-kept : (ip : Text) → IsKept (λ s. is_blocked s ip ≡ true)
unfolding register unregister is_blocked
is_blocked-kept ip = record {
  by_failure = λ now other s h. (is_blocked-record_failure now ip other s h).0;
  by_success = λ other s h. (is_blocked-record_failure 0 ip other s h).1;
  by_issue = λ now nonce other s h. h;
  by_check = λ now nonce other nc qop s h. h;
  by_register = λ reg s h. h;
  by_unregister = λ extension s h. h;
}

refused_unchanged :
    (c : Call) (request : Text) (s : RegistrarService)
    → is_blocked s c.ip ≡ true
    → (handle_register c request s).0 ≡ s
unfolding handle_register
refused_unchanged c request s h = ground arith

-- A blocked IP is refused with nothing changed, and stays blocked whatever REGISTER request comes
-- from any IP.
pub handle_register-blocked :
    (c d : Call) (request : Text) (s : RegistrarService)
    → is_blocked s c.ip ≡ true
    → ((handle_register c request s).0 ≡ s)
      × (is_blocked (handle_register d request s).0 c.ip ≡ true)
handle_register-blocked c d request s h = (
  refused_unchanged c request s h,
  handle_register-keeps (λ t. is_blocked t c.ip ≡ true) (is_blocked-kept c.ip) d request s h,
)
