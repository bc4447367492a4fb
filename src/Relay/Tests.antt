-- ===== src/Relay/Tests.antt =====
-- The theorems on ports and sessions at a concrete range.
use minghe.Prelude.{◌+◌, ◌%◌, ◌≤◌, ◌≡◌, ◌≢◌, refl, [], some, arith, codes, list_eq}
use minghe.Prelude.Dict.{get}
use minghe.Text.{Text}
use minghe.Relay.{
  MediaRelayManager, no_fuel, port_pair, set_next, new_session, allocate_port_pair, create_session,
  get_session,
}
use minghe.Relay.Ports.{IsRange, upcoming, allocate_port_pair-ends, allocate_port_pair-IsRange}
use minghe.Relay.Sessions.{create_session-new}

abbrev pool : MediaRelayManager
pool = record {
  port_start = 20000;
  port_end = 20100;
  next_port = 20100;
  sessions = [];
  shutdown_senders = [];
}

-- The same with a range of odd ports only.
abbrev odd : MediaRelayManager
odd = record pool { port_start = 20001; port_end = 20002; next_port = 20001 }

-- A range that ends at the last port.
abbrev full : MediaRelayManager
full = record pool { port_end = 65535; next_port = 65534 }

pool-IsRange : IsRange pool
pool-IsRange = record {
  start_even = refl;
  next_even = refl;
  two = omega arith;
  below = omega arith;
  from_start = omega arith;
  to_end = omega arith;
}

allocate_port_pair-ends_example : allocate_port_pair odd ≢ no_fuel
allocate_port_pair-ends_example =
    allocate_port_pair-ends odd (omega arith) (omega arith) (omega arith)

allocate_port_pair-IsRange_example :
    (allocate_port_pair pool ≡ port_pair 20000 (set_next 20002 pool))
    × (20000 ≤ 20000)
    × (20001 ≤ 20100)
    × (20000 % 2 ≡ 0)
    × IsRange (set_next 20002 pool)
allocate_port_pair-IsRange_example = allocate_port_pair-IsRange pool pool-IsRange

abbrev call_id : Text
call_id = codes "a84b4c"

create_session-new_example :
    ((create_session call_id pool).0 ≡ some (new_session call_id 20000 20002))
    × (get_session call_id (create_session call_id pool).1 ≡ (create_session call_id pool).0)
    × (upcoming pool ≢ upcoming (set_next (upcoming pool + 2) pool))
    × IsRange (create_session call_id pool).1
unfolding get_session get
create_session-new_example = create_session-new call_id call_id pool pool-IsRange refl
