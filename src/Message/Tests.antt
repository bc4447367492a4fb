-- ===== src/Message/Tests.antt =====
-- The theorems on offline messages at concrete tables.
use minghe.Prelude.{
  ℕ, true, false, Bool, ◌+◌, ◌-◌, ◌≤◌, ◌<◌, ◌≡◌, ◌≢◌, refl, List, [], ◌∷◌, ◌++◌, Option, none, some,
  arith, length, codes, list_eq, ltb, leb, drop, retain, All, if◌then◌else◌,
}
use minghe.Prelude.Dict.{Dict, Distinct, get}
use minghe.Text.{Text}
use minghe.Message.{
  Offline, OfflineMessage, SenderRateWindow, StoreOutcome, sender_total, total, stored,
  rate_limited, live, or_empty, pop_full, prune_expired, merge_back, store_offline_message,
  take_messages, send_messages, deliver_offline_messages,
}
use minghe.Message.Limits.{IsWithin}
use minghe.Message.Runs.{Request, stores, delivers, serve_all, serve_all-IsWithin}
use minghe.Message.Queues.{store-stored}
use minghe.Message.Delivery.{deliver-keeps}

abbrev alice : Text
alice = codes "1001"

abbrev bob : Text
bob = codes "1002"

abbrev hello : OfflineMessage
hello = record { from_ext = alice; original_request = codes "hello"; received_at = 100 }

abbrev again : OfflineMessage
again = record { from_ext = alice; original_request = codes "again"; received_at = 110 }

abbrev offline : Offline
offline = record {
  offline_messages = (bob, hello ∷ again ∷ []) ∷ [];
  sender_rates = (alice, record { window_start = 100; count = 2 }) ∷ [];
}

-- The sender has used up the window.
abbrev flooded : Offline
flooded = record offline { sender_rates = (alice, record { window_start = 100; count = 120 }) ∷ [] }

offline-Distinct : Distinct offline.offline_messages
unfolding get
offline-Distinct = (refl, tt)

is_stored : (store_offline_message 120 bob alice (codes "third") offline).1 ≡ stored
unfolding store_offline_message get minghe.Message.push_message sender_total prune_expired total
is_stored = refl

is_refused : (store_offline_message 120 bob alice (codes "third") flooded).1 ≡ rate_limited
unfolding store_offline_message get
is_refused = refl

offline-senders : (from : Text) → sender_total from offline.offline_messages ≤ 500
unfolding sender_total
offline-senders from = ground arith

offline-IsWithin : IsWithin offline
unfolding total
offline-IsWithin = record {
  queues = (omega arith, tt);
  all = omega arith;
  senders = offline-senders;
  rates = (omega arith, tt);
}

-- A third message is stored, and a delivery to a way out that takes nothing puts all three back.
abbrev requests : List Request
requests = stores 120 bob alice (codes "third") ∷ delivers 130 bob (some (λ m. false)) ∷ []

serve_all-IsWithin_example : IsWithin (serve_all requests offline)
serve_all-IsWithin_example = serve_all-IsWithin requests offline offline-IsWithin

store-stored_example :
    or_empty
      (get bob (store_offline_message 120 bob alice (codes "third") offline).0.offline_messages)
    ≡ hello
      ∷ again
      ∷ record { from_ext = alice; original_request = codes "third"; received_at = 120 }
      ∷ []
unfolding get
store-stored_example =
    store-stored 120 bob alice (codes "third") bob offline offline-Distinct is_stored

-- A sink that takes the first message alone.
abbrev takes_hello : OfflineMessage → Bool
takes_hello m = leb m.received_at 105

deliver-keeps_example :
    or_empty (
      get bob
        (deliver_offline_messages 120 bob (some takes_hello) (λ s. s) offline).offline_messages)
    ≡ again ∷ []
unfolding take_messages send_messages get minghe.Prelude.Dict.remove
deliver-keeps_example =
    deliver-keeps 120 bob (some takes_hello) (λ s. s) offline (omega arith) (omega arith)
