-- ===== src/Message.antt =====
-- sip/message.rs: messages to extensions that are offline. The clock is an argument.
pub mod Sums
pub mod Limits
pub mod Runs
pub mod Queues
pub mod Delivery
pub mod Request
mod Tests
use minghe.Prelude.{
  ℕ, ◌+◌, ◌-◌, ◌^◌, ◌%◌, Bool, true, false, Option, none, some, List, [], ◌∷◌, ◌++◌, min,
}
use minghe.Prelude.{ltb, leb, if◌then◌else◌, list_eq, ◌==◌, length, retain}
use minghe.Prelude.Dict.{Dict, get, insert, remove}
use minghe.Text.{Text}

abbrev pub max_offline_messages : ℕ
max_offline_messages = 100

abbrev pub max_total_offline_messages : ℕ
max_total_offline_messages = 10_000

abbrev pub offline_msg_ttl_secs : ℕ
offline_msg_ttl_secs = 86_400

abbrev pub sender_rate_window_secs : ℕ
sender_rate_window_secs = 60

abbrev pub sender_rate_limit : ℕ
sender_rate_limit = 120

abbrev pub sender_offline_quota : ℕ
sender_offline_quota = 500

pub record OfflineMessage : Type 0 where
  pub from_ext : Text
  pub original_request : Text
  pub received_at : ℕ

pub record SenderRateWindow : Type 0 where
  pub window_start : ℕ
  pub count : ℕ

pub data StoreOutcome : Type 0 where
  stored rate_limited quota_exceeded capacity_full : StoreOutcome

-- The two maps of `MessageService` that change.
pub record Offline : Type 0 where
  pub offline_messages : Dict Text (List OfflineMessage)
  pub sender_rates : Dict Text SenderRateWindow

-- `now < m.received_at.saturating_add(OFFLINE_MSG_TTL_SECS)`
abbrev pub live : ℕ → OfflineMessage → Bool
live now m = ltb now (min (m.received_at + offline_msg_ttl_secs) (2 ^ 64 - 1))

-- A queue that is left empty is removed with its key.
abbrev pub keep_queue :
    Text → List OfflineMessage → Dict Text (List OfflineMessage) → Dict Text (List OfflineMessage)
keep_queue ext [] rest = rest
keep_queue ext (m ∷ queue) rest = (ext, m ∷ queue) ∷ rest

pub prune_expired : ℕ → Dict Text (List OfflineMessage) → Dict Text (List OfflineMessage)
prune_expired now [] = []
prune_expired now ((ext, queue) ∷ map) =
    keep_queue ext (retain (live now) queue) (prune_expired now map)

-- `while combined.len() > MAX_OFFLINE_MESSAGES { combined.pop_front(); }`
pub trim_front : List OfflineMessage → List OfflineMessage
trim_front [] = []
trim_front (m ∷ queue) =
    let shorter = trim_front queue in
    if ltb max_offline_messages (length (m ∷ queue)) then shorter else m ∷ queue

pub merge_back : List OfflineMessage → List OfflineMessage → List OfflineMessage
unfolding trim_front
merge_back queue pending = trim_front (pending ++ queue)

-- The window of a sender, new or restarted when it is over.
abbrev pub current_window : ℕ → Option SenderRateWindow → SenderRateWindow
current_window now none = record { window_start = now; count = 0 }
current_window now (some win) =
    if leb ((win.window_start + sender_rate_window_secs) % 2 ^ 64) now
    then record { window_start = now; count = 0 }
    else win

pub sent_by : Text → List OfflineMessage → ℕ
sent_by from [] = 0
sent_by from (m ∷ queue) =
    let rest = sent_by from queue in if m.from_ext == from then rest + 1 else rest

pub sender_total : Text → Dict Text (List OfflineMessage) → ℕ
unfolding sent_by
sender_total from [] = 0
sender_total from ((ext, queue) ∷ map) = sent_by from queue + sender_total from map

pub total : Dict Text (List OfflineMessage) → ℕ
total [] = 0
total ((ext, queue) ∷ map) = length queue + total map

abbrev pub or_empty : Option (List OfflineMessage) → List OfflineMessage
or_empty none = []
or_empty (some queue) = queue

-- `pop_front` of a full queue.
abbrev pub pop_full : List OfflineMessage → List OfflineMessage
pop_full [] = []
pop_full (m ∷ queue) = if leb max_offline_messages (length (m ∷ queue)) then queue else m ∷ queue

-- Steps 3 and 4 and the push, on the pruned table.
pub push_message :
    ℕ
    → Text
    → Text
    → Text
    → Dict Text (List OfflineMessage)
    → Dict Text (List OfflineMessage) × StoreOutcome
push_message now callee from request map =
    if leb sender_offline_quota (sender_total from map)
    then (map, quota_exceeded)
    else if leb max_total_offline_messages (total map)
    then (map, capacity_full)
    else (let queue = pop_full (or_empty (get callee map)) in
        let message : OfflineMessage = record {
          from_ext = from;
          original_request = request;
          received_at = now;
        } in
        (insert callee (queue ++ (message ∷ [])) map, stored))

pub store_offline_message : ℕ → Text → Text → Text → Offline → Offline × StoreOutcome
store_offline_message now callee from request s =
    let win = current_window now (get from s.sender_rates) in
    let counted : SenderRateWindow = record win { count = win.count + 1 } in
    let (map, outcome) =
      push_message now callee from request (prune_expired now s.offline_messages) in
    if leb sender_rate_limit win.count
    then (record s { sender_rates = insert from win s.sender_rates }, rate_limited)
    else (
      record { offline_messages = map; sender_rates = insert from counted s.sender_rates },
      outcome,
    )

-- `deliver_offline_messages`, in its steps. It takes the queue out of the table, less what has
-- expired; other requests may store messages while it sends.
pub take_messages : ℕ → Text → Offline → Offline × List OfflineMessage
take_messages now extension s = (
  record s { offline_messages = remove extension s.offline_messages },
  retain (live now) (or_empty (get extension s.offline_messages)),
)

-- The loop that sends: `sends` says of a message whether the sink takes it. What is left begins
-- with the message that failed.
pub send_messages :
    (OfflineMessage → Bool) → List OfflineMessage → List OfflineMessage × List OfflineMessage
send_messages sends [] = ([], [])
send_messages sends (m ∷ pending) = elim (sends m) [
  | false ↦ ([], m ∷ pending)
  | true ↦ let (delivered, rest) = send_messages sends pending in (m ∷ delivered, rest)
]

-- What was not delivered goes back in front of what has arrived since.
pub put_back : Text → List OfflineMessage → Offline → Offline
unfolding merge_back
put_back extension pending s = record s {
  offline_messages =
      insert extension (merge_back (or_empty (get extension s.offline_messages)) pending)
        s.offline_messages;
}

-- After the loop: nothing is left, or the rest is put back.
abbrev pub leave : Text → List OfflineMessage → Offline → Offline
leave extension [] s = s
leave extension (failed ∷ pending) s = put_back extension (failed ∷ pending) s

abbrev pub deliver_taken :
    Text
    → Option (OfflineMessage → Bool)
    → (Offline → Offline)
    → List OfflineMessage
    → Offline
    → Offline
deliver_taken extension sink meanwhile [] taken = taken
deliver_taken extension none meanwhile (first ∷ more) taken =
    put_back extension (first ∷ more) (meanwhile taken)
deliver_taken extension (some sends) meanwhile (first ∷ more) taken =
    leave extension (send_messages sends (first ∷ more)).1 (meanwhile taken)

-- The whole delivery: `sink` is the way out, if the extension has one, and `meanwhile` what other
-- requests do to the tables between taking the queue and putting back what is left.
pub deliver_offline_messages :
    ℕ → Text → Option (OfflineMessage → Bool) → (Offline → Offline) → Offline → Offline
unfolding take_messages
deliver_offline_messages now extension sink meanwhile s =
    let (taken, messages) = take_messages now extension s in
    deliver_taken extension sink meanwhile messages taken
