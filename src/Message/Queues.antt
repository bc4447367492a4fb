-- ===== src/Message/Queues.antt =====
-- What a queue holds after a store, a merge and a trim.
use native.Mathlib.Decide.{dec_lt}
use minghe.Prelude.{ℕ, suc, ◌-◌, ◌≡◌, ◌≢◌, refl, false, none, List, [], ◌∷◌, ◌++◌, arith}
use minghe.Prelude.{length, drop, retain, if◌then◌else◌, ◌==◌, list_eq, list_beq_iff}
use minghe.Prelude.Dict.{Dict, Distinct, get, get-insert}
use minghe.Text.{Text}
use minghe.Message.{
  Offline, OfflineMessage, stored, live, keep_queue, prune_expired, trim_front, merge_back,
  or_empty, pop_full, push_message, store_offline_message, max_offline_messages,
}

trim_front_lem :
    (queue : List OfflineMessage)
    → trim_front queue ≡ drop (length queue - max_offline_messages) queue
unfolding trim_front
trim_front_lem [] = refl
trim_front_lem (m ∷ queue) = elim (dec_lt max_offline_messages (suc (length queue))) [
  | yes over ↦
      let e : suc (length queue) - max_offline_messages
          ≡ suc (length queue - max_offline_messages) =
        omega arith in
      rw e (ground (arith, trim_front_lem queue))
  | no fits ↦
      let e : suc (length queue) - max_offline_messages ≡ 0 = omega arith in rw e (ground arith)
]

-- A merge keeps the order, old messages first, and of too many messages exactly the newest 100.
pub merge_back_lem :
    (queue pending : List OfflineMessage)
    → merge_back queue pending
      ≡ drop (length (pending ++ queue) - max_offline_messages) (pending ++ queue)
unfolding merge_back
merge_back_lem queue pending = trim_front_lem (pending ++ queue)

get-keep_queue :
    (ext k : Text) (queue : List OfflineMessage) (rest : Dict Text (List OfflineMessage))
    → (ext ≡ k → get k rest ≡ none)
    → or_empty (get k (keep_queue ext queue rest))
      ≡ (if ext == k then queue else or_empty (get k rest))
unfolding get
get-keep_queue ext k [] rest h = ground (arith, list_beq_iff ext k)
get-keep_queue ext k (m ∷ queue) rest h = ground arith

absent-keep :
    (ext k : Text) (queue : List OfflineMessage) (rest : Dict Text (List OfflineMessage))
    → (ext == k) ≡ false
    → get k rest ≡ none
    → get k (keep_queue ext queue rest) ≡ none
unfolding get
absent-keep ext k [] rest other h = h
absent-keep ext k (m ∷ queue) rest other h = ground arith

absent-prune :
    (now : ℕ) (k : Text) (map : Dict Text (List OfflineMessage))
    → get k map ≡ none
    → get k (prune_expired now map) ≡ none
unfolding get prune_expired
absent-prune now k [] h = refl
absent-prune now k ((ext, queue) ∷ map) h =
    absent-keep ext k (retain (live now) queue) (prune_expired now map) (ground arith)
      (absent-prune now k map (ground arith))

-- In a table with each extension once, the pruned queue of each extension holds its messages that
-- have not expired, in order.
pub get-prune_expired :
    (now : ℕ) (k : Text) (map : Dict Text (List OfflineMessage))
    → Distinct map
    → or_empty (get k (prune_expired now map)) ≡ retain (live now) (or_empty (get k map))
unfolding prune_expired get
get-prune_expired now k [] d = refl
get-prune_expired now k ((ext, queue) ∷ map) d = ground (
  arith,
  get-keep_queue ext k (retain (live now) queue) (prune_expired now map),
  get-prune_expired now k map d.1,
  absent-prune now ext map d.0,
  list_beq_iff ext k,
)

retain_twice :
    (now : ℕ) (queue : List OfflineMessage)
    → retain (live now) (retain (live now) queue) ≡ retain (live now) queue
retain_twice now [] = refl
retain_twice now (m ∷ queue) = ground (arith, retain_twice now queue)

push-stored :
    (now : ℕ) (callee from request x : Text) (map : Dict Text (List OfflineMessage))
    → (push_message now callee from request map).1 ≡ stored
    → or_empty (get x (push_message now callee from request map).0) ≡ (
        if callee == x
        then pop_full (or_empty (get x map))
          ++ (record { from_ext = from; original_request = request; received_at = now } ∷ [])
        else or_empty (get x map))
unfolding push_message
push-stored now callee from request x map h =
    let m : OfflineMessage = record {
      from_ext = from;
      original_request = request;
      received_at = now;
    } in
    ground (
      arith,
      get-insert callee x (pop_full (or_empty (get callee map)) ++ (m ∷ [])) map,
      list_beq_iff callee x,
    )

push-refused :
    (now : ℕ) (callee from request : Text) (map : Dict Text (List OfflineMessage))
    → (push_message now callee from request map).1 ≢ stored
    → (push_message now callee from request map).0 ≡ map
unfolding push_message
push-refused now callee from request map h = ground arith

-- In a table with each extension once, a message that is stored is the last one of the callee's
-- queue, behind the live ones of before, the oldest of which has made room if there were 100;
-- every other queue loses what has expired.
pub store-stored :
    (now : ℕ) (callee from request x : Text) (s : Offline)
    → Distinct s.offline_messages
    → (store_offline_message now callee from request s).1 ≡ stored
    → let before = retain (live now) (or_empty (get x s.offline_messages)) in
      or_empty (get x (store_offline_message now callee from request s).0.offline_messages) ≡ (
        if callee == x
        then pop_full before
          ++ (record { from_ext = from; original_request = request; received_at = now } ∷ [])
        else before)
unfolding store_offline_message
store-stored now callee from request x s d h =
    let pruned = prune_expired now s.offline_messages in
    rw (← get-prune_expired now x s.offline_messages d)
      (ground (arith, push-stored now callee from request x pruned))

-- In a table with each extension once, a message that is refused, for whatever reason, costs no
-- queue a message that is still live.
pub store-refused :
    (now : ℕ) (callee from request x : Text) (s : Offline)
    → Distinct s.offline_messages
    → (store_offline_message now callee from request s).1 ≢ stored
    → retain
        (live now)
        (or_empty (get x (store_offline_message now callee from request s).0.offline_messages))
      ≡ retain (live now) (or_empty (get x s.offline_messages))
unfolding store_offline_message
store-refused now callee from request x s d h =
    let pruned = prune_expired now s.offline_messages in
    ground (
      arith,
      push-refused now callee from request pruned,
      get-prune_expired now x s.offline_messages d,
      retain_twice now (or_empty (get x s.offline_messages)),
    )
