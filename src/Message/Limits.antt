-- ===== src/Message/Limits.antt =====
-- The limits on what senders can make the server keep.

use minghe.Prelude.{ℕ, ◌+◌, ◌≤◌, ◌<◌, List, [], ◌∷◌, ◌++◌, arith}
use minghe.Prelude.{length, length-append, leb, if-both, list_eq, list_beq_iff}
use minghe.Prelude.Dict.{Dict, get, insert, All-insert}
use minghe.Text.{Text}
use minghe.Message.{
  Offline, OfflineMessage, SenderRateWindow, StoreOutcome, prune_expired, or_empty, pop_full,
  sent_by, sender_total, total, current_window, push_message, store_offline_message,
  max_offline_messages, max_total_offline_messages, sender_offline_quota, sender_rate_limit,
}
use minghe.Message.Sums.{
  AreShort, AreSlow, sent_by-append, total-insert, sender_total-insert, prune-total, prune-sender,
  prune-queues,
}

-- At most 100 messages in a queue, 10000 in all, 500 of one sender, and 120 in a sender's window.
pub record IsWithin (s : Offline) : Type 0 where
  pub queues : AreShort s.offline_messages
  pub all : total s.offline_messages ≤ max_total_offline_messages
  pub senders : (from : Text) → sender_total from s.offline_messages ≤ sender_offline_quota
  pub rates : AreSlow s.sender_rates

pub queue-get :
    (k : Text) (map : Dict Text (List OfflineMessage))
    → AreShort map
    → length (or_empty (get k map)) ≤ max_offline_messages
unfolding get
queue-get k [] h = omega arith
queue-get k ((ext, q) ∷ map) h = ground (arith, h.0, queue-get k map h.1)

length-pop_full :
    (q : List OfflineMessage)
    → length q ≤ max_offline_messages
    → length (pop_full q) + 1 ≤ max_offline_messages
length-pop_full [] h = omega arith
length-pop_full (m ∷ q) h = ground arith

length-pop_full-le : (q : List OfflineMessage) → length (pop_full q) ≤ length q
length-pop_full-le [] = omega arith
length-pop_full-le (m ∷ q) = ground arith

sent_by-pop_full-le :
    (from : Text) (q : List OfflineMessage) → sent_by from (pop_full q) ≤ sent_by from q
unfolding sent_by
sent_by-pop_full-le from [] = omega arith
sent_by-pop_full-le from (m ∷ q) = ground arith

inserted-senders :
    (now : ℕ) (callee from request x : Text) (map : Dict Text (List OfflineMessage))
    → sender_total x map ≤ sender_offline_quota
    → sender_total from map < sender_offline_quota
    → let m : OfflineMessage = record {
      from_ext = from;
      original_request = request;
      received_at = now;
    } in
      sender_total x (insert callee (pop_full (or_empty (get callee map)) ++ (m ∷ [])) map)
      ≤ sender_offline_quota
unfolding sent_by
inserted-senders now callee from request x map h under =
    let m : OfflineMessage = record {
      from_ext = from;
      original_request = request;
      received_at = now;
    } in
    let q : List OfflineMessage = or_empty (get callee map) in
    ground (
      arith,
      sender_total-insert x callee (pop_full q ++ (m ∷ [])) map,
      sent_by-append x (pop_full q) (m ∷ []),
      sent_by-pop_full-le x q,
      list_beq_iff from x,
    )

push-total :
    (now : ℕ) (callee from request : Text) (map : Dict Text (List OfflineMessage))
    → total map ≤ max_total_offline_messages
    → total (push_message now callee from request map).0 ≤ max_total_offline_messages
unfolding push_message
push-total now callee from request map h =
    let m : OfflineMessage = record {
      from_ext = from;
      original_request = request;
      received_at = now;
    } in
    let q : List OfflineMessage = or_empty (get callee map) in
    ground (
      arith,
      total-insert callee (pop_full q ++ (m ∷ [])) map,
      length-append (pop_full q) (m ∷ []),
      length-pop_full-le q,
    )

push-senders :
    (now : ℕ) (callee from request x : Text) (map : Dict Text (List OfflineMessage))
    → sender_total x map ≤ sender_offline_quota
    → sender_total x (push_message now callee from request map).0 ≤ sender_offline_quota
unfolding push_message
push-senders now callee from request x map h =
    ground (arith, inserted-senders now callee from request x map h)

push-queues :
    (now : ℕ) (callee from request : Text) (map : Dict Text (List OfflineMessage))
    → AreShort map
    → AreShort (push_message now callee from request map).0
unfolding push_message
push-queues now callee from request map h =
    let m : OfflineMessage = record {
      from_ext = from;
      original_request = request;
      received_at = now;
    } in
    let q : List OfflineMessage = or_empty (get callee map) in
    let fits : length (pop_full q ++ (m ∷ [])) ≤ max_offline_messages =
      omega
        (arith, length-append (pop_full q) (m ∷ []), length-pop_full q (queue-get callee map h)) in
    if-both (λ (r : Dict Text (List OfflineMessage) × StoreOutcome). AreShort r.0)
      (leb sender_offline_quota (sender_total from map)) _ _ (λ over. h)
      (λ quota.
        if-both (λ (r : Dict Text (List OfflineMessage) × StoreOutcome). AreShort r.0)
          (leb max_total_offline_messages (total map)) _ _ (λ over. h)
          (λ room.
            All-insert (λ (e : Text × List OfflineMessage). length e.1 ≤ max_offline_messages)
              callee (pop_full q ++ (m ∷ [])) map fits h))

window-count :
    (now : ℕ) (from : Text) (rates : Dict Text SenderRateWindow)
    → AreSlow rates
    → (current_window now (get from rates)).count ≤ sender_rate_limit
unfolding get
window-count now from [] h = omega arith
window-count now from ((k, w) ∷ rates) h = ground (arith, window-count now from rates h.1, h.0)

store-rates :
    (now : ℕ) (callee from request : Text) (s : Offline)
    → AreSlow s.sender_rates
    → AreSlow (store_offline_message now callee from request s).0.sender_rates
unfolding store_offline_message
store-rates now callee from request s h =
    let win = current_window now (get from s.sender_rates) in
    if-both (λ (r : Offline × StoreOutcome). AreSlow r.0.sender_rates)
      (leb sender_rate_limit win.count) _ _
      (λ full.
        All-insert (λ (e : Text × SenderRateWindow). e.1.count ≤ sender_rate_limit) from win
          s.sender_rates (window-count now from s.sender_rates h) h)
      (λ under.
        All-insert (λ (e : Text × SenderRateWindow). e.1.count ≤ sender_rate_limit) from
          (record win { count = win.count + 1 }) s.sender_rates (ground arith) h)

-- Storing a message, whatever its outcome, preserves the limits: from tables with at most 100
-- messages in a queue, 10000 in all, 500 of one sender and a count of 120 in a sender's window, it
-- leads to such tables again. A delivery that puts messages back is no part of this: it does not
-- check the limits on all messages and on those of one sender.
pub store-IsWithin :
    (now : ℕ) (callee from request : Text) (s : Offline)
    → IsWithin s
    → IsWithin (store_offline_message now callee from request s).0
unfolding store_offline_message
store-IsWithin now callee from request s h =
    let pruned = prune_expired now s.offline_messages in
    let all : total pruned ≤ max_total_offline_messages =
      omega (arith, prune-total now s.offline_messages, h.all) in
    let senders : (x : Text) → sender_total x pruned ≤ sender_offline_quota =
      λ x. omega (arith, prune-sender now x s.offline_messages, h.senders x) in
    let queues = prune-queues now s.offline_messages h.queues in
    record {
      queues = ground (arith, push-queues now callee from request pruned queues, h.queues);
      all = ground (arith, push-total now callee from request pruned all, h.all);
      senders = λ x.
          ground (arith, push-senders now callee from request x pruned (senders x), h.senders x);
      rates = store-rates now callee from request s h.rates;
    }
