-- ===== src/Message/Runs.antt =====
-- Stores and deliveries of messages one after another.
use minghe.Prelude.{
  ℕ, ◌+◌, ◌≤◌, ◌≡◌, Bool, Option, none, some, List, [], ◌∷◌, ◌++◌, arith, length, length-append,
  length-retain-le, retain, list_eq, list_beq_iff,
}
use minghe.Prelude.Dict.{Dict, get, insert, remove, get-remove, All-insert}
use minghe.Text.{Text}
use minghe.Message.{
  Offline, OfflineMessage, live, or_empty, sent_by, sender_total, total, trim_front, merge_back,
  send_messages, take_messages, put_back, leave, deliver_taken, deliver_offline_messages,
  store_offline_message, max_offline_messages, max_total_offline_messages, sender_offline_quota,
}
use minghe.Message.Sums.{
  AreShort, sent_by-append, sent_by-retain-le, total-insert, sender_total-insert,
}
use minghe.Message.Limits.{IsWithin, queue-get, store-IsWithin}

-- No more messages, in all and of each sender.
record IsPart (part whole : List OfflineMessage) : Type 0 where
  all : length part ≤ length whole
  senders : (from : Text) → sent_by from part ≤ sent_by from whole

unsent-IsPart :
    (sends : OfflineMessage → Bool) (pending : List OfflineMessage)
    → IsPart (send_messages sends pending).1 pending
unfolding send_messages sent_by
unsent-IsPart sends [] = record { all = omega arith; senders = λ from. omega arith }
unsent-IsPart sends (m ∷ pending) =
    let p = unsent-IsPart sends pending in
    record { all = ground (arith, p.all); senders = λ from. ground (arith, p.senders from) }

trimmed-IsPart : (queue : List OfflineMessage) → IsPart (trim_front queue) queue
unfolding trim_front sent_by
trimmed-IsPart [] = record { all = omega arith; senders = λ from. omega arith }
trimmed-IsPart (m ∷ queue) =
    let p = trimmed-IsPart queue in
    record { all = ground (arith, p.all); senders = λ from. ground (arith, p.senders from) }

merged-IsPart : (pending : List OfflineMessage) → IsPart (merge_back [] pending) pending
unfolding merge_back sent_by
merged-IsPart pending =
    let p = trimmed-IsPart (pending ++ []) in
    record {
      all = omega (arith, p.all, length-append pending []);
      senders = λ from. omega (arith, p.senders from, sent_by-append from pending []);
    }

total-remove-le :
    (k : Text) (map : Dict Text (List OfflineMessage))
    → total (remove k map) + length (or_empty (get k map)) ≤ total map
unfolding total remove get
total-remove-le k [] = omega arith
total-remove-le k ((ext, q) ∷ map) = ground (arith, total-remove-le k map)

sender_total-remove-le :
    (from k : Text) (map : Dict Text (List OfflineMessage))
    → sender_total from (remove k map) + sent_by from (or_empty (get k map)) ≤ sender_total from map
unfolding sender_total remove get sent_by
sender_total-remove-le from k [] = omega arith
sender_total-remove-le from k ((ext, q) ∷ map) = ground (arith, sender_total-remove-le from k map)

removed-AreShort :
    (k : Text) (map : Dict Text (List OfflineMessage)) → AreShort map → AreShort (remove k map)
unfolding remove
removed-AreShort k [] h = tt
removed-AreShort k ((ext, q) ∷ map) h = ground (arith, removed-AreShort k map h.1)

taken-IsWithin :
    (now : ℕ) (ext : Text) (s : Offline) → IsWithin s → IsWithin (take_messages now ext s).0
unfolding take_messages
taken-IsWithin now ext s h = record {
  queues = removed-AreShort ext s.offline_messages h.queues;
  all = omega (arith, h.all, total-remove-le ext s.offline_messages);
  senders =
      λ from. omega (arith, h.senders from, sender_total-remove-le from ext s.offline_messages);
  rates = h.rates;
}

-- A part of the queue goes back to where it was taken from.
put_back-IsWithin :
    (now : ℕ) (ext : Text) (part : List OfflineMessage) (s : Offline)
    → IsPart part (or_empty (get ext s.offline_messages))
    → IsWithin s
    → IsWithin (put_back ext part (take_messages now ext s).0)
unfolding put_back take_messages
put_back-IsWithin now ext part s p h =
    let map = s.offline_messages in
    let gone : or_empty (get ext (remove ext map)) ≡ [] =
      ground (arith, get-remove ext ext map, list_beq_iff ext ext) in
    let queue = merge_back [] part in
    let m = merged-IsPart part in
    let short : AreShort (insert ext queue (remove ext map)) =
      All-insert (λ (e : Text × List OfflineMessage). length e.1 ≤ max_offline_messages) ext queue
        (remove ext map) (omega (arith, m.all, p.all, queue-get ext map h.queues))
        (removed-AreShort ext map h.queues) in
    let all : total (insert ext queue (remove ext map)) ≤ max_total_offline_messages = omega (
      arith,
      h.all,
      m.all,
      p.all,
      total-remove-le ext map,
      total-insert ext queue (remove ext map),
    ) in
    let senders : (from : Text)
        → sender_total from (insert ext queue (remove ext map)) ≤ sender_offline_quota =
      λ from. omega (
        arith,
        h.senders from,
        m.senders from,
        p.senders from,
        sender_total-remove-le from ext map,
        sender_total-insert from ext queue (remove ext map),
      ) in
    rw gone (record { queues = short; all = all; senders = senders; rates = h.rates })

leave-IsWithin :
    (now : ℕ) (ext : Text) (part : List OfflineMessage) (s : Offline)
    → IsPart part (or_empty (get ext s.offline_messages))
    → IsWithin s
    → IsWithin (leave ext part (take_messages now ext s).0)
leave-IsWithin now ext [] s p h = taken-IsWithin now ext s h
leave-IsWithin now ext (m ∷ part) s p h = put_back-IsWithin now ext (m ∷ part) s p h

delivered-IsWithin :
    (now : ℕ) (ext : Text) (sink : Option (OfflineMessage → Bool)) (messages : List OfflineMessage)
    (s : Offline)
    → IsPart messages (or_empty (get ext s.offline_messages))
    → IsWithin s
    → IsWithin (deliver_taken ext sink (λ t. t) messages (take_messages now ext s).0)
delivered-IsWithin now ext sink [] s p h = taken-IsWithin now ext s h
delivered-IsWithin now ext none (m ∷ messages) s p h =
    put_back-IsWithin now ext (m ∷ messages) s p h
delivered-IsWithin now ext (some sends) (m ∷ messages) s p h =
    let u = unsent-IsPart sends (m ∷ messages) in
    leave-IsWithin now ext (send_messages sends (m ∷ messages)).1 s
      (record {
        all = omega (arith, u.all, p.all);
        senders = λ from. omega (arith, u.senders from, p.senders from);
      })
      h

-- What requests do to the tables: a message is stored, or the queue of an extension is delivered
-- over its way out, if there is one, with nothing stored meanwhile.
pub data Request : Type 0 where
  stores : (now : ℕ) (callee from request : Text) → Request
  delivers : (now : ℕ) (extension : Text) (sink : Option (OfflineMessage → Bool)) → Request

abbrev pub serve : Request → Offline → Offline
serve (stores now callee from request) s = (store_offline_message now callee from request s).0
serve (delivers now extension sink) s = deliver_offline_messages now extension sink (λ t. t) s

unfoldable pub serve_all : List Request → Offline → Offline
serve_all [] s = s
serve_all (r ∷ rs) s = serve_all rs (serve r s)

serve-IsWithin : (r : Request) (s : Offline) → IsWithin s → IsWithin (serve r s)
unfolding deliver_offline_messages take_messages
serve-IsWithin (stores now callee from request) s h = store-IsWithin now callee from request s h
serve-IsWithin (delivers now extension sink) s h =
    let waiting = or_empty (get extension s.offline_messages) in
    delivered-IsWithin now extension sink (retain (live now) waiting) s
      (record {
        all = length-retain-le (live now) waiting;
        senders = λ from. sent_by-retain-le from now waiting;
      })
      h

-- From tables within the limits, for example empty ones, whatever messages are stored and whatever
-- queues are delivered, wholly, in part or not at all, one after another, the tables hold at most
-- 100 messages in a queue, 10000 in all, 500 of one sender and a count of 120 in a sender's window.
-- A message that is stored while a delivery has its queue out is no part of this.
pub serve_all-IsWithin :
    (requests : List Request) (s : Offline) → IsWithin s → IsWithin (serve_all requests s)
unfolding serve_all
serve_all-IsWithin [] s h = h
serve_all-IsWithin (r ∷ rs) s h = serve_all-IsWithin rs (serve r s) (serve-IsWithin r s h)
