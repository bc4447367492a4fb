-- ===== src/Message/Sums.antt =====
-- The totals of the tables of offline messages, and what a write and a prune do to them.
use minghe.Prelude.{ℕ, ◌+◌, ◌≤◌, ◌≡◌, refl, List, [], ◌∷◌, ◌++◌, arith}
use minghe.Prelude.{length, length-retain-le, retain, All, list_eq}
use minghe.Prelude.Dict.{Dict, get, insert}
use minghe.Text.{Text}
use minghe.Message.{
  OfflineMessage, SenderRateWindow, live, keep_queue, prune_expired, or_empty, sent_by,
  sender_total, total, max_offline_messages, sender_rate_limit,
}

abbrev pub AreShort : Dict Text (List OfflineMessage) → Type 0
AreShort map = All (λ (e : Text × List OfflineMessage). length e.1 ≤ max_offline_messages) map

abbrev pub AreSlow : Dict Text SenderRateWindow → Type 0
AreSlow rates = All (λ (e : Text × SenderRateWindow). e.1.count ≤ sender_rate_limit) rates

pub sent_by-append :
    (from : Text) (xs ys : List OfflineMessage)
    → sent_by from (xs ++ ys) ≡ sent_by from xs + sent_by from ys
unfolding sent_by
sent_by-append from [] ys = omega arith
sent_by-append from (m ∷ xs) ys = ground (arith, sent_by-append from xs ys)

pub sent_by-retain-le :
    (from : Text) (now : ℕ) (xs : List OfflineMessage)
    → sent_by from (retain (live now) xs) ≤ sent_by from xs
unfolding sent_by
sent_by-retain-le from now [] = omega arith
sent_by-retain-le from now (m ∷ xs) = ground (arith, sent_by-retain-le from now xs)

-- Replacing a queue changes the sums by the difference of the queues.
pub total-insert :
    (k : Text) (queue : List OfflineMessage) (map : Dict Text (List OfflineMessage))
    → total (insert k queue map) + length (or_empty (get k map)) ≡ total map + length queue
unfolding total insert get
total-insert k queue [] = omega arith
total-insert k queue ((ext, q) ∷ map) = ground (arith, total-insert k queue map)

pub sender_total-insert :
    (from k : Text) (queue : List OfflineMessage) (map : Dict Text (List OfflineMessage))
    → sender_total from (insert k queue map) + sent_by from (or_empty (get k map))
      ≡ sender_total from map + sent_by from queue
unfolding sender_total insert get sent_by
sender_total-insert from k queue [] = omega arith
sender_total-insert from k queue ((ext, q) ∷ map) =
    ground (arith, sender_total-insert from k queue map)

pub keep-total :
    (ext : Text) (q : List OfflineMessage) (rest : Dict Text (List OfflineMessage))
    → total (keep_queue ext q rest) ≡ length q + total rest
unfolding total
keep-total ext [] rest = omega arith
keep-total ext (m ∷ q) rest = refl

pub keep-sender :
    (from ext : Text) (q : List OfflineMessage) (rest : Dict Text (List OfflineMessage))
    → sender_total from (keep_queue ext q rest) ≡ sent_by from q + sender_total from rest
unfolding sender_total
keep-sender from ext [] rest = unfold sent_by in omega arith
keep-sender from ext (m ∷ q) rest = refl

pub prune-total :
    (now : ℕ) (map : Dict Text (List OfflineMessage)) → total (prune_expired now map) ≤ total map
unfolding total prune_expired
prune-total now [] = omega arith
prune-total now ((ext, q) ∷ map) = omega (
  arith,
  keep-total ext (retain (live now) q) (prune_expired now map),
  prune-total now map,
  length-retain-le (live now) q,
)

pub prune-sender :
    (now : ℕ) (from : Text) (map : Dict Text (List OfflineMessage))
    → sender_total from (prune_expired now map) ≤ sender_total from map
unfolding sender_total prune_expired
prune-sender now from [] = omega arith
prune-sender now from ((ext, q) ∷ map) = omega (
  arith,
  keep-sender from ext (retain (live now) q) (prune_expired now map),
  prune-sender now from map,
  sent_by-retain-le from now q,
)

pub keep-queues :
    (ext : Text) (q : List OfflineMessage) (rest : Dict Text (List OfflineMessage))
    → length q ≤ max_offline_messages
    → AreShort rest
    → AreShort (keep_queue ext q rest)
keep-queues ext [] rest h r = r
keep-queues ext (m ∷ q) rest h r = (h, r)

pub prune-queues :
    (now : ℕ) (map : Dict Text (List OfflineMessage))
    → AreShort map
    → AreShort (prune_expired now map)
unfolding prune_expired
prune-queues now [] h = tt
prune-queues now ((ext, q) ∷ map) h =
    keep-queues ext (retain (live now) q) (prune_expired now map)
      (omega (arith, length-retain-le (live now) q, h.0)) (prune-queues now map h.1)
