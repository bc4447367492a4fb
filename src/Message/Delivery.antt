-- ===== src/Message/Delivery.antt =====
-- What a delivery sends, and what it leaves for the next one.
use minghe.Prelude.{
  ℕ, ◌∙◌, ap, ◌+◌, ◌-◌, ◌≤◌, ◌<◌, ◌≡◌, refl, Bool, true, false, Option, none, some, List, [], ◌∷◌,
  ◌++◌, arith,
}
use minghe.Prelude.{
  length, length-append, drop, retain, All, if◌then◌else◌, ◌==◌, list_eq, list_beq_iff,
}
use minghe.Prelude.Dict.{get, get-insert}
use minghe.Text.{Text}
use minghe.Message.{
  Offline, OfflineMessage, live, or_empty, merge_back, send_messages, put_back, take_messages,
  deliver_taken, leave, deliver_offline_messages, max_offline_messages,
}
use minghe.Message.Queues.{merge_back_lem}

-- The messages of the extension that have not expired.
abbrev pub waiting : ℕ → Text → Offline → List OfflineMessage
waiting now ext s = retain (live now) (or_empty (get ext s.offline_messages))

-- What the sink, if there is one, does not take.
abbrev pub undelivered : Option (OfflineMessage → Bool) → List OfflineMessage → List OfflineMessage
undelivered none pending = pending
undelivered (some sends) pending = (send_messages sends pending).1

-- The first of the messages is one that the sink refuses, if there are any.
abbrev pub StartsRefused : (OfflineMessage → Bool) → List OfflineMessage → Type 0
StartsRefused sends [] = Unit
StartsRefused sends (m ∷ rest) = sends m ≡ false

-- The sink gets the messages in order up to the first that it refuses, and that one and all
-- behind it are what is left.
pub send_messages-splits :
    (sends : OfflineMessage → Bool) (pending : List OfflineMessage)
    → ((send_messages sends pending).0 ++ (send_messages sends pending).1 ≡ pending)
      × All (λ m. sends m ≡ true) (send_messages sends pending).0
      × StartsRefused sends (send_messages sends pending).1
unfolding send_messages
send_messages-splits sends [] = (refl, tt, tt)
send_messages-splits sends (m ∷ pending) = ground (arith, send_messages-splits sends pending)

get-put_back :
    (ext x : Text) (pending : List OfflineMessage) (s : Offline)
    → or_empty (get x (put_back ext pending s).offline_messages) ≡ (
        if ext == x
        then merge_back (or_empty (get x s.offline_messages)) pending
        else or_empty (get x s.offline_messages))
unfolding put_back
get-put_back ext x pending s = ground (
  arith,
  get-insert ext x (merge_back (or_empty (get ext s.offline_messages)) pending) s.offline_messages,
  list_beq_iff ext x,
)

merge_back_fits :
    (queue pending : List OfflineMessage)
    → length pending + length queue ≤ max_offline_messages
    → merge_back queue pending ≡ pending ++ queue
merge_back_fits queue pending fits =
    let e : length (pending ++ queue) - max_offline_messages ≡ 0 =
      omega (arith, length-append pending queue) in
    merge_back_lem queue pending ∙ ap (λ n. drop n (pending ++ queue)) e

put_back-keeps :
    (ext : Text) (pending : List OfflineMessage) (s : Offline)
    → length pending + length (or_empty (get ext s.offline_messages)) ≤ max_offline_messages
    → or_empty (get ext (put_back ext pending s).offline_messages)
      ≡ pending ++ or_empty (get ext s.offline_messages)
put_back-keeps ext pending s fits = ground (
  arith,
  get-put_back ext ext pending s,
  merge_back_fits (or_empty (get ext s.offline_messages)) pending fits,
  list_beq_iff ext ext,
)

leave-keeps :
    (ext : Text) (pending : List OfflineMessage) (s : Offline)
    → length pending + length (or_empty (get ext s.offline_messages)) ≤ max_offline_messages
    → or_empty (get ext (leave ext pending s).offline_messages)
      ≡ pending ++ or_empty (get ext s.offline_messages)
leave-keeps ext [] s fits = refl
leave-keeps ext (m ∷ pending) s fits = put_back-keeps ext (m ∷ pending) s fits

taken-keeps :
    (ext : Text) (sink : Option (OfflineMessage → Bool)) (meanwhile : Offline → Offline)
    (messages : List OfflineMessage) (taken : Offline)
    → 0 < length messages
    → length (undelivered sink messages)
        + length (or_empty (get ext (meanwhile taken).offline_messages))
      ≤ max_offline_messages
    → or_empty (get ext (deliver_taken ext sink meanwhile messages taken).offline_messages)
      ≡ undelivered sink messages ++ or_empty (get ext (meanwhile taken).offline_messages)
taken-keeps ext sink meanwhile [] taken some_wait fits = absurd (omega arith)
taken-keeps ext none meanwhile (m ∷ messages) taken some_wait fits =
    put_back-keeps ext (m ∷ messages) (meanwhile taken) fits
taken-keeps ext (some sends) meanwhile (m ∷ messages) taken some_wait fits =
    leave-keeps ext (send_messages sends (m ∷ messages)).1 (meanwhile taken) fits

-- If an extension has messages that have not expired then, whatever requests run meanwhile, what
-- the sink did not take is afterwards in the queue, in order and in front of what has arrived
-- since, unless the two together are over 100.
pub deliver-keeps :
    (now : ℕ) (ext : Text) (sink : Option (OfflineMessage → Bool)) (meanwhile : Offline → Offline)
    (s : Offline)
    → let left = undelivered sink (waiting now ext s) in
      let since = or_empty (get ext (meanwhile (take_messages now ext s).0).offline_messages) in
      0 < length (waiting now ext s)
      → length left + length since ≤ max_offline_messages
      → or_empty (get ext (deliver_offline_messages now ext sink meanwhile s).offline_messages)
        ≡ left ++ since
unfolding deliver_offline_messages take_messages
deliver-keeps now ext sink meanwhile s some_wait fits =
    taken-keeps ext sink meanwhile (waiting now ext s) (take_messages now ext s).0 some_wait fits
