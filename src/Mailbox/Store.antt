-- ===== src/Mailbox/Store.antt =====
-- The durable side of the mailbox. `agent_mailbox` and its reads and acknowledgements are those of
-- capslock/storage/repositories/collaboration.py; the run steps that record what was delivered, and
-- the receipts of older versions, are those of capslock/storage/repositories/mailbox.py.
pub mod Batches
pub mod Draining
pub mod Rounds
pub mod Acknowledging
pub mod Delivering
pub mod Returning
use Prim.Native.Nat.{Ordering, min, max}
use Prim.Native.String.{compare as compare_text}
use caps_lock.Prelude.{
  ℕ, suc, ◌+◌, ◌≡◌, ◌↔◌, Bool, true, false, not, ◌&&◌, ◌||◌, Option, none, some, List, [], ◌∷◌,
  ◌++◌, String, map, arith, if◌then◌else◌, bool_eq, Eq, ◌==◌, mem, string_eq, number_eq, nat_eq,
  leb, ltb, length, take, drop, keep, any, all, Outcome, return, raise,
}
use caps_lock.Table.{update_where, row_count}

-- class MailboxMessageKind
pub data MessageKind : Type 0 where
  instruction question response progress artifact_offer cancel : MessageKind

pub data MessageStatus : Type 0 where
  queued delivered acknowledged expired : MessageStatus

-- A row of `agent_mailbox`, with the columns that delivery reads. `payload_bytes` is the length of
-- the encoded payload, and `intact` whether it has the digest that is stored beside it.
pub record Message : Type 0 where
  pub id : String
  pub task_id : Option String
  pub sender_address : String
  pub recipient_address : String
  pub reply_to_message_id : Option String
  pub kind : MessageKind
  pub payload : String
  pub payload_bytes : ℕ
  pub intact : Bool
  pub delivery_suspended : Bool
  pub status : MessageStatus
  pub created_at : ℕ
  pub delivered_at : Option ℕ
  pub acknowledged_at : Option ℕ

pub data MailboxError : Type 0 where
  digest_mismatch not_recipient no_messages wrong_session over_budget background_failure :
      MailboxError

abbrev pub has_message_id : String → Message → Bool
has_message_id identifier m = m.id == identifier

abbrev pub message_ids : List Message → List String
message_ids rows = map (λ m. m.id) rows

-- status IN ('queued','delivered')
abbrev pub is_open : MessageStatus → Bool
is_open queued = true
is_open delivered = true
is_open _ = false

abbrev pub in_tasks : Option (List String) → Option String → Bool
in_tasks none task = true
in_tasks (some tasks) none = true
in_tasks (some tasks) (some task) = mem task tasks

-- the WHERE clause of `read_mailbox_batch`; the receiver gives no reply_to_message_id
abbrev pub readable : String → Option (List String) → Message → Bool
readable address tasks m =
    m.recipient_address == address
    && not m.delivery_suspended
    && is_open m.status
    && in_tasks tasks m.task_id

-- message_kind IN ('instruction','question','response','cancel')
abbrev pub is_urgent : MessageKind → Bool
is_urgent progress = false
is_urgent artifact_offer = false
is_urgent _ = true

abbrev text_le : String → String → Bool
text_le a b = elim (compare_text a b) [ Ordering.gt ↦ false | _ ↦ true ]

-- ORDER BY created_at,id
abbrev pub not_after : Message → Message → Bool
not_after m n =
    if nat_eq m.created_at n.created_at then text_le m.id n.id else leb m.created_at n.created_at

unfoldable pub insert_message : Message → List Message → List Message
insert_message m [] = m ∷ []
insert_message m (n ∷ rows) = if not_after m n then m ∷ n ∷ rows else n ∷ insert_message m rows

unfoldable pub sorted : List Message → List Message
unfolding insert_message
sorted [] = []
sorted (m ∷ rows) = insert_message m (sorted rows)

-- the loop of `bounded_messages`, which breaks at the first message that does not fit
unfoldable pub bounded_from : (limit max_bytes count total : ℕ) → List Message → List Message
bounded_from limit max_bytes count total [] = []
bounded_from limit max_bytes count total (m ∷ rows) =
    let rest = bounded_from limit max_bytes (count + 1) (total + m.payload_bytes) rows in
    if leb limit count || ltb max_bytes (total + m.payload_bytes) then [] else m ∷ rest

pub record Batch : Type 0 where
  pub messages : List Message
  pub has_more : Bool

unfoldable pub bounded_messages : (limit max_bytes : ℕ) → List Message → Batch
unfolding bounded_from
bounded_messages limit max_bytes messages =
    let selected = bounded_from limit max_bytes 0 0 messages in
    record { messages = selected; has_more = ltb (length selected) (length messages) }

unfoldable pub group :
    (address : String) → Option (List String) → Bool → ℕ → List Message → List Message
unfolding sorted
group address tasks urgent limit rows =
    take (limit + 1)
      (sorted (keep (λ m. readable address tasks m && (is_urgent m.kind == urgent)) rows))

abbrev pub interleave : ℕ → List Message → List Message → List Message
interleave limit active passive =
    let priority = if nat_eq (length passive) 0 then limit else min 24 limit in
    take priority active ++ (passive ++ drop priority active)

-- `read_mailbox_batch` at its default arguments but for the limits, which it clamps
unfoldable pub read_mailbox_batch :
    (address : String)
    → Option (List String)
    → (limit max_bytes : ℕ) → List Message
    → Outcome MailboxError Batch
unfolding group bounded_messages
read_mailbox_batch address tasks limit max_bytes rows =
    let n = min (max limit 1) 32 in
    let active = group address tasks true n rows in
    let passive = group address tasks false n rows in
    if all (λ m. m.intact) (active ++ passive)
    then return (bounded_messages n (min max_bytes 65536) (interleave n active passive))
    else raise digest_mismatch

-- list(dict.fromkeys(ids))
unfoldable pub unique : List String → List String
unique [] = []
unique (x ∷ xs) = x ∷ keep (λ y. not (y == x)) (unique xs)

abbrev or_now : Option ℕ → ℕ → Option ℕ
or_now none t = some t
or_now (some u) t = some u

abbrev pub acknowledge_row : ℕ → Message → Message
acknowledge_row now m = record m {
  status = acknowledged;
  delivered_at = or_now m.delivered_at now;
  acknowledged_at = or_now m.acknowledged_at now;
}

abbrev not_expired : MessageStatus → Bool
not_expired expired = false
not_expired _ = true

unfoldable pub acknowledge_mailbox_batch :
    List String
    → (address : String) → (now : ℕ) → List Message
    → Outcome MailboxError (List Message)
unfolding unique update_where
acknowledge_mailbox_batch [] address now rows = return rows
acknowledge_mailbox_batch (i ∷ ids) address now rows =
    let identifiers = unique (i ∷ ids) in
    let found = keep (λ (m : Message). mem m.id identifiers) rows in
    if not (nat_eq (length found) (length identifiers))
      || any (λ (m : Message). not (m.recipient_address == address) || not (not_expired m.status))
          found
    then raise not_recipient
    else return (update_where (λ m. mem m.id identifiers) (acknowledge_row now) rows)
