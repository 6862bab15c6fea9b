-- ===== src/Mailbox/Store/Rounds.antt =====
-- A receiver that reads and acknowledges in rounds (read_mailbox_batch and acknowledge_mailbox_batch of
-- capslock/storage/repositories/collaboration.py), while messages keep arriving.
use caps_lock.Prelude.{
  ℕ, ◌+◌, ◌≡◌, refl, Bool, true, false, not, ◌&&◌, ◌||◌, none, List, [], ◌∷◌, ◌++◌, String, arith,
  ◌==◌, mem, string_eq, bool_eq, leb, keep, return, raise, Outcome,
}
use caps_lock.Table.{row_count, update_where}
use caps_lock.Mailbox.Store.{
  Message, Batch, MailboxError, read_mailbox_batch, acknowledge_mailbox_batch, acknowledge_row,
  unique, message_ids,
}
use caps_lock.Mailbox.Store.Draining.{urgent_for, is_long}

-- what arrives before a read, and the arguments of the read and the acknowledgement
pub record Round : Type 0 where
  pub arrivals : List Message
  pub limit : ℕ
  pub now : ℕ

abbrev pub also :
    List String → Outcome MailboxError (List String) → Outcome MailboxError (List String)
also ids (raise e) = raise e
also ids (return more) = return (ids ++ more)

abbrev pub acked :
    (List Message → Outcome MailboxError (List String))
    → List String
    → Outcome MailboxError (List Message)
    → Outcome MailboxError (List String)
acked next ids (raise e) = raise e
acked next ids (return rows) = also ids (next rows)

abbrev pub handled :
    (List Message → Outcome MailboxError (List String))
    → (address : String) → ℕ
    → List Message
    → Outcome MailboxError Batch
    → Outcome MailboxError (List String)
handled next address now rows (raise e) = raise e
handled next address now rows (return batch) =
    let ids = message_ids batch.messages in
    acked next ids (acknowledge_mailbox_batch ids address now rows)

-- the ids that are delivered, round by round
unfoldable pub polls :
    (address : String) → List Round → List Message → Outcome MailboxError (List String)
polls address [] rows = return []
polls address (r ∷ rounds) rows =
    let t = rows ++ r.arrivals in
    handled (polls address rounds) address r.now t (read_mailbox_batch address none r.limit 65536 t)

-- a message that asks the address for an action, and was made by that instant
abbrev pub waiting : String → ℕ → Message → Bool
waiting address t m = urgent_for address m && leb m.created_at t

-- what arrives is younger, and has at most 64 KiB
abbrev pub IsLater : ℕ → Round → Type 0
IsLater t r =
    (row_count (λ (m : Message). leb m.created_at t) r.arrivals ≡ 0)
    × (row_count is_long r.arrivals ≡ 0)

-- an update that ends a condition takes away the rows that it wrote
pub removed :
    (p q : Message → Bool) (f : Message → Message)
    → ((r : Message) → q (f r) ≡ false)
    → (rows : List Message)
    → row_count q (update_where p f rows) + row_count (λ r. q r && p r) rows ≡ row_count q rows
unfolding update_where row_count
removed p q f gone [] = omega arith
removed p q f gone (r ∷ rows) = ground (arith, gone r, removed p q f gone rows)

pub row_count-keep-sub :
    (p q : Message → Bool)
    → ((r : Message) → q r ≡ true → p r ≡ true)
    → (rows : List Message) → row_count q (keep p rows) ≡ row_count q rows
unfolding row_count
row_count-keep-sub p q sub [] = refl
row_count-keep-sub p q sub (r ∷ rows) = ground (arith, sub r, row_count-keep-sub p q sub rows)

pub mem-keep :
    (x : String) (p : String → Bool) (xs : List String)
    → mem x xs ≡ false
    → mem x (keep p xs) ≡ false
mem-keep x p [] h = refl
mem-keep x p (y ∷ xs) h = ground (arith, mem-keep x p xs)

pub mem-unique : (x : String) (xs : List String) → mem x xs ≡ false → mem x (unique xs) ≡ false
unfolding unique
mem-unique x [] h = refl
mem-unique x (y ∷ xs) h =
    ground (arith, mem-keep x (λ z. not (z == y)) (unique xs) (mem-unique x xs (ground arith)))

pub mem-append : (x : String) (xs ys : List String) → mem x (xs ++ ys) ≡ (mem x xs || mem x ys)
mem-append x [] ys = refl
mem-append x (y ∷ xs) ys = ground (arith, mem-append x xs ys)

pub acknowledged-eq :
    (i : String) (ids : List String) (address : String) (now : ℕ) (rows after : List Message)
    → acknowledge_mailbox_batch (i ∷ ids) address now rows ≡ return after
    → after ≡ update_where (λ m. mem m.id (unique (i ∷ ids))) (acknowledge_row now) rows
unfolding acknowledge_mailbox_batch
acknowledged-eq i ids address now rows after h = ground arith
