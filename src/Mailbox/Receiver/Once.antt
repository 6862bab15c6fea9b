-- ===== src/Mailbox/Receiver/Once.antt =====
-- A message enters the context at most once, and is acknowledged only when it has: the invariant of
-- the receiver's steps.
use caps_lock.Prelude.{
  ℕ, ◌+◌, ◌≤◌, ◌≡◌, refl, Bool, true, false, not, ◌&&◌, ◌||◌, List, [], ◌∷◌, ◌++◌, String, arith,
  if◌then◌else◌, ◌==◌, mem, string_eq, take, keep, all, All, eq_iff, Bool-cases, inl, inr, sym, ap,
  Outcome, return, raise, ◌>>=◌, continue,
}
use mathlib.Core.Path.{subst}
use caps_lock.Table.{row_count, update_where, All-update_where, row_count-update_where}
use caps_lock.Mailbox.Store.{
  Message, MessageStatus, MailboxError, acknowledged, has_message_id, message_ids, unique,
  acknowledge_mailbox_batch, acknowledge_row,
}
use caps_lock.Mailbox.Store.Batches.{row_count-append}
use caps_lock.Mailbox.Receiver.Ids.{
  occurrences, absent→none, mem-keep, mem-unique, row_count-has_message_id,
}
use caps_lock.Mailbox.Receiver.{
  Receiver, Step, refresh_pending, load_one, load_all, historical_pending, load_historical, ack,
  ack_result,
}

abbrev pub is_acknowledged : MessageStatus → Bool
is_acknowledged acknowledged = true
is_acknowledged _ = false

-- An acknowledged message of the receiver is one that was committed.
abbrev pub WasCommitted : String → List String → Message → Type 0
WasCommitted address commits m =
    (m.recipient_address == address && is_acknowledged m.status) ≡ true → mem m.id commits ≡ true

pub record Once (address : String) (commits : List String) (pending : List Message)
    (manual delivered unacked : List String) (mailbox : List Message) : Type 0 where
  -- no id is committed twice, and none that is pending was committed
  pub once : (i : String) → occurrences i commits + row_count (has_message_id i) pending ≤ 1
  -- none that a tool call holds was committed
  pub handed : (i : String) → occurrences i commits + occurrences i manual ≤ 1
  -- the receiver knows what was committed
  pub known : (i : String) → mem i delivered ≡ mem i commits
  -- only what was committed is acknowledged, or will be
  pub owed : (i : String) → mem i unacked ≡ true → mem i commits ≡ true
  pub acked : All (WasCommitted address commits) mailbox
  -- the primary key of `agent_mailbox`
  pub key : (i : String) → row_count (has_message_id i) mailbox ≤ 1

abbrev pub IsOnce : Receiver → Type 0
IsOnce s = Once s.address s.commits s.pending s.manual s.delivered_ids s.unacked s.mailbox

pub row_count-keep-le :
    (p q : Message → Bool) (rows : List Message) → row_count p (keep q rows) ≤ row_count p rows
unfolding row_count
row_count-keep-le p q [] = omega arith
row_count-keep-le p q (m ∷ rows) = ground (arith, row_count-keep-le p q rows)

pub row_count-keep-none :
    (p q : Message → Bool)
    → ((m : Message) → (p m && q m) ≡ false)
    → (rows : List Message) → row_count p (keep q rows) ≡ 0
unfolding row_count
row_count-keep-none p q apart [] = refl
row_count-keep-none p q apart (m ∷ rows) =
    ground (arith, apart m, row_count-keep-none p q apart rows)

-- a selection by the id keeps all the rows of an id or none
pub row_count-keep :
    (r : String → Bool) (i : String) (rows : List Message)
    → row_count (has_message_id i) (keep (λ m. r m.id) rows)
      ≡ (if r i then row_count (has_message_id i) rows else 0)
unfolding row_count
row_count-keep r i [] = ground arith
row_count-keep r i (m ∷ rows) = ground (arith, eq_iff m.id i, row_count-keep r i rows)

-- fewer pending messages
pub fewer-Once :
    {address : String} {commits manual delivered unacked : List String}
    {mailbox pending pending' : List Message}
    → ((i : String) → row_count (has_message_id i) pending' ≤ row_count (has_message_id i) pending)
    → Once address commits pending manual delivered unacked mailbox
    → Once address commits pending' manual delivered unacked mailbox
fewer-Once less h = record {
  once = λ i. omega (arith, h.once i, less i);
  handed = h.handed;
  known = h.known;
  owed = h.owed;
  acked = h.acked;
  key = h.key;
}

-- more pending messages, each of them new
pub more-Once :
    {address : String} {commits manual delivered unacked : List String}
    {mailbox pending : List Message} (rows : List Message)
    → ((i : String) → row_count (has_message_id i) rows ≤ 1)
    → Once address commits pending manual delivered unacked mailbox
    → Once address commits
        (pending ++ keep (λ m. not (mem m.id (message_ids pending) || mem m.id delivered)) rows)
        manual
        delivered
        unacked
        mailbox
more-Once {commits = commits} {delivered = delivered} {pending = pending} rows single h = record {
  once = λ i.
      let fresh = λ (j : String). not (mem j (message_ids pending) || mem j delivered) in
      ground (
        arith,
        h.once i,
        h.known i,
        single i,
        row_count-append (has_message_id i) pending (keep (λ m. fresh m.id) rows),
        row_count-keep fresh i rows,
        absent→none i commits,
        row_count-has_message_id i pending,
        absent→none i (message_ids pending),
      );
  handed = h.handed;
  known = h.known;
  owed = h.owed;
  acked = h.acked;
  key = h.key;
}

pub refresh_pending-IsOnce : (s : Receiver) → IsOnce s → IsOnce (refresh_pending s)
unfolding refresh_pending
refresh_pending-IsOnce s h =
    fewer-Once
      (λ i. row_count-keep-le (has_message_id i) (λ m. not (mem m.id s.delivered_ids)) s.pending) h

load_one-IsOnce : (m : Message) (s : Receiver) → IsOnce s → IsOnce (load_one m s)
unfolding load_one
load_one-IsOnce m s h = elim (Bool-cases (mem m.id s.delivered_ids)) [
  | inl e ↦ rw e h
  | inr e ↦ elim (Bool-cases (mem m.id (message_ids s.pending))) [
    | inl f ↦ rw e (rw f h)
    | inr f ↦ rw e (
        rw f (
          subst
            (λ extra.
              Once s.address s.commits (s.pending ++ extra) s.manual s.delivered_ids s.unacked
                s.mailbox)
            (ground arith) (more-Once (m ∷ []) (λ i. unfold row_count in ground arith) h)))
  ]
]

load_all-IsOnce : (rows : List Message) (s : Receiver) → IsOnce s → IsOnce (load_all rows s)
unfolding load_all
load_all-IsOnce [] s h = h
load_all-IsOnce (m ∷ rows) s h = load_all-IsOnce rows (load_one m s) (load_one-IsOnce m s h)

-- What a step keeps, whether it returns or raises.
abbrev pub Preserves : {A : Type 0} → Step A → Type 0
Preserves m = (s : Receiver) → IsOnce s → IsOnce (m s).1

pub Preserves-continue :
    {A B : Type 0} (r : Outcome MailboxError A) (f : A → Step B) (s : Receiver)
    → ((a : A) → Preserves (f a))
    → IsOnce s
    → IsOnce (continue r f s).1
Preserves-continue (return a) f s k h = k a s h
Preserves-continue (raise e) f s k h = h

pub Preserves-bind :
    {A B : Type 0} (m : Step A) (f : A → Step B)
    → Preserves m
    → ((a : A) → Preserves (f a))
    → Preserves (m >>= f)
Preserves-bind m f km kf s h = Preserves-continue (m s).0 f (m s).1 kf (km s h)

pub load_historical-IsOnce : Preserves load_historical
unfolding load_historical historical_pending
load_historical-IsOnce s h = elim (Bool-cases (all (λ m. m.intact) (take 32 s.historical))) [
  | inl e ↦ rw e (load_all-IsOnce (take 32 s.historical) s h)
  | inr e ↦ rw e h
]

update_where-nothing :
    (f : Message → Message) (rows : List Message) → update_where (λ m. false) f rows ≡ rows
unfolding update_where
update_where-nothing f [] = refl
update_where-nothing f (m ∷ rows) = ap (λ r. m ∷ r) (update_where-nothing f rows)

-- what an acknowledgement that is accepted makes of the table
acknowledge_mailbox_batch-rows :
    (ids : List String) (address : String) (now : ℕ) (rows rows' : List Message)
    → acknowledge_mailbox_batch ids address now rows ≡ return rows'
    → rows' ≡ update_where (λ m. mem m.id (unique ids)) (acknowledge_row now) rows
unfolding acknowledge_mailbox_batch unique
acknowledge_mailbox_batch-rows [] address now rows rows' e =
    ground (arith, update_where-nothing (acknowledge_row now) rows)
acknowledge_mailbox_batch-rows (i ∷ ids) address now rows rows' e = ground arith

acknowledge-mailbox :
    (ids : List String) (address : String) (now : ℕ) (rows : List Message) (commits : List String)
    → ((i : String) → mem i ids ≡ true → mem i commits ≡ true)
    → All (WasCommitted address commits) rows
    → All
        (WasCommitted address commits)
        (update_where (λ m. mem m.id (unique ids)) (acknowledge_row now) rows)
acknowledge-mailbox ids address now rows commits sub h =
    All-update_where (WasCommitted address commits) (λ m. mem m.id (unique ids))
      (acknowledge_row now) (λ m c picked marked. sub m.id (ground (arith, mem-unique m.id ids)))
      rows h

pub ack-IsOnce : (now : ℕ) → Preserves (ack now)
unfolding ack
ack-IsOnce now s h = go (acknowledge_mailbox_batch s.unacked s.address now s.mailbox) refl
  where
    go :
        (r : Outcome MailboxError (List Message))
        → acknowledge_mailbox_batch s.unacked s.address now s.mailbox ≡ r
        → IsOnce (ack_result s.unacked r s).1
    go (raise x) e = h
    go (return rows) e = record {
      once = h.once;
      handed = h.handed;
      known = h.known;
      owed = λ i p. h.owed i (ground (arith, mem-keep i (λ j. not (mem j s.unacked)) s.unacked));
      acked =
          subst (All (WasCommitted s.address s.commits))
            (sym (acknowledge_mailbox_batch-rows s.unacked s.address now s.mailbox rows e))
            (acknowledge-mailbox s.unacked s.address now s.mailbox s.commits h.owed h.acked);
      key = λ i. ground (
        arith,
        h.key i,
        acknowledge_mailbox_batch-rows s.unacked s.address now s.mailbox rows e,
        row_count-update_where (has_message_id i) (λ m. mem m.id (unique s.unacked))
            (acknowledge_row now) (λ m. refl) s.mailbox,
      );
    }
