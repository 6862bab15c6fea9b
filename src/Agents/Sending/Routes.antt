-- ===== src/Agents/Sending/Routes.antt =====
-- What a message that was sent is, and that it is delivered (send_mailbox and read_mailbox_batch of
-- capslock/storage/repositories/collaboration.py).
use mathlib.Core.Path.{subst}
use caps_lock.Prelude.{
  ℕ, ◌≡◌, ◌≤◌, refl, Bool, true, false, not, Option, none, some, List, [], ◌∷◌, ◌++◌, String,
  if◌then◌else◌, arith, leb, leb→le, ◌&&◌, bool_eq, mem, All, length, first, ◌==◌, ==_self,
  string_eq, eq_iff, Outcome, return, raise, Option-cases, inl, inr,
}
use caps_lock.Table.{row_count, row_count-append}
use caps_lock.Mailbox.Store.{Message, has_message_id, readable, is_urgent}
use caps_lock.Mailbox.Store.Draining.{is_long}
use caps_lock.Mailbox.Store.Rounds.{Round, IsLater, waiting, polls}
use caps_lock.Mailbox.Store.Delivering.{polls-delivered}
use caps_lock.Mailbox.Store.Returning.{IsSane, polls_return}
use caps_lock.Agents.Record.{AgentTables, ParentRun}
use caps_lock.Agents.Store.{has_run_id}
use caps_lock.Agents.Sending.{
  SendError, bad_recipient, foreign_run, too_long, bad_route, is_route, differs, Addresses, Letter,
  answers, check_reply, insert_checked, post, send_owned, send_mailbox, child_worker, child_address,
  expected_recipient, address_of, given_or, new_message,
}

-- a reply goes back the way of the message that it answers
abbrev Answers : Message → List Message → Type 0
Answers m rows =
    (id : String)
    → m.reply_to_message_id ≡ some id
    → (o : Message) × (first (has_message_id id) rows ≡ some o)
      × (o.recipient_address ≡ m.sender_address)
      × (o.sender_address ≡ m.recipient_address)

pub record IsSent (m : Message) (rows after : List Message) : Type 0 where
  pub stored : after ≡ rows ++ m ∷ []
  pub queued : readable m.recipient_address none m ≡ true
  pub short : m.payload_bytes ≤ 32000
  pub back : Answers m rows

answers-return :
    (sender recipient : String) (o : Message)
    → answers sender recipient (some o) ≡ return tt
    → (o.recipient_address ≡ sender) × (o.sender_address ≡ recipient)
answers-return sender recipient o h = (
  (eq_iff o.recipient_address sender).0 (ground arith),
  (eq_iff o.sender_address recipient).0 (ground arith),
)

reply-Answers :
    (sender recipient : String) (reply : Option String) (rows : List Message)
    → check_reply sender recipient reply rows ≡ return tt
    → (id : String) → reply ≡ some id
    → (o : Message) × (first (has_message_id id) rows ≡ some o)
      × (o.recipient_address ≡ sender)
      × (o.sender_address ≡ recipient)
reply-Answers sender recipient none rows h id e = cc
reply-Answers sender recipient (some given) rows h id e =
    let same : given ≡ id = cc in
    let here : answers sender recipient (first (has_message_id id) rows) ≡ return tt =
      subst (λ x. check_reply sender recipient (some x) rows ≡ return tt) same h in
    elim (Option-cases (first (has_message_id id) rows)) [
      | inl k ↦ cc
      | inr (o, k) ↦
          let found : answers sender recipient (some o) ≡ return tt =
            subst (λ x. answers sender recipient x ≡ return tt) k here in
          let (to, from) = answers-return sender recipient o found in (o, k, to, from)
    ]

inserted-IsSent :
    (l : Letter) (id : String) (now : ℕ) (sender recipient : String) (rows : List Message)
    (r : Outcome SendError Unit) (m : Message) (after : List Message)
    → l.payload_bytes ≤ 32000
    → check_reply sender recipient l.reply_to_message_id rows ≡ r
    → insert_checked r (new_message l id now sender recipient) rows ≡ (return m, after)
    → IsSent m rows after
inserted-IsSent l id now sender recipient rows (raise e) m after short checked h = cc
inserted-IsSent l id now sender recipient rows (return tt) m after short checked h =
    let n : Message = new_message l id now sender recipient in
    let same : n ≡ m = cc in
    let table : rows ++ n ∷ [] ≡ after = cc in
    subst (λ t. IsSent m rows t) table
      (subst (λ x. IsSent x rows (rows ++ n ∷ [])) same
        (record {
          stored = refl;
          queued = ground (arith, ==_self recipient);
          short = short;
          back = reply-Answers sender recipient l.reply_to_message_id rows checked;
        }))

-- a guard that let the call return
unguarded :
    (b : Bool) (e : SendError) (rows : List Message) (x : Outcome SendError Message × List Message)
    (m : Message) (after : List Message)
    → (if b then (raise e, rows) else x) ≡ (return m, after)
    → (b ≡ false) × (x ≡ (return m, after))
unguarded true e rows x m after h = cc
unguarded false e rows x m after h = (refl, h)

post-IsSent :
    (a : Addresses) (l : Letter) (id : String) (now : ℕ) (session : String)
    (w : Outcome SendError (Option String)) (rows : List Message) (m : Message)
    (after : List Message)
    → l.payload_bytes ≤ 32000
    → post a l id now session w rows ≡ (return m, after)
    → IsSent m rows after
post-IsSent a l id now session (raise e) rows m after short h = cc
post-IsSent a l id now session (return worker) rows m after short h =
    let here = a.session session in
    let there = child_address a l.task_id worker in
    let recipient = expected_recipient l.recipient here there in
    let sender = given_or l.sender_address (address_of a l.sender here there) in
    let k : insert_checked (check_reply sender recipient l.reply_to_message_id rows)
          (new_message l id now sender recipient) rows
        ≡ (return m, after) =
      (unguarded (differs l.recipient_address recipient) bad_recipient rows _ m after h).1 in
    inserted-IsSent l id now sender recipient rows
      (check_reply sender recipient l.reply_to_message_id rows) m after short refl k

send_owned-IsSent :
    (a : Addresses) (l : Letter) (id : String) (now : ℕ) (s : AgentTables) (run : Option ParentRun)
    (rows : List Message) (m : Message) (after : List Message)
    → l.payload_bytes ≤ 32000
    → send_owned a l id now s run rows ≡ (return m, after)
    → IsSent m rows after
send_owned-IsSent a l id now s none rows m after short h = cc
send_owned-IsSent a l id now s (some run) rows m after short h =
    post-IsSent a l id now run.session_id (child_worker l run.session_id s) rows m after short
      (unguarded (differs l.owner_session_id run.session_id) foreign_run rows _ m after h).1

-- A message that was sent is a new row at the end of the mailbox, which its recipient can read;
-- its payload has at most 32000 bytes; and a reply goes back the way of the message that it
-- answers, which is in the mailbox, from its recipient to its sender.
pub send_mailbox-IsSent :
    (a : Addresses) (l : Letter) (id : String) (now : ℕ) (s : AgentTables) (rows : List Message)
    (m : Message) (after : List Message)
    → send_mailbox a l id now s rows ≡ (return m, after)
    → IsSent m rows after
unfolding send_mailbox
send_mailbox-IsSent a l id now s rows m after h =
    let owner : Option ParentRun = first (has_run_id l.parent_run_id) s.runs in
    let sized : (if not (leb l.payload_bytes 32000)
          then (raise too_long, rows)
          else send_owned a l id now s owner rows)
        ≡ (return m, after) =
      (unguarded (not (is_route l.sender l.recipient)) bad_route rows _ m after h).1 in
    let k = unguarded (not (leb l.payload_bytes 32000)) too_long rows _ m after sized in
    send_owned-IsSent a l id now s owner rows m after
      (leb→le l.payload_bytes 32000 (ground (arith, k.0))) k.1

-- A message that was sent and asks for an action is delivered. A receiver of its address reads and
-- acknowledges in rounds, between which other messages arrive. When ids are unique, payloads have
-- their digests and at most 64 KiB, what arrives is younger, and there are as many rounds as messages
-- of the address that ask for an action and are not younger (the message among them), then all
-- the rounds return, and its id is one of those that they deliver.
pub send_mailbox-delivered :
    (a : Addresses) (l : Letter) (id : String) (now : ℕ) (s : AgentTables) (rows : List Message)
    (m : Message) (after : List Message) (rounds : List Round)
    → row_count is_long rows ≡ 0
    → send_mailbox a l id now s rows ≡ (return m, after)
    → is_urgent m.kind ≡ true
    → IsSane after rounds
    → All (IsLater m.created_at) rounds
    → row_count (waiting m.recipient_address m.created_at) after ≤ length rounds
    → (delivered : List String) × (polls m.recipient_address rounds after ≡ return delivered)
      × (mem m.id delivered ≡ true)
send_mailbox-delivered a l id now s rows m after rounds small sent urgent sane later many =
    let k = send_mailbox-IsSent a l id now s rows m after sent in
    let fits : row_count is_long after ≡ 0 =
      rw (k.stored, row_count-append is_long rows m) (ground (arith, small, k.short)) in
    let it : Message → Bool = λ n. n.id == m.id && waiting m.recipient_address m.created_at n in
    let is_it : it m ≡ true = ground (arith, ==_self m.id, k.queued, urgent) in
    let there : 1 ≤ row_count it after =
      rw (k.stored, row_count-append it rows m, is_it) (omega arith) in
    let (delivered, read) = polls_return m.recipient_address rounds after sane in
    (
      delivered,
      read,
      polls-delivered m.recipient_address m rounds after delivered read fits later there many,
    )
