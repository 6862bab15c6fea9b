-- ===== src/Mailbox/Receiver/Receiving.antt =====
-- `_receive` keeps the receiver's invariant on every path.
use caps_lock.Prelude.{
  ℕ, ◌+◌, ◌≤◌, ◌≡◌, refl, Bool, true, false, not, ◌&&◌, Option, none, some, List, [], ◌∷◌, ◌++◌,
  String, arith, if◌then◌else◌, mem, string_eq, take, drop, keep, Bool-cases, inl, inr, ltb, length,
  any, leb, ◌-◌, Outcome, return, raise, ◌>>=◌, ◌>>◌, writes, continue,
}
use caps_lock.Table.{row_count}
use caps_lock.Mailbox.Wakeup.{MailboxSnapshot, snapshot}
use caps_lock.Mailbox.Store.{
  background_failure, Message, MailboxError, Batch, has_message_id, message_ids, sorted,
  read_mailbox_batch,
}
use caps_lock.Mailbox.Store.Batches.{
  row_count-append, row_count-take-drop, row_count-take-le, row_count-sorted, row_count-keep-keep,
  row_count-read_mailbox_batch,
}
use caps_lock.Mailbox.Receiver.Ids.{mem-append, mem-keep}
use caps_lock.Mailbox.Receiver.{
  Receiver, Reading, actionable, ack, trim, extend_pending, renotify, again, accept, is_empty,
  take_batch, read_source, retry_ack, load_if_empty, read_if_wanted, wants_read, receive_open,
  receive, scoped, same_version,
}
use caps_lock.Mailbox.Receiver.Once.{
  IsOnce, fewer-Once, more-Once, Preserves, Preserves-continue, Preserves-bind,
  load_historical-IsOnce, ack-IsOnce,
}

again-IsOnce : (incoming : List Message) (s : Receiver) → IsOnce s → IsOnce (again incoming s)
again-IsOnce incoming s h = record {
  once = h.once;
  handed = h.handed;
  known = h.known;
  owed = λ i p. ground (
    arith,
    h.owed i,
    h.known i,
    mem-append i s.unacked (keep (λ j. mem j s.delivered_ids) (message_ids incoming)),
    mem-keep i (λ j. mem j s.delivered_ids) (message_ids incoming),
  );
  acked = h.acked;
  key = h.key;
}

trim-IsOnce : (s : Receiver) → IsOnce s → IsOnce (trim s)
unfolding trim
trim-IsOnce s h = elim (Bool-cases (ltb 32 (length s.pending))) [
  | inl e ↦ rw e (fewer-Once less h)
  | inr e ↦ rw e h
]
  where
    less :
        (i : String)
        → let urgent = sorted (keep (λ (m : Message). actionable m.kind) s.pending) in
          let passive = sorted (keep (λ (m : Message). not (actionable m.kind)) s.pending) in
          let k : ℕ = if is_empty passive then 32 else 24 in
          row_count (has_message_id i) (take 32 (take k urgent ++ (passive ++ drop k urgent)))
          ≤ row_count (has_message_id i) s.pending
    less i =
        let p = has_message_id i in
        let high = λ (m : Message). actionable m.kind in
        let low = λ (m : Message). not (actionable m.kind) in
        let urgent = sorted (keep high s.pending) in
        let passive = sorted (keep low s.pending) in
        let k : ℕ = if is_empty passive then 32 else 24 in
        omega (
          arith,
          row_count-take-le p 32 (take k urgent ++ (passive ++ drop k urgent)),
          row_count-append p (take k urgent) (passive ++ drop k urgent),
          row_count-append p passive (drop k urgent),
          row_count-take-drop p k urgent,
          row_count-sorted p (keep high s.pending),
          row_count-sorted p (keep low s.pending),
          row_count-keep-keep p high low (λ m. ground arith) s.pending,
        )

renotify-IsOnce :
    (changed : Bool) (incoming : List Message) (s : Receiver)
    → IsOnce s
    → IsOnce (renotify changed incoming s)
renotify-IsOnce changed incoming s h =
    elim (Bool-cases (any (λ (m : Message). actionable m.kind) incoming && not changed)) [
      | inl e ↦ rw e h
      | inr e ↦ rw e h
    ]

accept-IsOnce :
    (reading : Reading) (changed : Bool) (incoming : List Message)
    → ((i : String) → row_count (has_message_id i) incoming ≤ 1)
    → Preserves (accept reading changed incoming)
unfolding accept
accept-IsOnce reading changed [] single s h = h
accept-IsOnce reading changed (m ∷ rows) single s h =
    Preserves-continue (ack reading.read_at (again (m ∷ rows) s)).0
      (λ _. writes (λ s. renotify changed (m ∷ rows) (trim (extend_pending (m ∷ rows) s))) tt)
      (ack reading.read_at (again (m ∷ rows) s)).1
      (λ _ t k. renotify-IsOnce changed (m ∷ rows) (trim (extend_pending (m ∷ rows) t)) (
        trim-IsOnce (extend_pending (m ∷ rows) t)
          (unfold extend_pending in more-Once (m ∷ rows) single k)))
      (ack-IsOnce reading.read_at (again (m ∷ rows) s) (again-IsOnce (m ∷ rows) s h))

scoped-IsOnce :
    (scope : Option (Option (List String))) (s : Receiver) → IsOnce s → IsOnce (scoped scope s)
scoped-IsOnce none s h = h
scoped-IsOnce (some tasks) s h = h

read_source-IsOnce :
    (reading : Reading) (version : Option MailboxSnapshot) (changed : Bool)
    → Preserves (read_source reading version changed)
unfolding read_source
read_source-IsOnce reading version changed s h =
    let t = scoped reading.scope (record s { query_count = s.query_count + 1 }) in
    go t (scoped-IsOnce reading.scope (record s { query_count = s.query_count + 1 }) h)
      (read_mailbox_batch t.address t.task_ids 32 65536 t.mailbox) refl
  where
    go :
        (t : Receiver)
        → IsOnce t
        → (r : Outcome MailboxError Batch)
        → read_mailbox_batch t.address t.task_ids 32 65536 t.mailbox ≡ r
        → IsOnce (
            (continue r
              (λ batch.
                writes (take_batch reading version changed batch) tt
                >> accept reading changed batch.messages)
              t).1)
    go t k (raise x) e = k
    go t k (return batch) e =
        accept-IsOnce reading changed batch.messages
          (λ i. omega (
            arith,
            k.key i,
            row_count-read_mailbox_batch t.address t.task_ids 32 65536 t.mailbox batch e
                (has_message_id i),
          ))
          (take_batch reading version changed batch t) k

retry_ack-IsOnce : (now : ℕ) → Preserves (retry_ack now)
retry_ack-IsOnce now s h = elim (Bool-cases (is_empty s.unacked)) [
  | inl e ↦ rw e h
  | inr e ↦ rw e (ack-IsOnce now (record s { ack_retries = s.ack_retries + 1 }) h)
]

load_if_empty-IsOnce : Preserves load_if_empty
load_if_empty-IsOnce s h = elim (Bool-cases (is_empty s.pending)) [
  | inl e ↦ rw e (load_historical-IsOnce s h)
  | inr e ↦ rw e h
]

read_if_wanted-IsOnce :
    (reading : Reading) (version : Option MailboxSnapshot) (force changed due : Bool)
    → Preserves (read_if_wanted reading version force changed due)
read_if_wanted-IsOnce reading version force changed due s h =
    elim (Bool-cases (wants_read force changed due s)) [
      | inl e ↦ rw e (read_source-IsOnce reading version changed s h)
      | inr e ↦ rw e h
    ]

receive_open-IsOnce :
    (reading : Reading) (force : Bool) (version : Option MailboxSnapshot) (changed due : Bool)
    → Preserves (receive_open reading force version changed due)
receive_open-IsOnce reading force version changed due =
    Preserves-bind (retry_ack reading.now)
      (λ _. load_if_empty >>= (λ _. read_if_wanted reading version force changed due))
      (retry_ack-IsOnce reading.now)
      (λ _.
        Preserves-bind load_if_empty (λ _. read_if_wanted reading version force changed due)
          load_if_empty-IsOnce (λ _. read_if_wanted-IsOnce reading version force changed due))

if-IsOnce :
    {A : Type 0} (b : Bool) (x y : Outcome MailboxError A × Receiver)
    → IsOnce x.1
    → IsOnce y.1
    → IsOnce (if b then x else y).1
if-IsOnce true x y h k = h
if-IsOnce false x y h k = k

pub receive-IsOnce : (reading : Reading) (force : Bool) → Preserves (receive reading force)
unfolding receive
receive-IsOnce reading force s h =
    let version = snapshot s.address s.registry in
    let changed = not (same_version version s.version) in
    let due = leb 30000 (reading.now - s.last_check) in
    let open_path = receive_open reading force version changed due s in
    if-IsOnce s.background_error (raise background_failure, s)
      (if s.closed then (return tt, s) else open_path) h
      (if-IsOnce s.closed (return tt, s) open_path h
        (receive_open-IsOnce reading force version changed due s h))
