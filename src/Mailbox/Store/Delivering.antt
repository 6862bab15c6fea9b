-- ===== src/Mailbox/Store/Delivering.antt =====
-- That a message which waits is delivered by a receiver's rounds (read_mailbox_batch and
-- acknowledge_mailbox_batch of capslock/storage/repositories/collaboration.py).
use mathlib.Core.Path.{subst}
use caps_lock.Prelude.{
  ℕ, suc, ◌≤◌, ◌≡◌, refl, sym, ◌∙◌, Bool, true, false, ◌&&◌, none, List, [], ◌∷◌, ◌++◌, String,
  arith, ◌==◌, ==_self, eq_iff, mem, string_eq, bool_eq, leb, length, keep, All, return, raise,
  Outcome, Bool-cases, inl, inr,
}
use caps_lock.Table.{
  row_count, update_where, row_count_mono, row_count-apart, row_count-update_where,
}
use caps_lock.Mailbox.Store.{
  Message, Batch, MailboxError, read_mailbox_batch, acknowledge_mailbox_batch, acknowledge_row,
  unique, message_ids,
}
use caps_lock.Mailbox.Store.Batches.{row_count-append}
use caps_lock.Mailbox.Store.Draining.{before, urgent_for, is_long, IsOldest, read-IsOldest}
use caps_lock.Mailbox.Store.Rounds.{
  Round, polls, waiting, IsLater, also, acked, handled, removed, row_count-keep-sub, mem-unique,
  mem-append, acknowledged-eq,
}

module _ (address : String) (m : Message) where
  abbrev is_it : Message → Bool
  is_it n = n.id == m.id && waiting address m.created_at n

  -- a round's acknowledgement: another message of the address is gone
  record Progress (t u : List Message) (ids : List String) : Type 0 where
    pub short : row_count is_long u ≡ 0
    pub here : mem m.id ids ≡ false → 1 ≤ row_count is_it u
    pub fewer :
        suc (row_count (waiting address m.created_at) u)
        ≤ row_count (waiting address m.created_at) t

  -- a row with another id is another row
  other_stays :
      (now : ℕ) (ids : List String) (r : Message)
      → mem m.id ids ≡ false
      → mem r.id (unique ids) ≡ true
      → is_it (acknowledge_row now r) ≡ is_it r
  other_stays now ids r absent e = elim (Bool-cases (r.id == m.id)) [
    | inl t ↦
        let same : r.id ≡ m.id = (eq_iff r.id m.id).0 t in
        let taken : mem m.id (unique ids) ≡ true = subst (λ x. mem x (unique ids) ≡ true) same e in
        let free = mem-unique m.id ids absent in absurd (ground (arith, taken, free))
    | inr f ↦ ground (arith, f)
  ]

  acknowledged-Progress :
      (now : ℕ) (t : List Message) (batch : Batch) (h : Message)
      → IsOldest address t batch h
      → row_count is_long t ≡ 0
      → 1 ≤ row_count is_it t
      → (ids : List String)
      → Progress t
          (update_where (λ n. mem n.id (unique (h.id ∷ ids))) (acknowledge_row now) t)
          (h.id ∷ ids)
  acknowledged-Progress now t batch h old short here ids =
      let taken : Message → Bool = λ n. mem n.id (unique (h.id ∷ ids)) in
      let w : Message → Bool = waiting address m.created_at in
      let first_taken : taken h ≡ true = unfold unique in ground (arith, ==_self h.id) in
      let chosen_it : row_count is_it (keep (urgent_for address) t) ≡ row_count is_it t =
        row_count-keep-sub (urgent_for address) is_it (λ r e. ground arith) t in
      let not_younger : leb h.created_at m.created_at ≡ true =
        elim (Bool-cases (leb h.created_at m.created_at)) [
          | inl e ↦ e
          | inr f ↦ absurd (
              omega (
                arith,
                row_count_mono is_it (before h.created_at) (λ r e. ground (arith, f))
                    (keep (urgent_for address) t),
                chosen_it,
                old.oldest,
                here,
              ))
        ] in
      let gone : 1 ≤ row_count (λ r. w r && taken r) t =
        old.held (λ r. w r && taken r) (ground (arith, old.urgent, not_younger, first_taken)) in
      record {
        short = row_count-update_where is_long taken (acknowledge_row now) (λ r. refl) t ∙ short;
        here = λ absent.
            rw
              (row_count-apart is_it taken (acknowledge_row now)
                (λ r e. other_stays now (h.id ∷ ids) r absent e) t)
              here;
        fewer = omega (arith, gone, removed taken w (acknowledge_row now) (λ r. ground arith) t);
      }

  -- what arrives changes nothing for the message
  arrived :
      (rows : List Message) (r : Round)
      → IsLater m.created_at r
      → row_count is_long rows ≡ 0
      → 1 ≤ row_count is_it rows
      → (row_count is_long (rows ++ r.arrivals) ≡ 0)
        × (1 ≤ row_count is_it (rows ++ r.arrivals))
        × (row_count (waiting address m.created_at) (rows ++ r.arrivals)
            ≡ row_count (waiting address m.created_at) rows)
  arrived rows r later short here =
      let w : Message → Bool = waiting address m.created_at in
      let younger =
        row_count_mono w (λ n. leb n.created_at m.created_at) (λ n e. ground arith) r.arrivals in
      omega (
        arith,
        row_count-append is_long rows r.arrivals,
        row_count-append is_it rows r.arrivals,
        row_count-append w rows r.arrivals,
        younger,
        later.0,
        later.1,
        short,
        here,
      )

  -- the acknowledgement of a round
  acked-delivered :
      (next : List Message → Outcome MailboxError (List String)) (now : ℕ) (t : List Message)
      (batch : Batch) (h : Message) (delivered : List String)
      → IsOldest address t batch h
      → row_count is_long t ≡ 0
      → 1 ≤ row_count is_it t
      → ((u : List Message) (ids more : List String)
          → Progress t u ids
          → mem m.id ids ≡ false
          → next u ≡ return more
          → mem m.id more ≡ true)
      → handled next address now t (return batch) ≡ return delivered
      → mem m.id delivered ≡ true
  acked-delivered next now t batch h delivered old short here rest e =
      go (acknowledge_mailbox_batch (h.id ∷ ids) address now t) refl (
        subst
          (λ b.
            acked next (message_ids b) (acknowledge_mailbox_batch (message_ids b) address now t)
            ≡ return delivered)
          old.head e)
    where
      ids : List String
      ids = message_ids old.tail

      after_next :
          (u : List Message)
          → Progress t u (h.id ∷ ids)
          → (o : Outcome MailboxError (List String)) → next u ≡ o
          → also (h.id ∷ ids) o ≡ return delivered
          → mem m.id delivered ≡ true
      after_next u progress (raise x) k e = cc
      after_next u progress (return more) k e =
          let whole : (h.id ∷ ids) ++ more ≡ delivered = cc in
          let found : mem m.id ((h.id ∷ ids) ++ more) ≡ true =
            elim (Bool-cases (mem m.id (h.id ∷ ids))) [
              | inl c ↦ ground (arith, mem-append m.id (h.id ∷ ids) more, c)
              | inr c ↦
                  let later = rest u (h.id ∷ ids) more progress c k in
                  ground (arith, mem-append m.id (h.id ∷ ids) more, later)
            ] in
          subst (λ x. mem m.id x ≡ true) whole found

      go :
          (o : Outcome MailboxError (List Message))
          → acknowledge_mailbox_batch (h.id ∷ ids) address now t ≡ o
          → acked next (h.id ∷ ids) o ≡ return delivered
          → mem m.id delivered ≡ true
      go (raise x) k e = cc
      go (return u) k e =
          after_next u
            (subst (λ x. Progress t x (h.id ∷ ids))
              (sym (acknowledged-eq h.id ids address now t u k))
              (acknowledged-Progress now t batch h old short here ids))
            (next u) refl e

  -- the read of a round
  handled-delivered :
      (next : List Message → Outcome MailboxError (List String)) (r : Round) (t : List Message)
      (delivered : List String)
      → row_count is_long t ≡ 0
      → 1 ≤ row_count is_it t
      → ((u : List Message) (ids more : List String)
          → Progress t u ids
          → mem m.id ids ≡ false
          → next u ≡ return more
          → mem m.id more ≡ true)
      → (o : Outcome MailboxError Batch) → read_mailbox_batch address none r.limit 65536 t ≡ o
      → handled next address r.now t o ≡ return delivered
      → mem m.id delivered ≡ true
  handled-delivered next r t delivered short here rest (raise x) k e = cc
  handled-delivered next r t delivered short here rest (return batch) k e =
      let some_urgent : 1 ≤ row_count (urgent_for address) t =
        omega (arith, here, row_count_mono is_it (urgent_for address) (λ x q. ground arith) t) in
      let (h, old) = read-IsOldest address r.limit t batch k short some_urgent in
      acked-delivered next r.now t batch h delivered old short here rest e

  -- A message that asks its address for an action and waits in the mailbox is delivered within as
  -- many rounds of reading and acknowledging as such messages of the address are not younger than
  -- it, whatever younger messages arrive meanwhile, when no payload has more than 64 KiB and the
  -- rounds return.
  pub polls-delivered :
      (rounds : List Round) (rows : List Message) (delivered : List String)
      → polls address rounds rows ≡ return delivered
      → row_count is_long rows ≡ 0
      → All (IsLater m.created_at) rounds
      → 1 ≤ row_count is_it rows
      → row_count (waiting address m.created_at) rows ≤ length rounds
      → mem m.id delivered ≡ true
  unfolding polls
  polls-delivered [] rows delivered e short later here many = absurd (
      omega (
        arith,
        here,
        many,
        row_count_mono is_it (waiting address m.created_at) (λ r k. ground arith) rows,
      ))
  polls-delivered (r ∷ rounds) rows delivered e short (later, others) here many =
      let t = rows ++ r.arrivals in
      let (short_t, here_t, same) = arrived rows r later short here in
      handled-delivered (polls address rounds) r t delivered short_t here_t
        (λ u ids more progress absent k.
          polls-delivered rounds u more k progress.short others (progress.here absent)
            (omega (arith, progress.fewer, same, many)))
        (read_mailbox_batch address none r.limit 65536 t) refl e
