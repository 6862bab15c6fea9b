-- ===== src/Mailbox/Store/Returning.antt =====
-- That a receiver's rounds of reading and acknowledging return (read_mailbox_batch and
-- acknowledge_mailbox_batch of capslock/storage/repositories/collaboration.py).
use Prim.Native.Nat.{min, max}
use caps_lock.Prelude.{
  ℕ, ◌+◌, ◌≤◌, ◌≡◌, refl, Bool, true, false, not, ◌&&◌, none, List, [], ◌∷◌, ◌++◌, String, arith,
  ◌==◌, string_eq, bool_eq, keep, all, return, Outcome,
}
use caps_lock.Table.{row_count, row_count_mono}
use caps_lock.Mailbox.Store.{
  Message, Batch, MailboxError, read_mailbox_batch, acknowledge_mailbox_batch, bounded_messages,
  interleave, group, sorted, message_ids, has_message_id, readable, is_urgent,
}
use caps_lock.Mailbox.Store.Batches.{
  row_count-append, row_count-take-le, row_count-sorted, row_count-interleave,
  row_count-bounded_from, row_count-read_mailbox_batch, size, candidates, batch-eq,
}
use caps_lock.Mailbox.Store.Draining.{row_count-keep-not}
use caps_lock.Mailbox.Store.Acknowledging.{IsKeyed, is_foreign, listed-IsOwn, acknowledge_returns}
use caps_lock.Mailbox.Store.Rounds.{Round, polls, acked}

-- all that arrives during the rounds
abbrev pub coming : List Round → List Message
coming [] = []
coming (r ∷ rounds) = r.arrivals ++ coming rounds

-- the payload has another digest than the row says
abbrev pub is_spoiled : Message → Bool
is_spoiled m = not m.intact

all_intact :
    (rows : List Message)
    → row_count is_spoiled rows ≡ 0
    → all (λ (m : Message). m.intact) rows ≡ true
unfolding row_count
all_intact [] h = refl
all_intact (m ∷ rows) h = ground (arith, all_intact rows)

row_count-none :
    (p : Message → Bool) (xs ys : List Message)
    → row_count p xs ≤ row_count p ys
    → row_count p ys ≡ 0
    → row_count p xs ≡ 0
row_count-none p xs ys h k = omega arith

module _ (address : String) (limit : ℕ) (t : List Message) where
  group-le :
      (p : Message → Bool) (urgent : Bool) (n : ℕ)
      → row_count p (group address none urgent n t)
        ≤ row_count p (keep (λ m. readable address none m && (is_urgent m.kind == urgent)) t)
  unfolding group
  group-le p urgent n =
      let chosen =
        keep (λ (m : Message). readable address none m && (is_urgent m.kind == urgent)) t in
      omega (arith, row_count-take-le p (n + 1) (sorted chosen), row_count-sorted p chosen)

  keep-le :
      (p q : Message → Bool) (rows : List Message) → row_count p (keep q rows) ≤ row_count p rows
  unfolding row_count
  keep-le p q [] = omega arith
  keep-le p q (m ∷ rows) = ground (arith, keep-le p q rows)

  -- a read of rows with the right digests returns
  pub read_returns :
      row_count is_spoiled t ≡ 0
      → (batch : Batch) × (read_mailbox_batch address none limit 65536 t ≡ return batch)
  unfolding read_mailbox_batch
  read_returns h =
      let n = min (max limit 1) 32 in
      let active = group address none true n t in
      let passive = group address none false n t in
      let whole : row_count is_spoiled (active ++ passive) ≡ 0 = omega (
        arith,
        row_count-append is_spoiled active passive,
        group-le is_spoiled true n,
        group-le is_spoiled false n,
        keep-le is_spoiled (λ m. readable address none m && (is_urgent m.kind == true)) t,
        keep-le is_spoiled (λ m. readable address none m && (is_urgent m.kind == false)) t,
        h,
      ) in
      (
        bounded_messages n (min 65536 65536) (interleave n active passive),
        rw (all_intact (active ++ passive) whole) refl,
      )

  group-own :
      (urgent : Bool) (n : ℕ) → row_count (is_foreign address) (group address none urgent n t) ≡ 0
  group-own urgent n =
      let q : Message → Bool = λ m. readable address none m && (is_urgent m.kind == urgent) in
      omega (
        arith,
        group-le (is_foreign address) urgent n,
        row_count_mono (is_foreign address) (λ m. not (q m)) (λ m e. ground arith) (keep q t),
        row_count-keep-not q t,
      )

  -- a batch is the address's own
  batch-own :
      (batch : Batch)
      → read_mailbox_batch address none limit 65536 t ≡ return batch
      → row_count (is_foreign address) batch.messages ≡ 0
  unfolding bounded_messages
  batch-own batch read =
      let n = size address none limit 65536 t batch read in
      rw (batch-eq address none limit 65536 t batch read) (
        omega (
          arith,
          row_count-bounded_from (is_foreign address) n (min 65536 65536) 0 0
              (candidates address none limit 65536 t batch read),
          row_count-interleave (is_foreign address) n (group address none true n t)
              (group address none false n t),
          group-own true n,
          group-own false n,
        ))

-- when the ids are unique and the digests right
pub record IsSane (rows : List Message) (rounds : List Round) : Type 0 where
  pub keyed : IsKeyed (rows ++ coming rounds)
  pub digests : row_count is_spoiled (rows ++ coming rounds) ≡ 0

-- the acknowledgement of a round returns
acked-returns :
    (next : List Message → Outcome MailboxError (List String)) (ids : List String)
    (o : Outcome MailboxError (List Message)) (u : List Message) (more : List String)
    → o ≡ return u
    → next u ≡ return more
    → acked next ids o ≡ return (ids ++ more)
acked-returns next ids o u more e k = rw (e, k) refl

-- Rounds of reading and acknowledging return, whatever arrives, when ids are unique and digests are
-- right.
pub polls_return :
    (address : String) (rounds : List Round) (rows : List Message)
    → IsSane rows rounds
    → (delivered : List String) × (polls address rounds rows ≡ return delivered)
unfolding polls
polls_return address [] rows sane = ([], refl)
polls_return address (r ∷ rounds) rows sane =
    let t = rows ++ r.arrivals in
    let split : (p : Message → Bool)
        → row_count p (rows ++ (r.arrivals ++ coming rounds))
          ≡ row_count p t + row_count p (coming rounds) =
      λ p. omega (
        arith,
        row_count-append p rows (r.arrivals ++ coming rounds),
        row_count-append p r.arrivals (coming rounds),
        row_count-append p rows r.arrivals,
      ) in
    let keyed : IsKeyed t = λ x. omega (arith, split (has_message_id x), sane.keyed x) in
    let (batch, read) =
      read_returns address r.limit t (omega (arith, split is_spoiled, sane.digests)) in
    let ids = message_ids batch.messages in
    let own =
      listed-IsOwn address t keyed batch.messages (batch-own address r.limit t batch read)
        (row_count-read_mailbox_batch address none r.limit 65536 t batch read) in
    let (u, written, same) = acknowledge_returns address t r.now ids own in
    let kept : IsSane u rounds = record {
      keyed = λ x. omega (
        arith,
        row_count-append (has_message_id x) u (coming rounds),
        same (has_message_id x) (λ m. refl),
        split (has_message_id x),
        sane.keyed x,
      );
      digests = omega (
        arith,
        row_count-append is_spoiled u (coming rounds),
        same is_spoiled (λ m. refl),
        split is_spoiled,
        sane.digests,
      );
    } in
    let (more, rest) = polls_return address rounds u kept in
    (
      ids ++ more,
      rw read (
          acked-returns (polls address rounds) ids (acknowledge_mailbox_batch ids address r.now t) u
            more written rest),
    )
