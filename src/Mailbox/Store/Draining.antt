-- ===== src/Mailbox/Store/Draining.antt =====
-- Reading a mailbox in rounds, each of which acknowledges what it has read (read_mailbox_batch and
-- acknowledge_mailbox_batch of capslock/storage/repositories/collaboration.py, as a receiver calls them):
-- what is waiting is delivered, the oldest first, whatever arrives meanwhile.
use Prim.Native.Nat.{min}
use mathlib.Core.Path.{subst}
use native.Mathlib.Numerals.{add-one}
use caps_lock.Prelude.{
  ℕ, zero, suc, ◌≤◌, ◌≡◌, refl, sym, ap, ◌∙◌, Bool, true, false, not, ◌&&◌, none, List, [], ◌∷◌,
  ◌++◌, String, arith, if◌then◌else◌, ◌==◌, string_eq, bool_eq, nat_eq, ltb, length, take, drop,
  keep, return, Bool-cases, inl, inr,
}
use caps_lock.Table.{row_count, row_count_mono}
use caps_lock.Mailbox.Store.{
  Message, Batch, is_urgent, readable, insert_message, sorted, bounded_from, bounded_messages,
  group, interleave, read_mailbox_batch, not_after,
}
use caps_lock.Mailbox.Store.Batches.{row_count-sorted, size, batch-eq}

-- rows that are older than an instant
abbrev pub before : ℕ → Message → Bool
before t m = ltb m.created_at t

older_mono :
    (s t : ℕ) (rows : List Message)
    → s ≤ t
    → row_count (before t) rows ≡ 0
    → row_count (before s) rows ≡ 0
older_mono s t rows h k =
    omega (arith, row_count_mono (before s) (before t) (λ r e. ground arith) rows)

not_after-created : (m n : Message) → not_after m n ≡ true → m.created_at ≤ n.created_at
not_after-created m n h = ground arith

after-created : (m n : Message) → not_after m n ≡ false → n.created_at ≤ m.created_at
after-created m n h = ground arith

-- the head of the sorted list is one of the oldest messages
insert-oldest :
    (m : Message) (rows xs : List Message) (h : Message) (rest : List Message)
    → ((p : Message → Bool) → row_count p xs ≡ row_count p rows)
    → ((x : Message) (ys : List Message) → xs ≡ x ∷ ys → row_count (before x.created_at) rows ≡ 0)
    → insert_message m xs ≡ h ∷ rest
    → row_count (before h.created_at) (m ∷ rows) ≡ 0
unfolding insert_message row_count
insert-oldest m rows [] h rest same old e =
    let k : h ≡ m = cc in
    let none : row_count (before m.created_at) rows ≡ 0 = sym (same (before m.created_at)) in
    subst (λ x. row_count (before x.created_at) (m ∷ rows) ≡ 0) (sym k) (ground (arith, none))
insert-oldest m rows (x ∷ ys) h rest same old e = elim (Bool-cases (not_after m x)) [
  | inl t ↦
      let k : h ≡ m = ground (arith, t, e) in
      let none =
        older_mono m.created_at x.created_at rows (not_after-created m x t) (old x ys refl) in
      subst (λ y. row_count (before y.created_at) (m ∷ rows) ≡ 0) (sym k) (ground (arith, none))
  | inr f ↦
      let k : h ≡ x = ground (arith, f, e) in
      let le = after-created m x f in
      let none = old x ys refl in
      subst (λ y. row_count (before y.created_at) (m ∷ rows) ≡ 0) (sym k) (ground (arith, none, le))
]

sorted-oldest :
    (rows : List Message) (h : Message) (rest : List Message)
    → sorted rows ≡ h ∷ rest
    → row_count (before h.created_at) rows ≡ 0
unfolding sorted
sorted-oldest [] h rest e = cc
sorted-oldest (m ∷ rows) h rest e =
    insert-oldest m rows (sorted rows) h rest (λ p. row_count-sorted p rows) (sorted-oldest rows) e

module _ (p q : Message → Bool) where
  row_count-keep-le : (rows : List Message) → row_count q (keep p rows) ≤ row_count q rows
  unfolding row_count
  row_count-keep-le [] = omega arith
  row_count-keep-le (m ∷ rows) = ground (arith, row_count-keep-le rows)

pub row_count-keep-not :
    (p : Message → Bool) (rows : List Message) → row_count (λ m. not (p m)) (keep p rows) ≡ 0
unfolding row_count
row_count-keep-not p [] = refl
row_count-keep-not p (m ∷ rows) = ground (arith, row_count-keep-not p rows)

pub row_count-head :
    (q : Message → Bool) (h : Message) (xs : List Message) → q h ≡ true → 1 ≤ row_count q (h ∷ xs)
unfolding row_count
row_count-head q h xs e = ground arith

interleave-head :
    (n : ℕ) (h : Message) (xs passive : List Message)
    → 1 ≤ n
    → (ys : List Message) × (interleave n (h ∷ xs) passive ≡ h ∷ ys)
interleave-head n h xs passive one =
    go (if nat_eq (length passive) 0 then n else min 24 n) (ground arith)
  where
    go :
        (k : ℕ)
        → 1 ≤ k
        → (ys : List Message) × (take k (h ∷ xs) ++ (passive ++ drop k (h ∷ xs)) ≡ h ∷ ys)
    go zero one = absurd (omega arith)
    go (suc k) one = (take k xs ++ (passive ++ drop k xs), refl)

bounded_from-head :
    (n max_bytes : ℕ) (h : Message) (xs : List Message)
    → 1 ≤ n
    → h.payload_bytes ≤ max_bytes
    → (ys : List Message) × (bounded_from n max_bytes 0 0 (h ∷ xs) ≡ h ∷ ys)
unfolding bounded_from
bounded_from-head n max_bytes h xs one fits =
    (bounded_from n max_bytes 1 h.payload_bytes xs, ground arith)

-- a readable message of the address that asks for an action
abbrev pub urgent_for : String → Message → Bool
urgent_for address m = readable address none m && (is_urgent m.kind == true)

abbrev pub is_long : Message → Bool
is_long m = ltb 65536 m.payload_bytes

-- The first message of a batch, where one that asks for an action is waiting: it asks for an action,
-- and no such message of the address is older.
pub record IsOldest (address : String) (rows : List Message) (batch : Batch) (h : Message)
    : Type 0 where
  pub tail : List Message
  pub head : batch.messages ≡ h ∷ tail
  pub urgent : urgent_for address h ≡ true
  pub oldest : row_count (before h.created_at) (keep (urgent_for address) rows) ≡ 0
  -- it is in the table
  pub held : (q : Message → Bool) → q h ≡ true → 1 ≤ row_count q rows

row_count-keep_self :
    (p : Message → Bool) (rows : List Message) → row_count p (keep p rows) ≡ row_count p rows
unfolding row_count
row_count-keep_self p [] = refl
row_count-keep_self p (m ∷ rows) = ground (arith, row_count-keep_self p rows)

module _ (address : String) (limit : ℕ) (rows : List Message) (batch : Batch)
    (read : read_mailbox_batch address none limit 65536 rows ≡ return batch)
    (short : row_count is_long rows ≡ 0) where
  abbrev pub chosen : List Message
  chosen = keep (urgent_for address) rows

  batch-head :
      (h : Message) (rest : List Message)
      → sorted chosen ≡ h ∷ rest
      → h.payload_bytes ≤ 65536
      → (ys : List Message) × (batch.messages ≡ h ∷ ys)
  unfolding bounded_messages group
  batch-head h rest e fits =
      let n = size address none limit 65536 rows batch read in
      let one : 1 ≤ n = omega arith in
      let passive = group address none false n rows in
      let urgent_group : group address none true n rows ≡ h ∷ take n rest = rw (e, add-one) refl in
      let (ys, inter) = interleave-head n h (take n rest) passive one in
      let (zs, fit) = bounded_from-head n (min 65536 65536) h ys one (omega (arith, fits)) in
      let all_rows : interleave n (group address none true n rows) passive ≡ h ∷ ys =
        ap (λ x. interleave n x passive) urgent_group ∙ inter in
      (
        zs,
        ap (λ x. x.messages) (batch-eq address none limit 65536 rows batch read)
            ∙ ap (λ x. bounded_from n (min 65536 65536) 0 0 x) all_rows
            ∙ fit,
      )

  sorted_head :
      (h : Message) (rest : List Message) → sorted chosen ≡ h ∷ rest → IsOldest address rows batch h
  sorted_head h rest e =
      let u : Message → Bool = urgent_for address in
      let same : (p : Message → Bool) → row_count p (h ∷ rest) ≡ row_count p chosen =
        λ p. subst (λ x. row_count p x ≡ row_count p chosen) e (row_count-sorted p chosen) in
      let held : (q : Message → Bool) → q h ≡ true → 1 ≤ row_count q rows =
        λ q t. omega (arith, row_count-head q h rest t, same q, row_count-keep-le u q rows) in
      let urgent : u h ≡ true = elim (Bool-cases (u h)) [
        | inl t ↦ t
        | inr f ↦ absurd (
            omega (
              arith,
              row_count-head (λ m. not (u m)) h rest (ground (arith, f)),
              same (λ m. not (u m)),
              row_count-keep-not u rows,
            ))
      ] in
      let fits : h.payload_bytes ≤ 65536 = elim (Bool-cases (is_long h)) [
        | inl t ↦ absurd (omega (arith, held is_long t, short))
        | inr f ↦ ground (arith, f)
      ] in
      let (tail, head) = batch-head h rest e fits in
      record {
        tail = tail;
        head = head;
        urgent = urgent;
        oldest = sorted-oldest chosen h rest e;
        held = held;
      }

  nothing_left : sorted chosen ≡ [] → row_count (urgent_for address) chosen ≡ 0
  nothing_left e =
      sym (row_count-sorted (urgent_for address) chosen)
      ∙ ap (row_count (urgent_for address)) e
      ∙ unfold row_count in refl

  pub read-IsOldest :
      1 ≤ row_count (urgent_for address) rows → (h : Message) × IsOldest address rows batch h
  read-IsOldest some_urgent = go (sorted chosen) refl
    where
      go : (xs : List Message) → sorted chosen ≡ xs → (h : Message) × IsOldest address rows batch h
      go [] e = absurd (
          omega (arith, some_urgent, row_count-keep_self (urgent_for address) rows, nothing_left e))
      go (h ∷ rest) e = (h, sorted_head h rest e)
