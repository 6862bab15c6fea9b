-- ===== src/Mailbox/Store/Batches.antt =====
-- What a batch of `read_mailbox_batch` holds: how much, which messages, and each of them once.
use Prim.Native.Nat.{min, max}
use native.Mathlib.Numerals.{add-one}
use caps_lock.Prelude.{
  ℕ, zero, suc, ◌+◌, ◌≤◌, ◌≡◌, ◌≢◌, refl, Bool, true, false, ◌&&◌, Option, List, [], ◌∷◌, ◌++◌,
  String, arith, if◌then◌else◌, ◌==◌, string_eq, bool_eq, nat_eq, ltb, length, take, drop, keep,
  return,
}
use caps_lock.Table.{row_count}
use caps_lock.Mailbox.Store.{
  Message, Batch, is_urgent, readable, insert_message, sorted, bounded_from, bounded_messages,
  group, interleave, read_mailbox_batch,
}

-- the bytes of the payloads of a batch
abbrev pub payload_total : List Message → ℕ
payload_total [] = 0
payload_total (m ∷ rows) = m.payload_bytes + payload_total rows

module _ (limit max_bytes : ℕ) where
  bounded_from_fits :
      (count total : ℕ) (rows : List Message)
      → (count ≤ limit → count + length (bounded_from limit max_bytes count total rows) ≤ limit)
        × (total ≤ max_bytes
            → total + payload_total (bounded_from limit max_bytes count total rows) ≤ max_bytes)
  unfolding bounded_from
  bounded_from_fits count total [] = omega arith
  bounded_from_fits count total (m ∷ rows) =
      ground (arith, bounded_from_fits (count + 1) (total + m.payload_bytes) rows)

  bounded_from_first :
      (m : Message) (rows : List Message)
      → 1 ≤ limit
      → m.payload_bytes ≤ max_bytes
      → bounded_from limit max_bytes 0 0 (m ∷ rows) ≢ []
  unfolding bounded_from
  bounded_from_first m rows h k = ground arith

-- Lemmas over predicates and counts, for each list operation of the read.
module _ (p : Message → Bool) where
  pub row_count-append :
      (xs ys : List Message) → row_count p (xs ++ ys) ≡ row_count p xs + row_count p ys
  unfolding row_count
  row_count-append [] ys = omega arith
  row_count-append (x ∷ xs) ys = ground (arith, row_count-append xs ys)

  pub row_count-take-drop :
      (n : ℕ) (xs : List Message)
      → row_count p (take n xs) + row_count p (drop n xs) ≡ row_count p xs
  unfolding row_count
  row_count-take-drop zero xs = omega arith
  row_count-take-drop (suc n) [] = omega arith
  row_count-take-drop (suc n) (x ∷ xs) = ground (arith, row_count-take-drop n xs)

  pub row_count-insert_message :
      (m : Message) (rows : List Message)
      → row_count p (insert_message m rows) ≡ row_count p (m ∷ rows)
  unfolding row_count insert_message
  row_count-insert_message m [] = refl
  row_count-insert_message m (n ∷ rows) = ground (arith, row_count-insert_message m rows)

  pub row_count-sorted : (rows : List Message) → row_count p (sorted rows) ≡ row_count p rows
  unfolding sorted row_count
  row_count-sorted [] = refl
  row_count-sorted (m ∷ rows) =
      ground (arith, row_count-insert_message m (sorted rows), row_count-sorted rows)

  pub row_count-bounded_from :
      (limit max_bytes count total : ℕ) (rows : List Message)
      → row_count p (bounded_from limit max_bytes count total rows) ≤ row_count p rows
  unfolding bounded_from row_count
  row_count-bounded_from limit max_bytes count total [] = omega arith
  row_count-bounded_from limit max_bytes count total (m ∷ rows) =
      ground
        (arith, row_count-bounded_from limit max_bytes (count + 1) (total + m.payload_bytes) rows)

  -- two disjoint selections share the rows out
  pub row_count-keep-keep :
      (q r : Message → Bool)
      → ((m : Message) → (q m && r m) ≡ false)
      → (rows : List Message)
      → row_count p (keep q rows) + row_count p (keep r rows) ≤ row_count p rows
  unfolding row_count
  row_count-keep-keep q r apart [] = omega arith
  row_count-keep-keep q r apart (m ∷ rows) =
      ground (arith, apart m, row_count-keep-keep q r apart rows)

  pub row_count-take-le : (n : ℕ) (xs : List Message) → row_count p (take n xs) ≤ row_count p xs
  row_count-take-le n xs = omega (arith, row_count-take-drop n xs)

  pub row_count-interleave :
      (n : ℕ) (active passive : List Message)
      → row_count p (interleave n active passive) ≡ row_count p active + row_count p passive
  row_count-interleave n active passive =
      let k = if nat_eq (length passive) 0 then n else min 24 n in
      omega (
        arith,
        row_count-append (take k active) (passive ++ drop k active),
        row_count-append passive (drop k active),
        row_count-take-drop k active,
      )

  -- the candidates of a read: no message more often than in the table
  row_count-candidates :
      (address : String) (tasks : Option (List String)) (n : ℕ) (rows : List Message)
      → row_count p
          (interleave n (group address tasks true n rows) (group address tasks false n rows))
        ≤ row_count p rows
  unfolding group
  row_count-candidates address tasks n rows =
      let urgent = λ (m : Message). readable address tasks m && (is_urgent m.kind == true) in
      let passive = λ (m : Message). readable address tasks m && (is_urgent m.kind == false) in
      omega (
        arith,
        row_count-interleave n (take (n + 1) (sorted (keep urgent rows)))
            (take (n + 1) (sorted (keep passive rows))),
        row_count-take-le (n + 1) (sorted (keep urgent rows)),
        row_count-take-le (n + 1) (sorted (keep passive rows)),
        row_count-sorted (keep urgent rows),
        row_count-sorted (keep passive rows),
        row_count-keep-keep urgent passive (λ m. ground arith) rows,
      )

module _ (address : String) (tasks : Option (List String)) (limit max_bytes : ℕ)
    (rows : List Message) (batch : Batch)
    (read : read_mailbox_batch address tasks limit max_bytes rows ≡ return batch) where
  abbrev pub size : ℕ
  size = min (max limit 1) 32

  abbrev pub candidates : List Message
  candidates =
      interleave size (group address tasks true size rows) (group address tasks false size rows)

  pub batch-eq : batch ≡ bounded_messages size (min max_bytes 65536) candidates
  unfolding read_mailbox_batch
  batch-eq = ground arith

  -- A batch holds no message more often than the table does: none at all that the table has not,
  -- and under a primary key each message once.
  pub row_count-read_mailbox_batch :
      (p : Message → Bool) → row_count p batch.messages ≤ row_count p rows
  unfolding bounded_messages
  row_count-read_mailbox_batch p = rw batch-eq (
      omega (
        arith,
        row_count-bounded_from p size (min max_bytes 65536) 0 0 candidates,
        row_count-candidates p address tasks size rows,
      ))

  -- A batch has at most 32 messages, at most the limit that the caller asks for when that is
  -- positive, and at most 64 KiB of payloads.
  pub read_mailbox_batch_bounds :
      (length batch.messages ≤ 32)
      × (1 ≤ limit → length batch.messages ≤ limit)
      × (payload_total batch.messages ≤ max_bytes)
      × (payload_total batch.messages ≤ 65536)
  unfolding bounded_messages
  read_mailbox_batch_bounds =
      let fits = bounded_from_fits size (min max_bytes 65536) 0 0 candidates in
      rw batch-eq (omega (arith, fits.0 (omega arith), fits.1 (omega arith)))

abbrev pub every : Message → Bool
every m = true

row_count-take_pos :
    (n : ℕ) (xs : List Message) → 1 ≤ row_count every xs → 1 ≤ row_count every (take (suc n) xs)
unfolding row_count
row_count-take_pos n [] h = h
row_count-take_pos n (x ∷ xs) h = omega arith

readable-groups :
    (q : Message → Bool) (rows : List Message)
    → row_count q rows
      ≤ row_count every (keep (λ m. q m && (is_urgent m.kind == true)) rows)
        + row_count every (keep (λ m. q m && (is_urgent m.kind == false)) rows)
unfolding row_count
readable-groups q [] = omega arith
readable-groups q (m ∷ rows) = ground (arith, readable-groups q rows)

module _ (address : String) (tasks : Option (List String)) (n : ℕ) (rows : List Message) where
  group_pos :
      (urgent : Bool)
      → 1
        ≤ row_count every
            (keep (λ m. readable address tasks m && (is_urgent m.kind == urgent)) rows)
      → 1 ≤ row_count every (group address tasks urgent n rows)
  unfolding group
  group_pos urgent h =
      let chosen =
        keep (λ (m : Message). readable address tasks m && (is_urgent m.kind == urgent)) rows in
      rw add-one
        (row_count-take_pos n (sorted chosen) (omega (arith, row_count-sorted every chosen)))

  candidates_pos :
      1 ≤ row_count (readable address tasks) rows
      → 1
        ≤ row_count every
            (interleave n (group address tasks true n rows) (group address tasks false n rows))
  candidates_pos h = grind (
    arith,
    row_count-interleave every n (group address tasks true n rows)
        (group address tasks false n rows),
    readable-groups (readable address tasks) rows,
    group_pos true,
    group_pos false,
  )

first_fits :
    (n max_bytes : ℕ) (rows : List Message)
    → 1 ≤ n
    → 1 ≤ row_count every rows
    → row_count (λ m. ltb max_bytes m.payload_bytes) rows ≡ 0
    → bounded_from n max_bytes 0 0 rows ≢ []
unfolding row_count
first_fits n max_bytes [] h k small = absurd (omega arith)
first_fits n max_bytes (m ∷ rows) h k small = bounded_from_first n max_bytes m rows h (ground arith)

-- A read that returns makes progress: if the address has a readable message, and no payload is
-- longer than the byte limit, then the batch is not empty.
pub read_mailbox_batch_progress :
    (address : String) (tasks : Option (List String)) (limit max_bytes : ℕ) (rows : List Message)
    (batch : Batch)
    → read_mailbox_batch address tasks limit max_bytes rows ≡ return batch
    → 1 ≤ row_count (readable address tasks) rows
    → row_count (λ m. ltb (min max_bytes 65536) m.payload_bytes) rows ≡ 0
    → batch.messages ≢ []
unfolding bounded_messages
read_mailbox_batch_progress address tasks limit max_bytes rows batch read some_readable small =
    let n = min (max limit 1) 32 in
    let cap = min max_bytes 65536 in
    let all_candidates =
      interleave n (group address tasks true n rows) (group address tasks false n rows) in
    rw (batch-eq address tasks limit max_bytes rows batch read) (
      first_fits n cap all_candidates (omega arith)
        (candidates_pos address tasks n rows some_readable)
        (omega (arith, row_count-candidates (λ m. ltb cap m.payload_bytes) address tasks n rows)))
