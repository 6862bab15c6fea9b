-- ===== src/Mailbox/Receiver/Ids.antt =====
-- How often an id stands in a list, and what the list operations of the receiver do to that number.
use caps_lock.Prelude.{
  ℕ, suc, ◌+◌, ◌≤◌, ◌≡◌, refl, Bool, true, false, not, ◌&&◌, ◌||◌, List, [], ◌∷◌, ◌++◌, String,
  arith, if◌then◌else◌, ◌==◌, mem, string_eq, keep, eq_iff,
}
use caps_lock.Table.{row_count}
use caps_lock.Mailbox.Store.{Message, has_message_id, message_ids, unique}

unfoldable pub occurrences : String → List String → ℕ
occurrences i [] = 0
occurrences i (x ∷ xs) = let n = occurrences i xs in if x == i then suc n else n

pub occurrences-append :
    (i : String) (xs ys : List String)
    → occurrences i (xs ++ ys) ≡ occurrences i xs + occurrences i ys
unfolding occurrences
occurrences-append i [] ys = omega arith
occurrences-append i (x ∷ xs) ys = ground (arith, occurrences-append i xs ys)

pub mem-append : (i : String) (xs ys : List String) → mem i (xs ++ ys) ≡ (mem i xs || mem i ys)
mem-append i [] ys = refl
mem-append i (x ∷ xs) ys = ground (arith, mem-append i xs ys)

-- an id is a member exactly when it occurs
pub mem→occurs : (i : String) (xs : List String) → mem i xs ≡ true → 1 ≤ occurrences i xs
unfolding occurrences
mem→occurs i [] h = cc
mem→occurs i (x ∷ xs) h = ground (arith, eq_iff i x, eq_iff x i, mem→occurs i xs)

pub absent→none : (i : String) (xs : List String) → mem i xs ≡ false → occurrences i xs ≡ 0
unfolding occurrences
absent→none i [] h = refl
absent→none i (x ∷ xs) h = ground (arith, eq_iff i x, eq_iff x i, absent→none i xs)

pub occurrences-keep-le :
    (i : String) (p : String → Bool) (xs : List String)
    → occurrences i (keep p xs) ≤ occurrences i xs
unfolding occurrences
occurrences-keep-le i p [] = omega arith
occurrences-keep-le i p (x ∷ xs) = ground (arith, occurrences-keep-le i p xs)

pub mem-keep :
    (i : String) (p : String → Bool) (xs : List String) → mem i (keep p xs) ≡ (mem i xs && p i)
mem-keep i p [] = refl
mem-keep i p (x ∷ xs) = ground (arith, eq_iff i x, mem-keep i p xs)

pub occurrences-unique-le :
    (i : String) (xs : List String) → occurrences i (unique xs) ≤ occurrences i xs
unfolding occurrences unique
occurrences-unique-le i [] = omega arith
occurrences-unique-le i (x ∷ xs) =
    ground
      (arith, occurrences-keep-le i (λ y. not (y == x)) (unique xs), occurrences-unique-le i xs)

pub mem-unique : (i : String) (xs : List String) → mem i (unique xs) ≡ mem i xs
unfolding unique
mem-unique i [] = refl
mem-unique i (x ∷ xs) =
    ground (arith, mem-keep i (λ y. not (y == x)) (unique xs), mem-unique i xs, eq_iff i x)

-- the rows of an id are the occurrences of the id among the ids of the rows
pub row_count-has_message_id :
    (i : String) (rows : List Message)
    → row_count (has_message_id i) rows ≡ occurrences i (message_ids rows)
unfolding row_count occurrences
row_count-has_message_id i [] = refl
row_count-has_message_id i (m ∷ rows) = ground (arith, row_count-has_message_id i rows)
