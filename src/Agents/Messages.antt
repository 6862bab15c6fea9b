-- ===== src/Agents/Messages.antt =====
-- The numbered messages of agent tasks (`record_message` of
-- capslock/storage/repositories/collaboration.py). A message comes with its payload as safe_payload
-- returns it, the payload's digest, the text of its kind and its time.
use caps_lock.Prelude.{
  ℕ, zero, suc, ◌≡◌, ◌⊎◌, refl, sym, ap, ◌∙◌, Bool, true, not, List, [], ◌∷◌, ◌++◌, map, String,
  arith, if◌then◌else◌, leb, nat_eq, length, keep, any, Bool-cases, inl, inr, ◌==◌, string_eq,
  eq_iff, return, raise, Exec,
}
use mathlib.Core.Path.{subst}
use caps_lock.Plans.Revising.{largest}

pub record AgentMessage : Type 0 where
  pub message_id : String
  pub task_id : String
  pub parent_run_id : String
  pub sender : String
  pub recipient : String
  pub sequence : ℕ
  pub kind : String
  pub payload : String
  pub payload_digest : String
  pub created_at : ℕ

pub data MessageError : Type 0 where
  bad_sequence integrity : MessageError

abbrev pub of_task : String → AgentMessage → Bool
of_task task m = m.task_id == task

-- the numbers of a task's messages, in the order of the table
abbrev pub sequences : String → List AgentMessage → List ℕ
sequences task rows = map (λ (m : AgentMessage). m.sequence) (keep (of_task task) rows)

-- a message with the next number of its task is inserted; the ids are a primary key
unfoldable pub record_message : AgentMessage → Exec MessageError (List AgentMessage) Unit
record_message m rows =
    if not (nat_eq (suc (largest (sequences m.task_id rows))) m.sequence)
    then (raise bad_sequence, rows)
    else if any (λ (r : AgentMessage). r.message_id == m.message_id) rows
    then (raise integrity, rows)
    else (return tt, rows ++ m ∷ [])

-- 1, 2, …, n
unfoldable pub upto : ℕ → List ℕ
upto zero = []
upto (suc n) = upto n ++ suc n ∷ []

-- each task's messages are numbered from 1, without a gap
abbrev pub IsNumbered : List AgentMessage → Type 0
IsNumbered rows = (task : String) → sequences task rows ≡ upto (length (sequences task rows))

largest-append : (ns : List ℕ) (n : ℕ) → leb (largest ns) n ≡ true → largest (ns ++ n ∷ []) ≡ n
largest-append [] n h = ground arith
largest-append (m ∷ ns) n h = ground (arith, largest-append ns n)

largest-upto : (n : ℕ) → largest (upto n) ≡ n
unfolding upto
largest-upto zero = refl
largest-upto (suc n) = largest-append (upto n) (suc n) (ground (arith, largest-upto n))

sequences-append :
    (task : String) (rows : List AgentMessage) (m : AgentMessage)
    → sequences task (rows ++ m ∷ [])
      ≡ (if m.task_id == task then sequences task rows ++ m.sequence ∷ [] else sequences task rows)
sequences-append task [] m = ground arith
sequences-append task (r ∷ rows) m = ground (arith, sequences-append task rows m)

length-snoc : (ns : List ℕ) (n : ℕ) → length (ns ++ n ∷ []) ≡ suc (length ns)
length-snoc [] n = refl
length-snoc (m ∷ ns) n = ap suc (length-snoc ns n)

append-IsNumbered :
    (rows : List AgentMessage) (m : AgentMessage)
    → IsNumbered rows
    → suc (largest (sequences m.task_id rows)) ≡ m.sequence
    → IsNumbered (rows ++ m ∷ [])
unfolding upto
append-IsNumbered rows m h next task = elim (Bool-cases (m.task_id == task)) [
  | inr e ↦ rw (sequences-append task rows m, e) (h task)
  | inl e ↦
      let same : m.task_id ≡ task = (eq_iff m.task_id task).0 e in
      let ns = sequences task rows in
      let last : largest ns ≡ length ns = ap largest (h task) ∙ largest-upto (length ns) in
      let number : m.sequence ≡ suc (length ns) =
        sym next ∙ ap (λ x. suc (largest (sequences x rows))) same ∙ ap suc last in
      rw (sequences-append task rows m, e, length-snoc ns m.sequence, number)
        (ap (λ x. x ++ suc (length ns) ∷ []) (h task))
]

record_message-either :
    (m : AgentMessage) (rows : List AgentMessage)
    → ((record_message m rows).1 ≡ rows)
      ⊎ ((suc (largest (sequences m.task_id rows)) ≡ m.sequence)
          × ((record_message m rows).1 ≡ rows ++ m ∷ []))
unfolding record_message
record_message-either m rows = ground arith

unfoldable pub record_all : List AgentMessage → List AgentMessage → List AgentMessage
unfolding record_message
record_all [] rows = rows
record_all (m ∷ ms) rows = record_all ms (record_message m rows).1

-- Whatever messages are recorded, in whatever order, refused or not: the messages of each task are
-- numbered 1, 2, 3 and so on, in the order in which they were recorded, without a gap or a repeat.
pub record_all-IsNumbered :
    (ms rows : List AgentMessage) → IsNumbered rows → IsNumbered (record_all ms rows)
unfolding record_all
record_all-IsNumbered [] rows h = h
record_all-IsNumbered (m ∷ ms) rows h =
    record_all-IsNumbered ms (record_message m rows).1 (elim (record_message-either m rows) [
      | inl e ↦ subst IsNumbered (sym e) h
      | inr (next, e) ↦ subst IsNumbered (sym e) (append-IsNumbered rows m h next)
    ])
