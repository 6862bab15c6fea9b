-- ===== src/Actions/Guards.antt =====
-- What each call of the `actions` table answers and what it leaves alone
-- (capslock/storage/repositories/actions.py).
pub mod Edges
use mathlib.Core.Option
use mathlib.Core.Path.{fun_ext}
use caps_lock.Prelude.{
  ◌≤◌, ℕ, ◌≡◌, refl, ◌∙◌, ap, Bool, true, false, ◌&&◌, Option, none, some, [], ◌∷◌, String, arith,
  ◌==◌, mem, All, Bool-cases, Option-cases, return, raise, inl, inr, if◌then◌else◌, ==_self,
  string_eq, nat_eq, eq_iff, keep, length,
}
use caps_lock.Table.{
  update_where, row_count, first-update_where, first-update_where_ne, row_count-pos,
  row_count-first, All-settled, row_count-settled, row_count_unique, row_count-keep,
}
use caps_lock.Actions.Record.{action_status_eq, kind_eq, type_eq, ActionStatus, ActionRecord}
use caps_lock.Actions.Store.{
  Actions, Report, invalid_transition, changed_concurrently, not_reversible, transition,
  commit_transition, allowed, moved, cancel_run, mark_reversed, require, get, has_id, in_session,
  in_status, active, latest, later, open_in_run, cancel_row, undoable, last_completed_file_action,
  with_reversal, reversible,
}

-- `a.status → target` is an edge of the lifecycle.
abbrev pub IsEdge : ActionStatus → ActionStatus → Type 0
IsEdge from target = mem target (allowed from) ≡ true

moved_id :
    (target : ActionStatus) (now : ℕ) (report : Report) (r : ActionRecord)
    → (moved target now report r).id ≡ r.id
unfolding moved
moved_id target now report r = ground arith

moved_session :
    (target : ActionStatus) (now : ℕ) (report : Report) (r : ActionRecord)
    → (moved target now report r).session_id ≡ r.session_id
unfolding moved
moved_session target now report r = ground arith

module _ (id : String) (rows : Actions) (a : ActionRecord) (found : get id none rows ≡ some a) where
  found_id : has_id id a ≡ true
  unfolding get
  found_id = ground (arith, row_count-first (λ r. has_id id r && in_session none r) rows a found)

  -- the look-up of the row after an update of it
  get-update_where_self :
      (p : ActionRecord → Bool) (f : ActionRecord → ActionRecord)
      → ((r : ActionRecord) → (f r).id ≡ r.id)
      → p a ≡ true
      → get id none (update_where p f rows) ≡ some (f a)
  unfolding get
  get-update_where_self p f same t =
      first-update_where (λ r. has_id id r && in_session none r) p f
        (λ r. ap (λ i. (i == id) && true) (same r)) rows
      ∙ rw found (rw t)

  counted : (p : ActionRecord → Bool) → p a ≡ true → nat_eq (row_count p rows) 0 ≡ false
  unfolding get
  counted p t = row_count-pos p (λ r. has_id id r && in_session none r) rows a found t

  seen_row : in_status a.status id a ≡ true
  seen_row = ground (arith, found_id, ==_self a.status)

  -- what a transition answers, by the table `allowed`
  pub transition_outcome :
      (target : ActionStatus) (now : ℕ) (report : Report)
      → (transition id target now report rows).0 ≡ (
          if mem target (allowed a.status)
          then return (moved target now report a)
          else raise invalid_transition)
  unfolding transition commit_transition require
  transition_outcome target now report = ground (
    arith,
    counted (in_status a.status id) seen_row,
    get-update_where_self (in_status a.status id) (moved target now report)
        (moved_id target now report) seen_row,
  )

  -- where it succeeds, the table then has that row
  pub transition-get :
      (target : ActionStatus) (now : ℕ) (report : Report)
      → IsEdge a.status target
      → get id none (transition id target now report rows).1 ≡ some (moved target now report a)
  unfolding transition commit_transition require
  transition-get target now report edge = ground (
    arith,
    counted (in_status a.status id) seen_row,
    get-update_where_self (in_status a.status id) (moved target now report)
        (moved_id target now report) seen_row,
  )

  pub transition_off_edge :
      (target : ActionStatus) (now : ℕ) (report : Report)
      → mem target (allowed a.status) ≡ false
      → transition id target now report rows ≡ (raise invalid_transition, rows)
  unfolding transition commit_transition require
  transition_off_edge target now report off = ground (arith, found)

  -- An action that is no longer active cannot be moved: every transition raises and writes nothing.
  pub transition_terminal :
      (target : ActionStatus) (now : ℕ) (report : Report)
      → active a.status ≡ false
      → transition id target now report rows ≡ (raise invalid_transition, rows)
  unfolding transition commit_transition require allowed
  transition_terminal target now report done = ground (arith, found)

-- an update of rows with one id is not seen at another
get-update_where_ne :
    (id j : String) (p : ActionRecord → Bool) (f : ActionRecord → ActionRecord) (rows : Actions)
    → ((r : ActionRecord) → (f r).id ≡ r.id)
    → ((r : ActionRecord) → has_id id r ≡ false → p r ≡ false)
    → (j == id) ≡ false
    → get j none (update_where p f rows) ≡ get j none rows
unfolding get
get-update_where_ne id j p f rows same only apart =
    first-update_where_ne (λ r. has_id j r && in_session none r) p f
      (λ r. ap (λ i. (i == j) && true) (same r))
      (λ r h. ground (arith, only r, eq_iff r.id j, eq_iff r.id id, eq_iff j id)) rows

module _ (id j : String) (target : ActionStatus) (now : ℕ) (report : Report) (rows : Actions)
    (apart : (j == id) ≡ false) where
  commit_transition_others :
      (seen : ActionStatus)
      → get j none (commit_transition seen id target now report rows).1 ≡ get j none rows
  unfolding commit_transition require
  commit_transition_others seen = ground (
    arith,
    get-update_where_ne id j (in_status seen id) (moved target now report) rows
        (moved_id target now report) (λ r h. ground arith) apart,
  )

  -- A transition of one action leaves every other action as it was, whether it returns or raises.
  pub transition_others : get j none (transition id target now report rows).1 ≡ get j none rows
  unfolding transition require
  transition_others = elim (Option-cases (get id none rows)) [
    | inl absent ↦ rw absent
    | inr (a, found) ↦ rw found (commit_transition_others a.status)
  ]

module _ (id : String) (target : ActionStatus) (now : ℕ) (report : Report) (rows : Actions) where
  pub commit_transition_stale :
      (seen : ActionStatus) (a : ActionRecord)
      → row_count (has_id id) rows ≤ 1
      → get id none rows ≡ some a
      → (a.status == seen) ≡ false
      → IsEdge seen target
      → commit_transition seen id target now report rows ≡ (raise changed_concurrently, rows)
  unfolding commit_transition get
  commit_transition_stale seen a unique found moved_on edge = ground (
    arith,
    row_count_unique (in_status seen id) (λ r. has_id id r && in_session none r)
        (λ r h. ground arith) rows a found (ground arith) (rw same_key unique),
  )
    where
      same_key :
          row_count (λ (r : ActionRecord). has_id id r && in_session none r) rows
          ≡ row_count (has_id id) rows
      same_key = ap (λ p. row_count p rows) (fun_ext λ r. ground arith)

-- It leaves the actions of other runs, and those that were no longer active, as they were.
pub cancel_run_others :
    (run : String) (now : ℕ) (message : String) (rows : Actions) (j : String) (a : ActionRecord)
    → get j none rows ≡ some a
    → open_in_run run a ≡ false
    → get j none (cancel_run run now message rows).1 ≡ some a
unfolding cancel_run get
cancel_run_others run now message rows j a found closed =
    first-update_where (λ r. has_id j r && in_session none r) (open_in_run run)
      (cancel_row now message) (λ r. refl) rows
    ∙ rw found (rw closed)

cancelled_closed :
    (run : String) (now : ℕ) (message : String) (rows : Actions)
    → All (λ r. open_in_run run r ≡ false) (cancel_run run now message rows).1
unfolding cancel_run
cancelled_closed run now message rows =
    All-settled (open_in_run run) (cancel_row now message) (λ r h. ground arith) rows

cancelled_count :
    (run : String) (now : ℕ) (message : String) (rows : Actions)
    → (cancel_run run now message rows).0 ≡ return (length (keep (open_in_run run) rows))
unfolding cancel_run
cancelled_count run now message rows = ap return (row_count-keep (open_in_run run) rows)

cancelled_get :
    (run : String) (now : ℕ) (message : String) (rows : Actions) (j : String)
    → get j none (cancel_run run now message rows).1
      ≡ Option.map
          (λ r. if open_in_run run r then cancel_row now message r else r)
          (get j none rows)
unfolding cancel_run get
cancelled_get run now message rows j =
    first-update_where (λ r. has_id j r && in_session none r) (open_in_run run)
      (cancel_row now message) (λ r. refl) rows

-- After the cancellation of a run no action of the run is active, and the call returned how many
-- it has cancelled: as many as were active in the run before. The actions of other runs, and those
-- that were no longer active, are as they were.
pub cancel_run_closes :
    (run : String) (now : ℕ) (message : String) (rows : Actions)
    → All (λ r. open_in_run run r ≡ false) (cancel_run run now message rows).1
      × ((cancel_run run now message rows).0 ≡ return (length (keep (open_in_run run) rows)))
      × ((j : String)
          → get j none (cancel_run run now message rows).1
            ≡ Option.map
                (λ r. if open_in_run run r then cancel_row now message r else r)
                (get j none rows))
cancel_run_closes run now message rows = (
  cancelled_closed run now message rows,
  cancelled_count run now message rows,
  cancelled_get run now message rows,
)

-- An action is undone once: a second reversal of it raises and writes nothing.
pub mark_reversed_once :
    (id : String) (t u : ℕ) (rows : Actions)
    → mark_reversed id u (mark_reversed id t rows).1
      ≡ (raise not_reversible, (mark_reversed id t rows).1)
unfolding mark_reversed require
mark_reversed_once id t u rows =
    ground (arith, row_count-settled (reversible id) (with_reversal t) (λ r h. ground arith) rows)

latest_all :
    (p : ActionRecord → Bool) (best : Option ActionRecord) (rows : Actions) (a : ActionRecord)
    → ((b : ActionRecord) → best ≡ some b → p b ≡ true)
    → latest best (keep p rows) ≡ some a
    → p a ≡ true
latest_all p best [] a h e = h a e
latest_all p none (r ∷ rows) a h e = elim (Bool-cases (p r)) [
  | inl t ↦ latest_all p (some r) rows a (λ b q. ground arith) (rw t at e)
  | inr f ↦ latest_all p none rows a h (rw f at e)
]
latest_all p (some c) (r ∷ rows) a h e = elim (Bool-cases (p r)) [
  | inl t ↦
      latest_all p (some (if later r.finished_at c.finished_at then r else c)) rows a
        (λ b q. elim (Bool-cases (later r.finished_at c.finished_at)) [
          | inl l ↦ ground (arith, h c)
          | inr l ↦ ground (arith, h c)
        ])
        (rw t at e)
  | inr f ↦ latest_all p (some c) rows a h (rw f at e)
]

-- `/undo` offers only a completed, applied and not yet reversed file action of the session.
pub last_completed_file_action-undoable :
    (session : String) (rows : Actions) (a : ActionRecord)
    → last_completed_file_action session rows ≡ some a
    → undoable session a ≡ true
unfolding last_completed_file_action
last_completed_file_action-undoable session rows a h =
    latest_all (undoable session) none rows a (λ b c. cc) h
