-- ===== src/Agents/Accounts/Settling.antt =====
-- The charge of `finish_attempt` (capslock/storage/repositories/collaboration.py).
use caps_lock.Prelude.{
  ℕ, ◌+◌, ◌≡◌, refl, sym, ap, ◌∙◌, Bool, true, false, Option, none, some, List, [], ◌∷◌, String,
  if◌then◌else◌, arith, first, Bool-cases, inl, inr, ◌==◌, string_eq, eq_iff,
}
use caps_lock.Table.{update_where, row_count-update_where, All-update_where}
use caps_lock.Governance.Limits.{Usage}
use caps_lock.Agents.Record.{AgentAttemptState, AgentTask, AgentAttempt, ParentRun, AgentTables}
use caps_lock.Agents.Store.{has_task_id, has_attempt_id, has_run_id}
use caps_lock.Agents.Finishing.{
  Finish, finish_attempt, finish_found, finish_joined, close_attempt, finish_row, account,
  add_usage, is_terminal, is_result,
}
use caps_lock.Agents.Accounts.{
  total-update_where, Meter, charge, charge_of, charged, spent, amount_of, parent_run, is_some,
  IsKeyed, Extends, Charges, metered, on_run-add_usage,
}
use caps_lock.Agents.Accounts.Keeping.{
  IsOwned, Extends-update_where, total_further, IsKeyed-further, Charges-refl,
}

-- an open attempt has been charged nothing
pub charge_of-open :
    (m : Meter) (state : AgentAttemptState) (account : Bool) (usage : Option Usage)
    → is_terminal state ≡ false
    → charge_of m state account usage ≡ 0
charge_of-open m AgentAttemptState.created account usage h = refl
charge_of-open m AgentAttemptState.running account usage h = refl
charge_of-open m AgentAttemptState.suspended account usage h = refl
charge_of-open m AgentAttemptState.completed account usage h = cc
charge_of-open m AgentAttemptState.failed account usage h = cc
charge_of-open m AgentAttemptState.cancelled account usage h = cc
charge_of-open m AgentAttemptState.interrupted account usage h = cc

apart :
    (x parent run : String) → (parent == run) ≡ false → (x == run) ≡ true → (x == parent) ≡ false
apart x parent run h e =
    let same : x ≡ run = (eq_iff x run).0 e in
    elim (Bool-cases (x == parent)) [
      | inl t ↦
          let other : x ≡ parent = (eq_iff x parent).0 t in
          let k : (parent == run) ≡ true = (eq_iff parent run).1 (sym other ∙ same) in cc
      | inr t ↦ t
    ]

-- the update of the runs adds the usage to the parent
add_usage-spent :
    (m : Meter) (run parent : String) (u : Usage) (rows : List ParentRun)
    → is_some (first (has_run_id run) rows) ≡ true
    → amount_of m (first (has_run_id run) (update_where (has_run_id parent) (add_usage u) rows))
      ≡ amount_of m (first (has_run_id run) rows) + (if parent == run then metered m u else 0)
unfolding update_where
add_usage-spent m run parent u [] h = cc
add_usage-spent m run parent u (r ∷ rows) h = elim (Bool-cases (parent == run)) [
  | inl e ↦
      let same : parent ≡ run = (eq_iff parent run).0 e in
      let ids : (r.id == parent) ≡ (r.id == run) = ap (λ x. r.id == x) same in
      ground (arith, on_run-add_usage m u r, add_usage-spent m run parent u rows)
  | inr e ↦ ground (arith, apart r.id parent run e, add_usage-spent m run parent u rows)
]

no_charge : (b : Bool) (n : ℕ) → n ≡ n + (if b then 0 else 0)
no_charge b n = ground arith

account-spent :
    (m : Meter) (run parent : String) (state : AgentAttemptState) (accounted : Bool)
    (usage : Option Usage) (rows : List ParentRun)
    → is_some (first (has_run_id run) rows) ≡ true
    → amount_of m (first (has_run_id run) (account parent state accounted usage rows))
      ≡ amount_of m (first (has_run_id run) rows)
        + (if parent == run then charge_of m state accounted usage else 0)
unfolding update_where
account-spent m run parent AgentAttemptState.completed true (some u) rows h =
    add_usage-spent m run parent u rows h
account-spent m run parent AgentAttemptState.completed true none rows h = no_charge _ _
account-spent m run parent AgentAttemptState.completed false usage rows h = no_charge _ _
account-spent m run parent AgentAttemptState.created accounted usage rows h = no_charge _ _
account-spent m run parent AgentAttemptState.running accounted usage rows h = no_charge _ _
account-spent m run parent AgentAttemptState.suspended accounted usage rows h = no_charge _ _
account-spent m run parent AgentAttemptState.failed accounted usage rows h = no_charge _ _
account-spent m run parent AgentAttemptState.cancelled accounted usage rows h = no_charge _ _
account-spent m run parent AgentAttemptState.interrupted accounted usage rows h = no_charge _ _

has_run-add_usage :
    (run parent : String) (u : Usage) (rows : List ParentRun)
    → is_some (first (has_run_id run) (update_where (has_run_id parent) (add_usage u) rows))
      ≡ is_some (first (has_run_id run) rows)
unfolding update_where
has_run-add_usage run parent u [] = refl
has_run-add_usage run parent u (r ∷ rows) = ground (arith, has_run-add_usage run parent u rows)

has_run-account :
    (run parent : String) (state : AgentAttemptState) (accounted : Bool) (usage : Option Usage)
    (rows : List ParentRun)
    → is_some (first (has_run_id run) (account parent state accounted usage rows))
      ≡ is_some (first (has_run_id run) rows)
unfolding update_where
has_run-account run parent AgentAttemptState.completed true (some u) rows =
    has_run-add_usage run parent u rows
has_run-account run parent AgentAttemptState.completed true none rows = refl
has_run-account run parent AgentAttemptState.completed false usage rows = refl
has_run-account run parent AgentAttemptState.created accounted usage rows = refl
has_run-account run parent AgentAttemptState.running accounted usage rows = refl
has_run-account run parent AgentAttemptState.suspended accounted usage rows = refl
has_run-account run parent AgentAttemptState.failed accounted usage rows = refl
has_run-account run parent AgentAttemptState.cancelled accounted usage rows = refl
has_run-account run parent AgentAttemptState.interrupted accounted usage rows = refl

-- the attempt that is finished is charged once: it was open, and its charge is added to its parent
close_attempt-Charges :
    (f : Finish) (id : String) (state : AgentAttemptState) (usage : Option Usage)
    (error : Option String) (s : AgentTables) (a : AgentAttempt) (t : AgentTask)
    → IsKeyed s
    → first (has_attempt_id id) s.attempts ≡ some a
    → first (has_task_id a.task_id) s.tasks ≡ some t
    → is_terminal a.state ≡ false
    → Charges s (close_attempt f id state usage error a t s)
unfolding charged spent parent_run
close_attempt-Charges f id state usage error s a t h found task active =
    let p : AgentAttempt → Bool = has_attempt_id id in
    let g : AgentAttempt → AgentAttempt = finish_row state usage error f.now in
    let ext : Extends s.tasks (close_attempt f id state usage error a t s).tasks =
      Extends-update_where _ _ (λ r. refl) (λ r. refl) s.tasks in
    let owned = All-update_where (IsOwned s.tasks) p g (λ r o e. o) s.attempts h.owned in
    record {
      keyed =
          IsKeyed-further s (close_attempt f id state usage error a t s) h ext
            (λ i.
              rw (row_count-update_where (has_attempt_id i) p g (λ r. refl) s.attempts) (h.keyed i))
            owned;
      present = λ run e. has_run-account run t.parent_run_id state a.account_usage usage s.runs ∙ e;
      balance = λ m run e.
          let c = charge m run s.tasks in
          let before : c a ≡ 0 =
            ground (arith, charge_of-open m a.state a.account_usage a.usage active) in
          let after : c (g a)
              ≡ (if t.parent_run_id == run then charge_of m state a.account_usage usage else 0) =
            rw task refl in
          omega (
            arith,
            before,
            after,
            account-spent m run t.parent_run_id state a.account_usage usage s.runs e,
            total-update_where c p g s.attempts a found (h.keyed id),
            total_further s.tasks (close_attempt f id state usage error a t s).tasks ext m run
                (update_where p g s.attempts) owned,
          );
    }

pub finish_attempt-Charges :
    (f : Finish) (id : String) (state : AgentAttemptState) (usage : Option Usage)
    (error : Option String) (s : AgentTables)
    → IsKeyed s
    → Charges s (finish_attempt f id state usage error s).1
unfolding finish_attempt
finish_attempt-Charges f id state usage error s h = elim (Bool-cases (is_result state)) [
  | inr e ↦ rw e (Charges-refl s h)
  | inl e ↦ rw e (by_attempt (first (has_attempt_id id) s.attempts) refl)
]
  where
    by_task :
        (a : AgentAttempt)
        → first (has_attempt_id id) s.attempts ≡ some a
        → (o : Option AgentTask) → first (has_task_id a.task_id) s.tasks ≡ o
        → Charges s (finish_joined f id state usage error a o s).1
    by_task a e none k = Charges-refl s h
    by_task a e (some t) k = elim (Bool-cases (is_terminal a.state)) [
      | inl d ↦ rw d (Charges-refl s h)
      | inr d ↦ rw d (close_attempt-Charges f id state usage error s a t h e k d)
    ]

    by_attempt :
        (o : Option AgentAttempt)
        → first (has_attempt_id id) s.attempts ≡ o
        → Charges s (finish_found f id state usage error o s).1
    by_attempt none e = Charges-refl s h
    by_attempt (some a) e = by_task a e (first (has_task_id a.task_id) s.tasks) refl
