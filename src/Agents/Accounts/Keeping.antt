-- ===== src/Agents/Accounts/Keeping.antt =====
-- The writes of capslock/storage/repositories/collaboration.py that charge nothing.
use mathlib.Core.Path.{subst}
use caps_lock.Prelude.{
  ◌≤◌, ◌≡◌, refl, sym, ap, ◌∙◌, Bool, true, List, [], ◌∷◌, ◌++◌, String, arith, All, inl, inr, ◌==◌,
  string_eq, Option-cases,
}
use caps_lock.Table.{update_where, row_count, row_count-update_where, All-update_where, All-map}
use caps_lock.Agents.Record.{AgentTask, AgentAttempt, AgentTables}
use caps_lock.Agents.Store.{has_attempt_id}
use caps_lock.Agents.Accounts.{
  total, total-same, total-kept, Meter, charge, charge_of, charged, spent, parent_run, is_some,
  IsKeyed, Extends, Charges,
}

abbrev pub IsOwned : List AgentTask → AgentAttempt → Type 0
IsOwned tasks a = is_some (parent_run tasks a.task_id) ≡ true

pub Extends-refl : (t : List AgentTask) → Extends t t
Extends-refl t id run h = h

-- a write that keeps ids and runs
parent_run-update_where :
    (p : AgentTask → Bool) (g : AgentTask → AgentTask)
    → ((r : AgentTask) → (g r).id ≡ r.id)
    → ((r : AgentTask) → (g r).parent_run_id ≡ r.parent_run_id)
    → (t : List AgentTask) (id : String) → parent_run (update_where p g t) id ≡ parent_run t id
unfolding parent_run update_where
parent_run-update_where p g same parent [] id = refl
parent_run-update_where p g same parent (r ∷ t) id =
    ground (arith, same r, parent r, parent_run-update_where p g same parent t id)

pub Extends-update_where :
    (p : AgentTask → Bool) (g : AgentTask → AgentTask)
    → ((r : AgentTask) → (g r).id ≡ r.id)
    → ((r : AgentTask) → (g r).parent_run_id ≡ r.parent_run_id)
    → (t : List AgentTask) → Extends t (update_where p g t)
Extends-update_where p g same parent t id run h = parent_run-update_where p g same parent t id ∙ h

pub Extends-append : (t : List AgentTask) (r : AgentTask) → Extends t (t ++ r ∷ [])
unfolding parent_run
Extends-append [] r id run h = cc
Extends-append (x ∷ t) r id run h = ground (arith, Extends-append t r id run)

pub IsOwned-further :
    (t u : List AgentTask) → Extends t u → (a : AgentAttempt) → IsOwned t a → IsOwned u a
IsOwned-further t u ext a h = elim (Option-cases (parent_run t a.task_id)) [
  | inl e ↦ cc
  | inr (run, e) ↦ let k = ext a.task_id run e in cc
]

charge_further :
    (t u : List AgentTask)
    → Extends t u
    → (m : Meter) (run : String) (a : AgentAttempt) → IsOwned t a
    → charge m run u a ≡ charge m run t a
charge_further t u ext m run a h = elim (Option-cases (parent_run t a.task_id)) [
  | inl e ↦ cc
  | inr (r, e) ↦ let k = ext a.task_id r e in rw (k, e) refl
]

pub total_further :
    (t u : List AgentTask)
    → Extends t u
    → (m : Meter) (run : String) (rows : List AgentAttempt) → All (IsOwned t) rows
    → total (charge m run u) rows ≡ total (charge m run t) rows
total_further t u ext m run rows =
    total-same (charge m run u) (charge m run t) (IsOwned t) (charge_further t u ext m run) rows

pub IsKeyed-further :
    (s t : AgentTables)
    → IsKeyed s
    → Extends s.tasks t.tasks
    → ((id : String) → row_count (has_attempt_id id) t.attempts ≤ 1)
    → All (IsOwned s.tasks) t.attempts
    → IsKeyed t
IsKeyed-further s t h ext keyed owned = record {
  keyed = keyed;
  owned =
      All-map (IsOwned s.tasks) (IsOwned t.tasks) (IsOwned-further s.tasks t.tasks ext) t.attempts
        owned;
}

-- a call that leaves the runs, and the charges of the attempts
pub kept-Charges :
    (s t : AgentTables)
    → IsKeyed s
    → t.runs ≡ s.runs
    → Extends s.tasks t.tasks
    → ((id : String) → row_count (has_attempt_id id) t.attempts ≤ 1)
    → All (IsOwned s.tasks) t.attempts
    → ((m : Meter) (run : String)
        → total (charge m run s.tasks) t.attempts ≡ total (charge m run s.tasks) s.attempts)
    → Charges s t
unfolding charged spent
kept-Charges s t h runs ext keyed owned same = record {
  keyed = IsKeyed-further s t h ext keyed owned;
  present = λ run e. rw runs e;
  balance = λ m run e.
      let k = total_further s.tasks t.tasks ext m run t.attempts owned in
      rw (runs, k, same m run) refl;
}

-- a call that writes no attempt
pub untouched-Charges :
    (s t : AgentTables)
    → IsKeyed s
    → t.runs ≡ s.runs
    → t.attempts ≡ s.attempts
    → Extends s.tasks t.tasks
    → Charges s t
untouched-Charges s t h runs attempts ext =
    kept-Charges s t h runs ext (λ id. rw attempts (h.keyed id)) (rw attempts h.owned)
      (λ m run. rw attempts refl)

-- a call that updates attempts and keeps their charges
pub update-Charges :
    (s t : AgentTables) (p : AgentAttempt → Bool) (g : AgentAttempt → AgentAttempt)
    → IsKeyed s
    → t.runs ≡ s.runs
    → t.attempts ≡ update_where p g s.attempts
    → Extends s.tasks t.tasks
    → ((a : AgentAttempt) → (g a).id ≡ a.id)
    → ((a : AgentAttempt) → (g a).task_id ≡ a.task_id)
    → ((m : Meter) (a : AgentAttempt)
        → p a ≡ true
        → charge_of m (g a).state (g a).account_usage (g a).usage
          ≡ charge_of m a.state a.account_usage a.usage)
    → Charges s t
update-Charges s t p g h runs attempts ext ids tasks same =
    kept-Charges s t h runs ext
      (λ id.
        rw
          (
            attempts,
            row_count-update_where (has_attempt_id id) p g (λ a. ap (λ x. x == id) (ids a))
                s.attempts,
          )
          (h.keyed id))
      (rw attempts (
        All-update_where (IsOwned s.tasks) p g
          (λ a o e. subst (λ x. is_some (parent_run s.tasks x) ≡ true) (sym (tasks a)) o) s.attempts
          h.owned))
      (λ m run.
        rw attempts
          (total-kept (charge m run s.tasks) p g (λ a e. rw (tasks a, same m a e) refl) s.attempts))

pub Charges-refl : (s : AgentTables) → IsKeyed s → Charges s s
Charges-refl s h = record { keyed = h; present = λ run e. e; balance = λ m run e. refl }

pub Charges-trans : {s t u : AgentTables} → Charges s t → Charges t u → Charges s u
Charges-trans {s} {t} {u} a b = record {
  keyed = b.keyed;
  present = λ run e. b.present run (a.present run e);
  balance = λ m run e. omega (arith, a.balance m run e, b.balance m run (a.present run e));
}
