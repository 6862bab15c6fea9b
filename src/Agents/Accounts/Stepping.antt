-- ===== src/Agents/Accounts/Stepping.antt =====
-- What each call of capslock/storage/repositories/collaboration.py charges, but finish_attempt.
use mathlib.Core.Path.{subst}
use caps_lock.Prelude.{
  ℕ, suc, ◌≤◌, ◌≡◌, refl, ◌⊎◌, sym, Bool, true, false, Option, none, some, List, [], ◌∷◌, ◌++◌,
  String, arith, any, keep, not, ==_self, first, Bool-cases, inl, inr, ◌==◌, string_eq, eq_iff,
}
use caps_lock.Table.{update_where, row_count, row_count-append, row_count-absent, All-append}
use caps_lock.Governance.Limits.{Usage}
use caps_lock.Agents.Record.{
  AgentTaskState, AgentAttemptState, created, suspended, interrupted, completed, Reservation,
  AgentTask, AgentAttempt, AgentWorker, AgentCheckpoint, AgentTables, is_active_attempt,
  is_active_task,
}
use caps_lock.Agents.Store.{has_task_id, has_attempt_id}
use caps_lock.Agents.Creating.{
  AgentTaskContract, TaskOptions, create_in, checked, new_task, insert_task, delete_task,
}
use caps_lock.Agents.States.{
  set_found, interrupt_active, in_state, with_state, has_checkpoint, interrupt_attempt,
  interrupt_task,
}
use caps_lock.Agents.Attempts.{
  Claim, claim_found, claim_row, claim_rows, start_rows, run_row, clashes, new_attempt, start_found,
  start_row, eq_attempt, attempt_in,
}
use caps_lock.Agents.Resuming.{
  resume_found, resume_rows, reopen_task, assigned_in, reopen_attempt, prepare_found, reopen_rows,
}
use caps_lock.Agents.Accounts.{
  total-append, Meter, charge, charge_of, parent_run, is_some, IsKeyed, Extends, Charges,
}
use caps_lock.Agents.Accounts.Keeping.{
  IsOwned, Extends-append, Extends-update_where, kept-Charges, untouched-Charges, update-Charges,
  Charges-refl,
}

abbrev is_done : AgentAttemptState → Bool
is_done completed = true
is_done _ = false

-- what an attempt in another state is charged
charge_of-in :
    (m : Meter) (a b : AgentAttemptState) (account : Bool) (usage : Option Usage)
    → eq_attempt a b ≡ true
    → is_done b ≡ false
    → charge_of m a account usage ≡ charge_of m b account usage
charge_of-in m a b account usage h k = ground arith

Extends-deleted :
    (id : String) (t : List AgentTask) (r : AgentTask)
    → any (has_task_id id) t ≡ false
    → (r.id == id) ≡ true
    → Extends t (keep (λ x. not (has_task_id id x)) (t ++ r ∷ []))
unfolding parent_run
Extends-deleted id [] r h e i run k = cc
Extends-deleted id (x ∷ t) r h e i run k =
    ground (arith, Extends-deleted id t r (ground arith) e i run)

unclashed :
    (id task : String) (n : ℕ) (rows : List AgentAttempt)
    → any (clashes id task n) rows ≡ false
    → any (has_attempt_id id) rows ≡ false
unclashed id task n [] h = refl
unclashed id task n (r ∷ rows) h = ground (arith, unclashed id task n rows)

keyed_append :
    (rows : List AgentAttempt) (a : AgentAttempt)
    → ((id : String) → row_count (has_attempt_id id) rows ≤ 1)
    → any (has_attempt_id a.id) rows ≡ false
    → (id : String) → row_count (has_attempt_id id) (rows ++ a ∷ []) ≤ 1
keyed_append rows a keyed free id =
    rw (row_count-append (has_attempt_id id) rows a) (elim (Bool-cases (a.id == id)) [
      | inl e ↦
          let same : a.id ≡ id = (eq_iff a.id id).0 e in
          let none : row_count (has_attempt_id id) rows ≡ 0 =
            subst (λ i. row_count (has_attempt_id i) rows ≡ 0) same
              (row_count-absent (has_attempt_id a.id) rows free) in
          ground (arith, none)
      | inr e ↦ ground (arith, keyed id)
    ])

module _ (s : AgentTables) (h : IsKeyed s) where
  same-Charges : Charges s s
  same-Charges = Charges-refl s h

  either : (t u : AgentTables) → (u ≡ s) ⊎ (u ≡ t) → Charges s t → Charges s u
  either t u (inl e) k = subst (Charges s) (sym e) same-Charges
  either t u (inr e) k = subst (Charges s) (sym e) k

  either_if :
      {P : Type 0} (t u : AgentTables) → (u ≡ s) ⊎ (P × (u ≡ t)) → (P → Charges s t) → Charges s u
  either_if t u (inl e) k = subst (Charges s) (sym e) same-Charges
  either_if t u (inr (p, e)) k = subst (Charges s) (sym e) (k p)

  pub create_in-Charges :
      (c : AgentTaskContract) (o : TaskOptions) (now : ℕ) (session team : String)
      → Charges s (create_in c o now session team s).1
  create_in-Charges c o now session team =
      let t : AgentTask = new_task c o session team now in
      let v : AgentTables = insert_task t o.depends_on s in
      let done : ((create_in c o now session team s).1 ≡ s)
          ⊎ ((any (has_task_id c.task_id) s.tasks ≡ false)
              × ((create_in c o now session team s).1 ≡ (checked t o.depends_on v).1)) =
        ground arith in
      let last : ((checked t o.depends_on v).1 ≡ v)
          ⊎ ((checked t o.depends_on v).1 ≡ delete_task c.task_id v) =
        ground arith in
      either_if (checked t o.depends_on v).1 (create_in c o now session team s).1 done λ free.
        elim last [
          | inl e ↦
              subst (Charges s) (sym e)
                (untouched-Charges s v h refl refl (Extends-append s.tasks t))
          | inr e ↦ subst (Charges s) (sym e) (
              untouched-Charges s (delete_task c.task_id v) h refl refl
                (Extends-deleted c.task_id s.tasks t free (==_self c.task_id)))
        ]

  pub set_found-Charges :
      (now : ℕ) (id : String) (state : AgentTaskState) (child error : Option String)
      (t : Option AgentTask)
      → Charges s (set_found now id state child error t s).1
  set_found-Charges now id state child error none = same-Charges
  set_found-Charges now id state child error (some t) =
      let v : AgentTables = record s {
        tasks = update_where (in_state id t.state) (with_state state child error now) s.tasks;
      } in
      either v _ (ground arith) (
        untouched-Charges s v h refl refl (
          Extends-update_where (in_state id t.state) (with_state state child error now) (λ r. refl)
            (λ r. refl) s.tasks))

  pub interrupt_active-Charges : (now : ℕ) → Charges s (interrupt_active now s).1
  unfolding interrupt_active
  interrupt_active-Charges now =
      update-Charges s _ (λ a. is_active_attempt a.state) (interrupt_attempt now) h refl refl
        (Extends-update_where (λ r. is_active_task r.state) (interrupt_task now) (λ r. refl)
          (λ r. refl) s.tasks)
        (λ a. refl) (λ a. refl) (λ m a e. ground arith)

  pub claim_found-Charges :
      (c : Claim) (worker : String) (reservation : Option Reservation) (account : Bool)
      (o : Option AgentTask)
      → ((t : AgentTask) → o ≡ some t → is_some (parent_run s.tasks t.id) ≡ true)
      → Charges s (claim_found c worker reservation account o s).1
  claim_found-Charges c worker reservation account none owned = same-Charges
  claim_found-Charges c worker reservation account (some t) owned =
      let n : ℕ = suc t.attempt_count in
      let a : AgentAttempt = new_attempt c t.id worker n reservation account in
      let v : AgentTables = claim_rows c worker reservation account t s in
      let done : ((claim_found c worker reservation account (some t) s).1 ≡ s)
          ⊎ ((any (clashes c.attempt_id t.id n) s.attempts ≡ false)
              × ((claim_found c worker reservation account (some t) s).1 ≡ v)) =
        ground arith in
      either_if v _ done λ free.
        kept-Charges s v h refl
          (Extends-update_where (in_state t.id t.state) (claim_row c worker n) (λ r. refl)
            (λ r. refl) s.tasks)
          (keyed_append s.attempts a h.keyed (unclashed c.attempt_id t.id n s.attempts free))
          (All-append (IsOwned s.tasks) s.attempts (a ∷ []) h.owned (owned t refl, tt))
          (λ m run. ground (arith, total-append (charge m run s.tasks) s.attempts a))

  pub start_found-Charges :
      (now : ℕ) (id : String) (child : Option String) (o : Option AgentAttempt)
      → Charges s (start_found now id child o s).1
  start_found-Charges now id child none = same-Charges
  start_found-Charges now id child (some a) =
      either (start_rows now id child a s) _ (ground arith) (
        update-Charges s (start_rows now id child a s) (attempt_in id created) (start_row child now)
          h refl refl
          (Extends-update_where (has_task_id a.task_id) (run_row child) (λ r. refl) (λ r. refl)
            s.tasks)
          (λ r. refl) (λ r. refl)
          (λ m r e.
            sym (charge_of-in m r.state created r.account_usage r.usage (ground arith) refl)))

  pub resume_found-Charges :
      (now : ℕ) (id : String) (o : Option AgentAttempt) → Charges s (resume_found now id o s).1
  resume_found-Charges now id none = same-Charges
  resume_found-Charges now id (some a) = either (resume_rows now id a s) _ (ground arith) (
      update-Charges s (resume_rows now id a s) (attempt_in id suspended)
        (reopen_attempt AgentAttemptState.running) h refl refl
        (Extends-update_where (in_state a.task_id AgentTaskState.waiting_approval)
          (reopen_task AgentTaskState.running) (λ r. refl) (λ r. refl) s.tasks)
        (λ r. refl) (λ r. refl)
        (λ m r e.
          sym (charge_of-in m r.state suspended r.account_usage r.usage (ground arith) refl)))

  pub prepare_found-Charges :
      (now : ℕ) (task worker sha256 : String) (t : Option AgentTask)
      (row : Option (AgentAttempt × AgentWorker))
      → Charges s (prepare_found now task worker sha256 t row s).1
  prepare_found-Charges now task worker sha256 none row = same-Charges
  prepare_found-Charges now task worker sha256 (some t) none = same-Charges
  prepare_found-Charges now task worker sha256 (some t) (some (a, w)) =
      let c : Option AgentCheckpoint = first (has_checkpoint a.id) s.checkpoints in
      either (reopen_rows now task worker a c s) _ (ground arith) (
        update-Charges s (reopen_rows now task worker a c s) (attempt_in a.id interrupted)
          (reopen_attempt created) h refl refl
          (Extends-update_where (assigned_in task worker) (reopen_task AgentTaskState.claimed)
            (λ r. refl) (λ r. refl) s.tasks)
          (λ r. refl) (λ r. refl)
          (λ m r e.
            sym (charge_of-in m r.state interrupted r.account_usage r.usage (ground arith) refl)))
