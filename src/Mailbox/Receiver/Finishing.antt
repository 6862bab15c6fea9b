-- ===== src/Mailbox/Receiver/Finishing.antt =====
-- When `try_finish` lets a receiver end.
use caps_lock.Prelude.{
  ℕ, zero, suc, ◌≡◌, ◌⊎◌, inl, inr, refl, sym, ap, Bool, true, Option, none, some, arith, Outcome,
  return, raise, Bool-cases, ltb, continue,
}
use caps_lock.Mailbox.Wakeup.{MailboxSnapshot, snapshot}
use caps_lock.Mailbox.Store.{MailboxError}
use caps_lock.Mailbox.Receiver.{Receiver, Reading}
use caps_lock.Mailbox.Polling.{Budget, actionable_count, poll, finish, finish_at, try_finish}

finish_at-true :
    (v : Option MailboxSnapshot) (u t : Receiver)
    → finish_at v u ≡ (return true, t)
    → (actionable_count t ≡ actionable_count u) × ((v ≡ none) ⊎ (t.closed ≡ true))
finish_at-true none u t h = (ground arith, inl refl)
finish_at-true (some v) u t h = (
  ap (λ (x : Outcome MailboxError Bool × Receiver). actionable_count x.1) (sym h),
  inr (ground arith),
)

finish-true :
    (v : Option MailboxSnapshot) (n : ℕ) (u t : Receiver)
    → finish v n u ≡ (return true, t)
    → (n ≡ 0) × (actionable_count t ≡ 0) × ((v ≡ none) ⊎ (t.closed ≡ true))
finish-true v (suc n) u t h = absurd (ground arith)
finish-true v zero u t h = elim (Bool-cases (ltb 0 (actionable_count u))) [
  | inl e ↦ absurd (ground (arith, e))
  | inr e ↦
      let at = finish_at-true v u t (ground (arith, e)) in (refl, ground (arith, at.0, e), at.1)
]

concluded :
    (v : Option MailboxSnapshot) (r : Outcome MailboxError ℕ) (u t : Receiver)
    → continue r (finish v) u ≡ (return true, t)
    → (r ≡ return 0) × (actionable_count t ≡ 0) × ((v ≡ none) ⊎ (t.closed ≡ true))
concluded v (raise e) u t h = absurd (ground arith)
concluded v (return n) u t h = let is = finish-true v n u t h in (ap return is.0, is.1, is.2)

-- A receiver ends only when its last poll delivered nothing and no message that asks for an action is
-- pending; and unless its mailbox was not registered, it is then closed.
pub try_finish-true :
    (reading : Reading) (budget : Budget) (s t : Receiver)
    → try_finish reading budget s ≡ (return true, t)
    → ((poll reading true true budget s).0 ≡ return 0)
      × (actionable_count t ≡ 0)
      × ((snapshot s.address s.registry ≡ none) ⊎ (t.closed ≡ true))
unfolding try_finish
try_finish-true reading budget s t h =
    concluded (snapshot s.address s.registry) (poll reading true true budget s).0
      (poll reading true true budget s).1 t h
