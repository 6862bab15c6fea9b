-- ===== src/Mailbox/Wakeup/Revisions.antt =====
-- Notifications are not lost: whatever other tasks do in between.
use mathlib.Core.Path.{subst}
use caps_lock.Prelude.{
  sym, ◌∙◌, ℕ, ◌≤◌, ◌<◌, ◌≡◌, refl, Bool, true, false, some, List, [], ◌∷◌, String, arith,
  Option-cases, inl, inr, string_eq, number_eq, eq_iff,
}
use caps_lock.Mailbox.Wakeup.{
  MailboxSnapshot, MailboxState, Registry, Call, state_snapshot, snapshot, close, notify, changed,
  after, replay, register_call, close_call, unregister_call, notify_call, empty,
}

-- A generation names the object that it was given to, and the table names generations in use.
pub record IsValid (r : Registry) : Type 0 where
  pub named : (g : ℕ) → (r.objects g).generation ≡ g
  pub used : (key : String) (g : ℕ) → r.table key ≡ some g → g ≤ r.generation

pub empty-IsValid : IsValid empty
empty-IsValid = record { named = λ g. refl; used = λ key g h. ground arith }

-- Every call keeps the registry valid.
pub after-IsValid : (c : Call) (r : Registry) → IsValid r → IsValid (after c r)
unfolding after
after-IsValid (register_call key) r v = record {
  named = λ g. ground (arith, v.named g);
  used = λ k g h. ground (arith, v.used k g, eq_iff k key);
}
after-IsValid (close_call key expected) r v = record {
  named = λ g. ground (arith, v.named g);
  used = λ k g h. ground (arith, v.used k g);
}
after-IsValid (unregister_call key) r v = record {
  named = λ g. ground (arith, v.named g);
  used = λ k g h. ground (arith, v.used k g);
}
after-IsValid (notify_call key actionable) r v = record {
  named = λ g. ground (arith, v.named g);
  used = λ k g h. ground (arith, v.used k g);
}

-- The life of one object that is in use: its revisions grow, and it stays closed.
pub record Grows (a b : MailboxState) : Type 0 where
  pub generation : b.generation ≡ a.generation
  pub revision : a.revision ≤ b.revision
  pub actionable : a.actionable_revision ≤ b.actionable_revision
  pub closed : a.closed ≡ true → b.closed ≡ true

pub after-Grows :
    (c : Call) (r : Registry) (g : ℕ)
    → g ≤ r.generation
    → Grows (r.objects g) ((after c r).objects g)
unfolding after
after-Grows (register_call key) r g h = ground arith
after-Grows (close_call key expected) r g h = ground arith
after-Grows (unregister_call key) r g h = ground arith
after-Grows (notify_call key actionable) r g h = ground arith

pub generation-after : (c : Call) (r : Registry) → r.generation ≤ (after c r).generation
unfolding after
generation-after (register_call key) r = ground arith
generation-after (close_call key expected) r = ground arith
generation-after (unregister_call key) r = ground arith
generation-after (notify_call key actionable) r = ground arith

pub replay-Grows :
    (calls : List Call) (r : Registry) (g : ℕ)
    → g ≤ r.generation
    → Grows (r.objects g) ((replay calls r).objects g)
unfolding replay
replay-Grows [] r g h = ground arith
replay-Grows (c ∷ calls) r g h =
    ground (arith, after-Grows c r g h, generation-after c r, replay-Grows calls (after c r) g)

-- `p` was taken, now or earlier, from the object that its generation names.
pub record WasSeen (p : MailboxSnapshot) (r : Registry) : Type 0 where
  pub used : p.generation ≤ r.generation
  pub revision : p.revision ≤ (r.objects p.generation).revision
  pub actionable : p.actionable_revision ≤ (r.objects p.generation).actionable_revision

pub snapshot-WasSeen :
    (key : String) (r : Registry) (p : MailboxSnapshot)
    → IsValid r
    → snapshot key r ≡ some p
    → WasSeen p r
unfolding snapshot
snapshot-WasSeen key r p v h = elim (Option-cases (r.table key)) [
  | inl e ↦ absurd (ground (arith, e))
  | inr (g, e) ↦
      let same : p ≡ state_snapshot (r.objects g) = ground (arith, e) in
      subst (λ q. WasSeen q r) (sym same)
        (record {
          used = rw (v.named g) (v.used key g e);
          revision = rw (v.named g) (omega arith);
          actionable = rw (v.named g) (omega arith);
        })
]

pub after-WasSeen :
    (c : Call) (r : Registry) (p : MailboxSnapshot) → WasSeen p r → WasSeen p (after c r)
after-WasSeen c r p w = ground (arith, after-Grows c r p.generation w.used, generation-after c r)

pub replay-WasSeen :
    (calls : List Call) (r : Registry) (p : MailboxSnapshot)
    → WasSeen p r
    → WasSeen p (replay calls r)
unfolding replay
replay-WasSeen [] r p w = w
replay-WasSeen (c ∷ calls) r p w = replay-WasSeen calls (after c r) p (after-WasSeen c r p w)

-- what has changed stays changed
changed-Grows :
    (p : MailboxSnapshot) (b : Bool) (x y : MailboxState)
    → Grows x y
    → (x.generation ≡ p.generation → p.revision ≤ x.revision)
    → (x.generation ≡ p.generation → p.actionable_revision ≤ x.actionable_revision)
    → changed p b x ≡ true
    → changed p b y ≡ true
unfolding changed
changed-Grows p b x y grows low low' h = ground arith

module _ (p : MailboxSnapshot) (r : Registry) (v : IsValid r) (w : WasSeen p r) (g : ℕ) where
  revision_low : (r.objects g).generation ≡ p.generation → p.revision ≤ (r.objects g).revision
  revision_low e = subst (λ k. p.revision ≤ (r.objects k).revision) (sym e ∙ v.named g) w.revision

  actionable_low :
      (r.objects g).generation ≡ p.generation
      → p.actionable_revision ≤ (r.objects g).actionable_revision
  actionable_low e =
      subst (λ k. p.actionable_revision ≤ (r.objects k).actionable_revision) (sym e ∙ v.named g)
        w.actionable

  -- what has changed since `p` at any time has changed at every later time
  pub changed-replay :
      (b : Bool) (calls : List Call)
      → g ≤ r.generation
      → changed p b (r.objects g) ≡ true
      → changed p b ((replay calls r).objects g) ≡ true
  changed-replay b calls u =
      changed-Grows p b (r.objects g) ((replay calls r).objects g) (replay-Grows calls r g u)
        revision_low actionable_low

-- After a snapshot, any calls, and then a notification that the mailbox accepted, the snapshot's
-- revision is no longer the mailbox's: a close that expects it is refused and changes nothing, so
-- a receiver cannot finish on a state that it has not seen. (The mailbox is still the one that
-- the snapshot was taken from.)
pub close-notify :
    (key : String) (r : Registry) (p : MailboxSnapshot) (before later : List Call)
    (actionable : Bool)
    → IsValid r
    → snapshot key r ≡ some p
    → (notify key actionable (replay before r)).0 ≡ true
    → (replay before r).table key ≡ some p.generation
    → (replay later (notify key actionable (replay before r)).1).table key ≡ some p.generation
    → close key (some p.revision) (replay later (notify key actionable (replay before r)).1)
      ≡ (false, replay later (notify key actionable (replay before r)).1)
unfolding close
close-notify key r p before later actionable v h sent same still =
    let s = replay before r in
    let t = (notify key actionable s).1 in
    let w = replay-WasSeen before r p (snapshot-WasSeen key r p v h) in
    let grown : p.revision < (t.objects p.generation).revision = unfold notify in ground arith in
    let kept : p.generation ≤ t.generation = unfold notify in ground (arith, w.used) in
    let more = replay-Grows later t p.generation kept in rw still (ground (arith, more, grown))
