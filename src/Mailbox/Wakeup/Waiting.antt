-- ===== src/Mailbox/Wakeup/Waiting.antt =====
-- What a wait answers (`wait_since` of capslock/collaboration/wakeup.py), said by what the other tasks
-- did to the mailbox.
use mathlib.Core.Path.{subst}
use caps_lock.Prelude.{
  ℕ, ◌≤◌, ◌≡◌, ◌≢◌, ◌↔◌, ◌⊎◌, refl, sym, ap, ◌∙◌, Bool, true, false, not, ◌&&◌, ◌||◌, none, some,
  List, [], ◌∷◌, String, arith, Bool-cases, Option-cases, inl, inr, ◌==◌, string_eq, number_eq,
}
use caps_lock.Mailbox.Wakeup.{
  MailboxSnapshot, Registry, Call, state_snapshot, snapshot, changed, after, replay, register_call,
  close_call, unregister_call, notify_call, wait_for, wait_since,
}
use caps_lock.Mailbox.Wakeup.Revisions.{
  IsValid, after-IsValid, WasSeen, snapshot-WasSeen, after-WasSeen, replay-Grows, generation-after,
  changed-replay,
}

-- the mailbox of this name is the object
abbrev names : Registry → String → ℕ → Bool
names r key g = elim (r.table key) [ none ↦ false | some h ↦ h == g ]

-- The call closes the object, or delivers to it a notification of the kind that is waited for: it
-- is accepted, and actionable where only those count.
abbrev pub concerns : (g : ℕ) (actionable_only : Bool) → Call → Registry → Bool
concerns g only (register_call key) r = false
concerns g only (close_call key none) r = names r key g
concerns g only (close_call key (some expected)) r =
    names r key g && (r.objects g).revision == expected
concerns g only (unregister_call key) r = names r key g
concerns g only (notify_call key actionable) r =
    names r key g && not (r.objects g).closed && (not only || actionable)

-- one of the calls, made in this order, did
unfoldable pub concerned : (g : ℕ) (actionable_only : Bool) → List Call → Registry → Bool
unfolding after
concerned g only [] r = false
concerned g only (c ∷ calls) r = concerns g only c r || concerned g only calls (after c r)

module _ (p : MailboxSnapshot) (b : Bool) (g : ℕ) where
  -- on a mailbox that has not changed, the next call changes it exactly when it concerns it
  changed-after :
      (c : Call) (r : Registry)
      → g ≤ r.generation
      → changed p b (r.objects g) ≡ false
      → changed p b ((after c r).objects g) ≡ concerns g b c r
  unfolding after changed
  changed-after (register_call key) r u h = ground arith
  changed-after (close_call key none) r u h = ground arith
  changed-after (close_call key (some expected)) r u h = ground arith
  changed-after (unregister_call key) r u h = ground arith
  changed-after (notify_call key actionable) r u h = ground arith

  -- and it then wakes the tasks that wait
  woken-after :
      (c : Call) (r : Registry)
      → g ≤ r.generation
      → concerns g b c r ≡ true
      → ((r.objects g).notified == ((after c r).objects g).notified) ≡ false
  unfolding after
  woken-after (register_call key) r u h = cc
  woken-after (close_call key none) r u h = ground arith
  woken-after (close_call key (some expected)) r u h = ground arith
  woken-after (unregister_call key) r u h = ground arith
  woken-after (notify_call key actionable) r u h = ground arith

  -- so a mailbox has changed when one of the calls concerned it
  changed-concerned :
      (calls : List Call) (r : Registry)
      → IsValid r
      → WasSeen p r
      → g ≤ r.generation
      → changed p b (r.objects g) ≡ false
      → changed p b ((replay calls r).objects g) ≡ concerned g b calls r
  unfolding concerned replay
  changed-concerned [] r v w u h = h
  changed-concerned (c ∷ calls) r v w u h =
      let s = after c r in
      let k : g ≤ s.generation = omega (arith, generation-after c r) in
      elim (Bool-cases (concerns g b c r)) [
        | inl now ↦
            let done =
              changed-replay p s (after-IsValid c r v) (after-WasSeen c r p w) g b calls k
                (changed-after c r u h ∙ now) in
            rw now done
        | inr not_yet ↦ rw not_yet (
            changed-concerned calls s (after-IsValid c r v) (after-WasSeen c r p w) k
              (changed-after c r u h ∙ not_yet))
      ]

  -- and the task that waits for it is woken by that call
  wait_for-concerned :
      (calls : List Call) (r : Registry)
      → g ≤ r.generation
      → changed p b (r.objects g) ≡ false
      → (wait_for g p b calls r ≡ none) ↔ (concerned g b calls r ≡ false)
  unfolding concerned wait_for
  wait_for-concerned [] r u h = ((λ e. refl), (λ e. refl))
  wait_for-concerned (c ∷ calls) r u h =
      let s = after c r in
      let k : g ≤ s.generation = omega (arith, generation-after c r) in
      elim (Bool-cases (concerns g b c r)) [
        | inl now ↦
            let moved : changed p b (s.objects g) ≡ true = changed-after c r u h ∙ now in
            let up = woken-after c r u now in ground (arith, now, moved, up)
        | inr not_yet ↦
            let still : changed p b (s.objects g) ≡ false = changed-after c r u h ∙ not_yet in
            let rest = wait_for-concerned calls s k still in ground (arith, not_yet, still, rest)
      ]

replay-IsValid : (calls : List Call) (r : Registry) → IsValid r → IsValid (replay calls r)
unfolding replay
replay-IsValid [] r v = v
replay-IsValid (c ∷ calls) r v = replay-IsValid calls (after c r) (after-IsValid c r v)

module _ (key : String) (r : Registry) (p : MailboxSnapshot) (b : Bool) (before calls : List Call)
    (g : ℕ) (v : IsValid r) (taken : snapshot key r ≡ some p)
    (here : (replay before r).table key ≡ some g) where
  abbrev now : Registry
  now = replay before r

  there : g ≤ now.generation
  there = (replay-IsValid before r v).used key g here

  snapped : (p.generation ≤ r.generation) × (p ≡ state_snapshot (r.objects p.generation))
  unfolding snapshot
  snapped = elim (Option-cases (r.table key)) [
    | inl e ↦ absurd (ground (arith, e))
    | inr (h, e) ↦
        let same : p ≡ state_snapshot (r.objects h) = ground (arith, e) in
        let is : p.generation ≡ h = ap (λ x. x.generation) same ∙ v.named h in
        (
          subst (λ x. x ≤ r.generation) (sym is) (v.used key h e),
          subst (λ x. p ≡ state_snapshot (r.objects x)) (sym is) same,
        )
  ]

  -- whether the mailbox has changed when the wait begins
  changed_now :
      (p.generation ≡ g) → (p.closed ≡ false) → changed p b (now.objects g) ≡ concerned g b before r
  changed_now is fresh =
      let (used, same) = snapped in
      let at_once : changed p b (r.objects p.generation) ≡ false =
        unfold changed in ground (arith, same, fresh, v.named p.generation) in
      subst (λ x. changed p b (now.objects x) ≡ concerned x b before r) is
        (changed-concerned p b p.generation before r v (snapshot-WasSeen key r p v taken) used
          at_once)

  -- a mailbox that was closed or replaced has changed
  changed_other : (p.generation ≢ g) ⊎ (p.closed ≡ true) → changed p b (now.objects g) ≡ true
  unfolding changed
  changed_other (inl other) =
      let named : (now.objects g).generation ≡ g = (replay-IsValid before r v).named g in
      ground (arith, named, other)
  changed_other (inr closed) =
      let (used, same) = snapped in
      let grows = replay-Grows before r p.generation used in
      let named : (now.objects g).generation ≡ g = (replay-IsValid before r v).named g in
      elim (Bool-cases (p.generation == g)) [
        | inl e ↦
            let is : p.generation ≡ g = ground (arith, e) in
            let shut : (now.objects p.generation).closed ≡ true =
              grows.closed (sym (ap (λ x. x.closed) same) ∙ closed) in
            let shut_now : (now.objects g).closed ≡ true =
              subst (λ x. (now.objects x).closed ≡ true) is shut in
            ground (arith, shut_now)
        | inr e ↦ ground (arith, named, e)
      ]

  at_once : changed p b (now.objects g) ≡ true → wait_since key p b calls now ≢ none
  unfolding wait_since
  at_once e w = ground (arith, here, e, w)

  asleep :
      changed p b (now.objects g) ≡ false → wait_since key p b calls now ≡ wait_for g p b calls now
  unfolding wait_since
  asleep e = rw (here, e) refl

  -- A wait with a snapshot that was taken before any calls of other tasks, and during others: it
  -- times out exactly when the mailbox is still the one of the snapshot, which was open, and no
  -- call since the snapshot, before the wait or during it, closed the mailbox or delivered to it a
  -- notification of the kind that is waited for. So no notification is lost, also one that comes
  -- between the snapshot and the wait, and nothing else ends the wait.
  pub wait_since_exact : (wait_since key p b calls now ≡ none) ↔ (
      (p.generation ≡ g)
      × (p.closed ≡ false)
      × (concerned g b before r ≡ false)
      × (concerned g b calls now ≡ false))
  wait_since_exact = elim (Bool-cases (p.generation == g)) [
    | inr other ↦
        let apart : p.generation ≢ g = λ e. ground (arith, other, e) in
        ((λ w. absurd (at_once (changed_other (inl apart)) w)), (λ k. absurd (apart k.0)))
    | inl e ↦ elim (Bool-cases p.closed) [
      | inl shut ↦
          ((λ w. absurd (at_once (changed_other (inr shut)) w)), (λ k. ground (arith, k.1, shut)))
      | inr fresh ↦
          let is : p.generation ≡ g = ground (arith, e) in
          let start = changed_now is fresh in
          elim (Bool-cases (concerned g b before r)) [
            | inl c ↦ ((λ w. absurd (at_once (start ∙ c) w)), (λ k. ground (arith, k.2, c)))
            | inr c ↦
                let sleeping = asleep (start ∙ c) in
                let rest = wait_for-concerned p b g calls now there (start ∙ c) in
                ((λ w. (is, fresh, c, rest.0 (sym sleeping ∙ w))), (λ k. sleeping ∙ rest.1 k.3))
          ]
    ]
  ]
