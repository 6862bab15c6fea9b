-- ===== src/Governance/Budget/Charging.antt =====
-- What a run is charged for: its tool calls over any history of the governor's calls.
use caps_lock.Prelude.{
  ℕ, ◌+◌, ◌≤◌, ◌≡◌, Bool, Option, none, some, List, [], ◌∷◌, String, arith, Bool-cases, inl, inr,
  Outcome, return, raise, ◌>>=◌, ◌>>◌, continue,
}
use caps_lock.Governance.Loops.{Detail}
use caps_lock.Governance.Limits.{StopReason, repeated_tool_call, Usage}
use caps_lock.Governance.Budget.{
  Governor, Governed, Reading, RunStopped, usage_or_none, attach, saved, current,
  record_model_usage, record_external_usage, record_round, extend_tool_rounds, stop, checks,
  check_common, call_limit, round_limit, common_limits, judge, judged, before_model, Poll,
  before_tool, detail_of, finish_tool,
}

-- the calls of the children that the snapshot has in it
abbrev pub child_calls : Governor → ℕ
child_calls g = (usage_or_none g.child_usage).tool_calls

-- the children's calls are a part of all the calls
abbrev pub IsCounted : Governor → Type 0
IsCounted g = child_calls g ≤ g.snapshot.tool_calls

-- `t` comes after `g`, with `n` more calls of the run itself
pub record Counts (g t : Governor) (n : ℕ) : Type 0 where
  pub counted : IsCounted t
  pub sum : t.snapshot.tool_calls + child_calls g ≡ g.snapshot.tool_calls + child_calls t + n

Counts-trans : {g t u : Governor} {m n : ℕ} → Counts g t m → Counts t u n → Counts g u (m + n)
Counts-trans c d = record { counted = d.counted; sum = omega (arith, c.sum, d.sum) }

Counts-after : {g t u : Governor} {n : ℕ} → Counts g t 0 → Counts t u n → Counts g u n
Counts-after c d = record { counted = d.counted; sum = omega (arith, c.sum, d.sum) }

Counts-refl : (g : Governor) → IsCounted g → Counts g g 0
Counts-refl g h = record { counted = h; sum = omega arith }

-- an attempt that is let through is charged, one that raises is not
abbrev pub charged : {A : Type 0} → Outcome RunStopped A → ℕ
charged (return a) = 1
charged (raise e) = 0

-- what tasks ask of a governor
pub data GovernorCall : Type 0 where
  attach_budget read : GovernorCall
  model_usage : (input output : ℕ) → GovernorCall
  external_usage : Usage → GovernorCall
  model round : GovernorCall
  tool : (name fingerprint : String) → Poll → GovernorCall
  finish : (id : ℕ) (ok : Bool) (duration_ms : ℕ) → GovernorCall
  extend : ℕ → GovernorCall
  stopping : StopReason → Option Detail → GovernorCall

module _ (reads : ℕ → Reading) where
  current-Counts : (g : Governor) → IsCounted g → Counts g (current reads g) 0
  unfolding current saved
  current-Counts g h = record { counted = omega arith; sum = omega arith }

  stop-Counts :
      (A : Type 0) (reason : StopReason) (detail : Option Detail) (g : Governor)
      → IsCounted g
      → Counts g (stop reads {A = A} reason detail g).1 0
  unfolding stop saved
  stop-Counts A reason detail g h =
      let c = current-Counts g h in record { counted = c.counted; sum = c.sum }

  checks-Counts :
      (limits : List ((Governor → Bool) × StopReason)) (g : Governor)
      → IsCounted g
      → Counts g (checks reads limits g).1 0
  unfolding checks
  checks-Counts [] g h = Counts-refl g h
  checks-Counts ((reached, reason) ∷ limits) g h = elim (Bool-cases (reached g)) [
    | inl e ↦ rw e (stop-Counts Unit reason none g h)
    | inr e ↦ rw e (checks-Counts limits g h)
  ]

  module _ {A B : Type 0} where
    bind-Counts :
        (m : Governed A) (f : A → Governed B) (g : Governor)
        → Counts g (m g).1 0
        → ((a : A) (s : Governor) → IsCounted s → Counts s (f a s).1 0)
        → Counts g ((m >>= f) g).1 0
    bind-Counts m f g c rest = go (m g).0
      where
        go : (r : Outcome RunStopped A) → Counts g (continue r f (m g).1).1 0
        go (return a) = Counts-after c (rest a (m g).1 c.counted)
        go (raise e) = c

    bind-charged :
        (m : Governed A) (f : A → Governed B) (g : Governor)
        → Counts g (m g).1 0
        → ((a : A) (s : Governor) → IsCounted s → Counts s (f a s).1 (charged (f a s).0))
        → Counts g ((m >>= f) g).1 (charged ((m >>= f) g).0)
    bind-charged m f g c rest = go (m g).0
      where
        go :
            (r : Outcome RunStopped A)
            → Counts g (continue r f (m g).1).1 (charged (continue r f (m g).1).0)
        go (return a) = Counts-after c (rest a (m g).1 c.counted)
        go (raise e) = c

  check_common-Counts : (g : Governor) → IsCounted g → Counts g (check_common reads g).1 0
  unfolding check_common
  check_common-Counts g h =
      let c = current-Counts g h in
      Counts-after c (checks-Counts common_limits (current reads g) c.counted)

  before_model-Counts : (g : Governor) → IsCounted g → Counts g (before_model reads g).1 0
  unfolding before_model
  before_model-Counts g h =
      bind-Counts (check_common reads) (λ _. checks reads round_limit) g (check_common-Counts g h)
        (λ _ s k. checks-Counts round_limit s k)

  judged-Counts :
      (name fingerprint : String) (poll : Poll) (detail : Option Detail) (g : Governor)
      → IsCounted g
      → Counts g
          (judged reads name fingerprint poll detail g).1
          (charged (judged reads name fingerprint poll detail g).0)
  unfolding saved stop
  judged-Counts name fingerprint poll none g h = record { counted = omega arith; sum = omega arith }
  judged-Counts name fingerprint poll (some detail) g h =
      stop-Counts ℕ repeated_tool_call (some detail) g h

  before_tool-Counts :
      (name fingerprint : String) (poll : Poll) (g : Governor)
      → IsCounted g
      → Counts g
          (before_tool reads name fingerprint poll g).1
          (charged (before_tool reads name fingerprint poll g).0)
  unfolding before_tool judge
  before_tool-Counts name fingerprint poll g h =
      bind-charged (check_common reads)
        (λ _. checks reads call_limit >> judge reads name fingerprint poll) g
        (check_common-Counts g h)
        (λ _ s k.
          bind-charged (checks reads call_limit) (λ _. judge reads name fingerprint poll) s
            (checks-Counts call_limit s k)
            (λ _ t l. judged-Counts name fingerprint poll (detail_of fingerprint poll t) t l))

  -- the calls of tools that a call charges the run for, and the governor that it leaves, whether
  -- it returns or raises
  abbrev pub step : GovernorCall → Governor → ℕ × Governor
  step attach_budget g = (0, attach g)
  step read g = (0, current reads g)
  step (model_usage input output) g = (0, record_model_usage reads input output g)
  step (external_usage usage) g = (usage.tool_calls, record_external_usage reads usage g)
  step model g = (0, (before_model reads g).1)
  step round g = (0, record_round reads g)
  step (tool name fingerprint poll) g =
      let (r, t) = before_tool reads name fingerprint poll g in (charged r, t)
  step (finish id ok duration_ms) g = (0, finish_tool reads id ok duration_ms g)
  step (extend increment) g = (0, extend_tool_rounds reads increment g)
  step (stopping reason detail) g = (0, (stop reads {A = Unit {0}} reason detail g).1)

  unfoldable pub replay : List GovernorCall → Governor → ℕ × Governor
  unfolding current attach record_model_usage record_external_usage record_round before_model
      before_tool finish_tool extend_tool_rounds stop
  replay [] g = (0, g)
  replay (call ∷ calls) g = let (n, t) = step call g in let (m, u) = replay calls t in (n + m, u)

  step-Counts :
      (call : GovernorCall) (g : Governor) → IsCounted g → Counts g (step call g).1 (step call g).0
  unfolding attach record_model_usage record_external_usage record_round finish_tool
      extend_tool_rounds
  step-Counts attach_budget g h = record { counted = h; sum = omega arith }
  step-Counts read g h = current-Counts g h
  step-Counts (model_usage input output) g h = record { counted = omega arith; sum = omega arith }
  step-Counts (external_usage usage) g h = record { counted = omega arith; sum = omega arith }
  step-Counts model g h = before_model-Counts g h
  step-Counts round g h = record { counted = omega arith; sum = omega arith }
  step-Counts (tool name fingerprint poll) g h = before_tool-Counts name fingerprint poll g h
  step-Counts (finish id ok duration_ms) g h = record { counted = omega arith; sum = omega arith }
  step-Counts (extend increment) g h = record { counted = omega arith; sum = omega arith }
  step-Counts (stopping reason detail) g h = stop-Counts Unit reason detail g h

  -- Whatever calls are made on a governor, in whatever order, returning or raising: the tool calls
  -- that the run is charged for grow by one for each attempt that is let through, by the external
  -- tool calls that are reported, and by what the children have settled since; each child's call is
  -- counted once, however often it is read. The children's calls are a part of all calls at the end
  -- where they are at the start.
  pub replay-Counts :
      (calls : List GovernorCall) (g : Governor)
      → IsCounted g
      → Counts g (replay calls g).1 (replay calls g).0
  unfolding replay
  replay-Counts [] g h = Counts-refl g h
  replay-Counts (call ∷ calls) g h =
      let c = step-Counts call g h in Counts-trans c (replay-Counts calls (step call g).1 c.counted)
