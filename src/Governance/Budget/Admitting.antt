-- ===== src/Governance/Budget/Admitting.antt =====
-- What holds when a tool call or a model call is let through.
use mathlib.Core.Path.{subst}
use caps_lock.Prelude.{
  ℕ, ◌+◌, ◌≤◌, ◌<◌, ◌≡◌, refl, sym, ◌∙◌, Bool, false, Option, none, some, List, [], ◌∷◌, ◌++◌,
  String, arith, Bool-cases, inl, inr, return, >>=-return, All,
}
use caps_lock.Governance.Loops.{Detail}
use caps_lock.Governance.Limits.{StopReason, remaining, remaining_of}
use caps_lock.Governance.Budget.{
  Governor, Reading, saved, current, available_remaining, stop, checks, check_common, call_limit,
  common_limits, Poll, before_tool, admit, item, at_limit, is_spent, minus_reserved, judged,
  detail_of,
}

abbrev pub IsBelow : ℕ → Option ℕ → Type 0
IsBelow used none = Unit
IsBelow used (some limit) = used < limit

abbrev pub IsWithin : ℕ → Option ℕ → Type 0
IsWithin used none = Unit
IsWithin used (some limit) = used ≤ limit

-- no limit of a run is reached, with what is kept for the children
pub record IsUnderway (t : Governor) : Type 0 where
  pub duration : IsBelow t.snapshot.duration_ms t.snapshot.limits.duration_ms
  pub tokens :
      IsBelow
        (t.snapshot.input_tokens + t.snapshot.output_tokens + t.child_reserved.tokens)
        t.snapshot.limits.tokens
  pub budget :
      IsBelow (t.snapshot.cost_usd + t.child_reserved.budget_usd) t.snapshot.limits.budget_usd

IsBelow-at_limit : (used : ℕ) (limit : Option ℕ) → at_limit limit used ≡ false → IsBelow used limit
IsBelow-at_limit used none h = tt
IsBelow-at_limit used (some limit) h = ground arith

IsBelow-is_spent :
    (used reserved : ℕ) (limit : Option ℕ)
    → is_spent (minus_reserved (remaining_of limit used) reserved) ≡ false
    → IsBelow (used + reserved) limit
IsBelow-is_spent used reserved none h = tt
IsBelow-is_spent used reserved (some limit) h = ground arith

IsWithin-is_spent :
    (used reserved : ℕ) (limit : Option ℕ)
    → is_spent (minus_reserved (remaining_of limit used) reserved) ≡ false
    → IsWithin (used + 1 + reserved) limit
IsWithin-is_spent used reserved none h = tt
IsWithin-is_spent used reserved (some limit) h = ground arith

module _ (reads : ℕ → Reading) where
  checks-return :
      (limits : List ((Governor → Bool) × StopReason)) (g : Governor) {u : Unit {0}} {t : Governor}
      → checks reads limits g ≡ (return u, t)
      → (g ≡ t) × All (λ (l : (Governor → Bool) × StopReason). l.0 g ≡ false) limits
  unfolding checks
  checks-return [] g h = (ground arith, tt)
  checks-return ((reached, reason) ∷ limits) g {u} {t} h = elim (Bool-cases (reached g)) [
    | inl e ↦ let k = rw e at h in cc
    | inr e ↦ let (same, rest) = checks-return limits g (rw e at h) in (same, (e, rest))
  ]

  -- the reading that the check has made, and what it has found
  check_common-return :
      (g : Governor) {u : Unit {0}} {t : Governor}
      → check_common reads g ≡ (return u, t)
      → (current reads g ≡ t) × IsUnderway t
  unfolding check_common available_remaining remaining
  check_common-return g h =
      let (same, found) = checks-return common_limits (current reads g) h in
      let c = current reads g in
      let underway : IsUnderway c = record {
        duration = IsBelow-at_limit c.snapshot.duration_ms c.snapshot.limits.duration_ms found.0;
        tokens =
            IsBelow-is_spent (c.snapshot.input_tokens + c.snapshot.output_tokens)
              c.child_reserved.tokens c.snapshot.limits.tokens found.1.0;
        budget =
            IsBelow-is_spent c.snapshot.cost_usd c.child_reserved.budget_usd
              c.snapshot.limits.budget_usd found.1.1.0;
      } in
      (same, rw (← same) underway)

  -- what an attempt that is let through leaves
  pub record IsAdmitted (name fingerprint : String) (poll : Poll) (g t : Governor) (id : ℕ)
      : Type 0 where
    pub underway : IsUnderway t
    pub calls :
        IsWithin (t.snapshot.tool_calls + t.child_reserved.tool_calls) t.snapshot.limits.tool_calls
    pub no_loop : detail_of fingerprint poll g ≡ none
    pub recorded : t.history ≡ g.history ++ item id fingerprint poll ∷ []

  judged-return :
      (name fingerprint : String) (poll : Poll) (detail : Option Detail) (g : Governor) {id : ℕ}
      {t : Governor}
      → judged reads name fingerprint poll detail g ≡ (return id, t)
      → (detail ≡ none) × (admit name fingerprint poll g ≡ (id, t))
  unfolding stop
  judged-return name fingerprint poll none g h = (refl, cc)
  judged-return name fingerprint poll (some detail) g h = cc

  admit-IsAdmitted :
      (name fingerprint : String) (poll : Poll) (g : Governor)
      → IsUnderway (current reads g)
      → is_spent (available_remaining (current reads g)).tool_calls ≡ false
      → detail_of fingerprint poll (current reads g) ≡ none
      → IsAdmitted name fingerprint poll g
          (admit name fingerprint poll (current reads g)).1
          (admit name fingerprint poll (current reads g)).0
  unfolding saved current available_remaining remaining
  admit-IsAdmitted name fingerprint poll g safe below none_found =
      let c = current reads g in
      record {
        underway = record { duration = safe.duration; tokens = safe.tokens; budget = safe.budget };
        calls =
            IsWithin-is_spent c.snapshot.tool_calls c.child_reserved.tool_calls
              c.snapshot.limits.tool_calls below;
        no_loop = none_found;
        recorded = refl;
      }

  -- A tool call is let through only below every limit of the run: at the reading that the call makes,
  -- the duration, the tokens and the cost, with what is kept for the children, are below their
  -- limits, and with this call the tool calls are within theirs; the call ends no loop of the
  -- history, unless it polls a process that makes progress; and the history has it, not yet
  -- finished, as its newest item.
  pub before_tool-return :
      (name fingerprint : String) (poll : Poll) (g : Governor) {id : ℕ} {t : Governor}
      → before_tool reads name fingerprint poll g ≡ (return id, t)
      → IsAdmitted name fingerprint poll g t id
  unfolding before_tool
  before_tool-return name fingerprint poll g {id} {t} h =
      let (_, c, checked, rest) = >>=-return (check_common reads) _ g h in
      let (_, d, limited, final) = >>=-return (checks reads call_limit) _ c rest in
      let (is_c, underway) = check_common-return g checked in
      let (is_d, (spent, _)) = checks-return call_limit c limited in
      let (quiet, admitted) =
        judged-return name fingerprint poll (detail_of fingerprint poll d) d final in
      let start : current reads g ≡ d = is_c ∙ is_d in
      let safe : IsUnderway (current reads g) = rw start (rw (← is_d) underway) in
      let below : is_spent (available_remaining (current reads g)).tool_calls ≡ false =
        subst (λ x. is_spent (available_remaining x).tool_calls ≡ false) (sym is_c) spent in
      let none_found : detail_of fingerprint poll (current reads g) ≡ none =
        subst (λ x. detail_of fingerprint poll x ≡ none) (sym start) quiet in
      let made : admit name fingerprint poll (current reads g) ≡ (id, t) =
        subst (λ x. admit name fingerprint poll x ≡ (id, t)) (sym start) admitted in
      let result = admit-IsAdmitted name fingerprint poll g safe below none_found in
      subst (λ (r : ℕ × Governor). IsAdmitted name fingerprint poll g r.1 r.0) made result
