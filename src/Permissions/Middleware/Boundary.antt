-- ===== src/Permissions/Middleware/Boundary.antt =====
-- What passes both middlewares.
use caps_lock.Prelude.{
  ◌≡◌, ◌⊎◌, inl, inr, refl, sym, ◌∙◌, Bool-cases, true, false, Option, none, some, String, arith,
  mem, string_eq, Outcome, return, raise,
}
use caps_lock.Permissions.Rules.{PermissionBehavior, allow, ask, deny, ToolPolicy}
use caps_lock.Permissions.Engine.{Specs, Files, Context, Decision, decide, EngineError}
use caps_lock.Permissions.Middleware.{
  control, local_read, Tool, proceed, plan_tools, pre_authorize, is_deterministic_read,
  plan_authorize, Fresh, Session, permission_authorize, authorize, pauses_itself, answer,
  permission_decided, record_if,
}

module _ {A : Type 0} (specs : Specs A) (files : Files) (fresh : Fresh) (tool : Tool)
    (arguments : A) (policy : ToolPolicy) (context : Context) (s t : Session) where
  -- While a plan is being made, a call passes only when its tool is one of the four plan tools, or
  -- is a local one whose policy for the call is read-only and without any other effect.
  pub authorize-active :
      authorize specs files fresh tool arguments policy context true s ≡ (return proceed, t)
      → ((tool.visibility ≡ control) × (mem tool.name plan_tools ≡ true))
        ⊎ ((tool.visibility ≡ local_read) × (is_deterministic_read policy ≡ true))
  unfolding authorize pre_authorize plan_authorize
  authorize-active h = ground arith

  -- what the permission adapter lets through
  pub data IsPermitted : Type 0 where
    allowed :
        (d : Decision) → t.runtime.permission_decision ≡ some d → d.behavior ≡ allow → IsPermitted
    -- the tool asks for the approval itself
    deferred :
        (d : Decision)
        → t.runtime.permission_decision ≡ some d
        → d.behavior ≡ ask
        → pauses_itself tool ≡ true
        → t.runtime.force_manual_approval ≡ true
        → IsPermitted

  answer-proceed :
      (d : Decision) (b : PermissionBehavior) (u : Session)
      → d.behavior ≡ b
      → u.runtime.permission_decision ≡ some d
      → answer fresh context tool d b u ≡ (return proceed, t)
      → IsPermitted
  answer-proceed d deny u e k h = absurd (ground arith)
  answer-proceed d allow u e k h = allowed d (ground arith) e
  answer-proceed d ask u e k h = elim (Bool-cases (pauses_itself tool)) [
    | inl p ↦ deferred d (ground (arith, p)) e p (ground (arith, p))
    | inr p ↦ absurd (unanswered context.invocation_id refl p)
  ]
    where
      unanswered : (i : Option String) → context.invocation_id ≡ i → pauses_itself tool ≡ false → ⊥
      unanswered none f p = ground arith
      unanswered (some i) f p = ground arith

  -- A call that no plan control lets through passes the permission adapter only with a recorded
  -- decision, which allows, or which asks where the tool then asks for the approval itself.
  pub permission_authorize-proceed :
      s.runtime.planning_control_authorized ≡ false
      → permission_authorize specs files fresh tool arguments policy context s ≡ (return proceed, t)
      → IsPermitted
  unfolding permission_authorize
  permission_authorize-proceed f h =
      let cleared = record (s.runtime) { planning_control_authorized = false } in
      let o = decide specs files tool.name arguments policy context s.journal in
      go o.0 (record { runtime = cleared; journal = o.1 }) (sym (rw f refl) ∙ h)
    where
      go :
          (o : Outcome EngineError Decision) (u : Session)
          → permission_decided specs files fresh context tool o u ≡ (return proceed, t)
          → IsPermitted
      go (raise e) u k = absurd (ground arith)
      go (return d) u k =
          answer-proceed d d.behavior
            (record {
              runtime = record (u.runtime) { permission_decision = some d };
              journal = record_if fresh context.invocation_id d u.journal;
            })
            refl refl k
