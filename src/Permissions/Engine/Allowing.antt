-- ===== src/Permissions/Engine/Allowing.antt =====
-- When a decision allows.
use caps_lock.Prelude.{
  ◌≡◌, ◌≢◌, ◌⊎◌, inl, inr, refl, ◌∙◌, eq_iff, Bool, true, false, Option, none, some, List, [],
  String, arith, any, string_eq, return, Bool-cases,
}
use caps_lock.Permissions.Rules.{
  ask_for_approval, allow, ask, deny, PermissionRule, ToolPolicy, select_rule, default_behavior,
}
use caps_lock.Permissions.Rules.Selection.{select_rule-some, select_rule-none, has_behavior}
use caps_lock.Permissions.Journal.{Journal}
use caps_lock.Permissions.Engine.{
  Specs, Files, Context, Decision, rules, project_allow_is_trusted, matching_rules, consume_grant,
  is_untrusted, decide_by_rule, is_deny, granted, decide_matching, decide_checked, decide,
}

module _ {A : Type 0} (specs : Specs A) (files : Files) (tool : String) (arguments : A)
    (policy : ToolPolicy) (context : Context) (s : Journal) where
  -- the matching rules of the call
  abbrev pub IsMatching : List PermissionRule → Type 0
  IsMatching matching =
      matching_rules specs (rules files context.session_id s) tool (specs.normalize tool arguments)
      ≡ some matching

  abbrev normalized : A
  normalized = specs.normalize tool arguments

  abbrev outcome : List PermissionRule → Decision × Journal
  outcome matching = decide_matching specs files context tool normalized policy matching s

  decide-matching :
      (matching : List PermissionRule)
      → specs.hard_check tool normalized policy ≡ none
      → IsMatching matching
      → decide specs files tool arguments policy context s
        ≡ (return (outcome matching).0, (outcome matching).1)
  unfolding decide
  decide-matching matching safe e = rw (decide, safe) (rw (decide_checked, e) refl)

  -- Where no fixed boundary decides, a matching rule that denies decides: the answer is a denial,
  -- whatever the other rules, the grants and the mode allow, and no grant is used up for it.
  pub decide-deny :
      (matching : List PermissionRule)
      → specs.hard_check tool (specs.normalize tool arguments) policy ≡ none
      → IsMatching matching
      → any is_deny matching ≡ true
      → (d : Decision) × (decide specs files tool arguments policy context s ≡ (return d, s))
        × (d.behavior ≡ deny)
  unfolding decide
  decide-deny matching safe e h = go (select_rule matching) refl
    where
      normalized : A
      normalized = specs.normalize tool arguments

      go :
          (r : Option PermissionRule)
          → select_rule matching ≡ r
          → (d : Decision) × (decide specs files tool arguments policy context s ≡ (return d, s))
            × (d.behavior ≡ deny)
      go none f = absurd (ground (arith, select_rule-none matching f))
      go (some r) f =
          let denies : r.behavior ≡ deny = (select_rule-some matching r f).denied h in
          (
            decide_by_rule specs files context tool normalized policy s (some r),
            decide-matching matching safe e ∙ rw h (rw f refl),
            ground arith,
          )

  -- the two ways in which the rules and the mode allow
  pub data IsAllowed (matching : List PermissionRule) (t : Journal) : Type 0 where
    by_rule :
        (r : PermissionRule)
        → select_rule matching ≡ some r
        → r.behavior ≡ allow
        → (r.source ≡ "project" → project_allow_is_trusted files t ≡ true)
        → IsAllowed matching t
    by_mode : matching ≡ [] → context.permission_mode ≢ ask_for_approval → IsAllowed matching t

  by_mode-allow :
      (deterministic shell : Bool)
      → default_behavior context.permission_mode policy deterministic shell ≡ allow
      → context.permission_mode ≢ ask_for_approval
  unfolding default_behavior
  by_mode-allow deterministic shell h k = ground arith

  rules-allow :
      (matching : List PermissionRule) (t : Journal) (r : Option PermissionRule)
      → select_rule matching ≡ r
      → (decide_by_rule specs files context tool normalized policy t r).behavior ≡ allow
      → (any (has_behavior ask) matching ≡ false) × IsAllowed matching t
  rules-allow matching t none e h =
      let empty : matching ≡ [] = select_rule-none matching e in
      (rw empty refl, by_mode empty (by_mode-allow _ _ h))
  rules-allow matching t (some r) e h = elim (Bool-cases (is_untrusted files t r)) [
    | inl u ↦ absurd (ground (arith, u))
    | inr u ↦
        let allows : r.behavior ≡ allow = ground (arith, u) in
        (
          elim (Bool-cases (any (has_behavior ask) matching)) [
            | inl a ↦ absurd ((select_rule-some matching r e).asked a allows)
            | inr a ↦ a
          ],
          by_rule r e allows (λ p. ground (arith, u, allows, eq_iff r.source "project")),
        )
  ]

  -- A decision that allows, where no fixed boundary decides and no rule denies: either it used up a
  -- one-time grant for this call, or no matching rule asks either and a matching rule allows, which
  -- a project's rule does only when its file is trusted, or there is no matching rule and the mode
  -- is not the one that always asks.
  pub decide-allow :
      (matching : List PermissionRule) (d : Decision) (t : Journal)
      → specs.hard_check tool (specs.normalize tool arguments) policy ≡ none
      → IsMatching matching
      → decide specs files tool arguments policy context s ≡ (return d, t)
      → d.behavior ≡ allow
      → (any is_deny matching ≡ false)
        × ((consume_grant specs context tool (specs.normalize tool arguments) s ≡ (true, t))
            ⊎ ((any (has_behavior ask) matching ≡ false) × IsAllowed matching t))
  unfolding decide
  decide-allow matching d t safe e same h = elim (Bool-cases (any is_deny matching)) [
    | inl f ↦
        let denied = decide-deny matching safe e f in absurd (ground (arith, denied.1, denied.2))
    | inr f ↦ (f, quiet f (consume_grant specs context tool normalized s) refl)
  ]
    where
      quiet :
          any is_deny matching ≡ false
          → (c : Bool × Journal) → consume_grant specs context tool normalized s ≡ c
          → (consume_grant specs context tool normalized s ≡ (true, t))
            ⊎ ((any (has_behavior ask) matching ≡ false) × IsAllowed matching t)
      quiet f (true, u) g =
          let is : outcome matching ≡ (granted specs context normalized, u) = rw f (rw g refl) in
          inl (ground (arith, decide-matching matching safe e, g, is))
      quiet f (false, u) g =
          let is : outcome matching ≡ (
            decide_by_rule specs files context tool normalized policy u (select_rule matching),
            u,
          ) =
            rw f (rw g refl) in
          let by : (decide_by_rule specs files context tool normalized policy u
                  (select_rule matching)
                ≡ d)
              × (u ≡ t) =
            ground (arith, decide-matching matching safe e, is) in
          inr (rules-allow matching t (select_rule matching) refl (ground (arith, by, h)))
