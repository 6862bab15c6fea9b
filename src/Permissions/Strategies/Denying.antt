-- ===== src/Permissions/Strategies/Denying.antt =====
-- The engine over the strategies: a rule that denies a directory's subtree to a file tool.
use caps_lock.Prelude.{
  ◌≡◌, refl, ap, ◌∙◌, sym, Bool, true, false, not, ◌&&◌, Option, none, some, List, [], ◌∷◌, ◌++◌,
  String, arith, any, all, keep, mem, string_eq, ◌==◌, ==_self, eq_iff, return, Bool-cases,
  Option-cases, inl, inr, if◌then◌else◌, nat_eq, map,
}
use caps_lock.Permissions.Rules.{PermissionBehavior, deny, PermissionRule, ToolPolicy}
use caps_lock.Permissions.Journal.{Journal, session_permission_rules}
use caps_lock.Permissions.Engine.{
  Specs, Files, Context, Decision, rules, session_rule, extend, extend_all, restricts, related,
  matching_rules, is_deny, decide, decided,
}
use caps_lock.Permissions.Engine.Allowing.{decide-deny}
use caps_lock.Permissions.Patterns.{Text, slash, codes, normalized, on_line, path_glob_match}
use caps_lock.Permissions.Patterns.Subtree.{subtree, IsDirectory, path_glob_match-subtree}
use caps_lock.Permissions.Strategies.{
  Libraries, Value, text, Fields, get, fields, file_tools, spec_for, file_spec, file_matches,
  strategy_matches, hard_check, matches_by, hard_check_by, file_hard_check, texts, flag,
}
use caps_lock.Permissions.Strategies.Routing.{resolve_agent_operation, agent_tools}

abbrev is_none : Option Value → Bool
is_none none = true
is_none (some v) = false

-- the engine's questions, answered by the strategies; what rewrites the arguments, digests them and
-- looks for a read-only command stays a parameter
abbrev pub strategies :
    Libraries
    → (normalize : String → Fields → Fields) (digest : Fields → String)
      (deterministic : Fields → Bool)
    → Specs Fields
strategies libraries normalize digest deterministic = record {
  normalize = normalize;
  hard_check = hard_check libraries;
  matches = strategy_matches libraries;
  digest = digest;
  operation_identity = resolve_agent_operation;
  without_sha256 = λ arguments. is_none (get "expected_sha256" arguments);
  with_task_id = λ arguments. not (is_none (get "task_id" arguments));
  deterministic_shell = deterministic;
}

any-append {ℓ} :
    {A : Type ℓ} (p : A → Bool) (xs ys : List A) → any p xs ≡ true → any p (xs ++ ys) ≡ true
any-append p [] ys h = cc
any-append p (x ∷ xs) ys h = ground (arith, any-append p xs ys)

any-here {ℓ} :
    {A : Type ℓ} (p : A → Bool) (before : List A) (a : A) (after : List A)
    → p a ≡ true
    → any p (before ++ a ∷ after) ≡ true
any-here p [] a after h = ground arith
any-here p (b ∷ before) a after h = ground (arith, any-here p before a after h)

any-keep {ℓ} :
    {A : Type ℓ} (p q : A → Bool) (xs : List A)
    → any (λ a. p a && q a) xs ≡ true
    → any q (keep p xs) ≡ true
any-keep p q [] h = h
any-keep p q (x ∷ xs) h = ground (arith, any-keep p q xs)

any-if {ℓ} :
    {A : Type ℓ} (b : Bool) (p : A → Bool) (xs ys : List A)
    → any p xs ≡ true
    → any p ys ≡ true
    → any p (if b then xs else ys) ≡ true
any-if true p xs ys h k = h
any-if false p xs ys h k = k

-- what is added to the matching rules takes none of them away
extend_keeps :
    (wanted : PermissionRule → Bool) (rules matching : List PermissionRule)
    → any is_deny matching ≡ true
    → any is_deny (extend wanted rules matching) ≡ true
unfolding extend
extend_keeps wanted [] matching h = h
extend_keeps wanted (r ∷ rules) matching h =
    extend_keeps wanted rules _
      (any-if _ is_deny (matching ++ r ∷ []) matching (any-append is_deny matching (r ∷ []) h) h)

extend_all_keeps :
    {A : Type 0} (specs : Specs A) (names : List String) (arguments : A)
    (rules matching : List PermissionRule)
    → any is_deny matching ≡ true
    → any is_deny (extend_all specs names arguments rules matching) ≡ true
unfolding extend_all
extend_all_keeps specs [] arguments rules matching h = h
extend_all_keeps specs (name ∷ names) arguments rules matching h =
    extend_all_keeps specs names arguments rules _
      (extend_keeps (restricts specs name arguments) rules matching h)

all-mem :
    (p : String → Bool) (a : String) (xs : List String)
    → all p xs ≡ true
    → mem a xs ≡ true
    → p a ≡ true
all-mem p a [] h m = cc
all-mem p a (x ∷ xs) h m = elim (Bool-cases (a == x)) [
  | inl e ↦ rw ((eq_iff a x).0 e) (ground (arith, h))
  | inr e ↦ all-mem p a xs (ground (arith, h)) (ground (arith, m, e))
]

-- no file tool is routed to another operation
file_tool-unrouted :
    (tool : String) (arguments : Fields)
    → mem tool file_tools ≡ true
    → resolve_agent_operation tool arguments ≡ some (tool, arguments)
unfolding resolve_agent_operation
file_tool-unrouted tool arguments m =
    let apart = all-mem (λ t. not (mem t agent_tools)) tool file_tools refl m in rw apart refl

spec_for-file : (tool : String) → mem tool file_tools ≡ true → spec_for tool ≡ file_spec
unfolding spec_for
spec_for-file tool m = rw m refl

module _ (libraries : Libraries) (normalize : String → Fields → Fields) (digest : Fields → String)
    (deterministic : Fields → Bool) where
  abbrev specs : Specs Fields
  specs = strategies libraries normalize digest deterministic

  -- a rule of the current version for the tool, with the path pattern and nothing else to meet
  pub record IsPathRule (r : PermissionRule) (tool pattern : String) : Type 0 where
    pub version : nat_eq r.matcher_version 1 ≡ false
    pub same_tool : r.tool ≡ tool
    pub path : get "path" (fields libraries r) ≡ some (text pattern)

  strategy_matches-file :
      (r : PermissionRule) (tool : String) (arguments : Fields)
      → mem tool file_tools ≡ true
      → strategy_matches libraries r tool arguments ≡ file_matches libraries r tool arguments
  unfolding strategy_matches
  strategy_matches-file r tool arguments m =
      ap (λ strategy. matches_by libraries strategy r tool arguments) (spec_for-file tool m)

  file_matches-path :
      (r : PermissionRule) (tool pattern actual : String) (arguments : Fields)
      → IsPathRule r tool pattern
      → get "path" arguments ≡ some (text actual)
      → path_glob_match (codes actual) (codes pattern) ≡ true
      → file_matches libraries r tool arguments ≡ true
  unfolding file_matches
  file_matches-path r tool pattern actual arguments p at h =
      let named : (tool == r.tool) ≡ true = rw p.same_tool (==_self tool) in
      rw p.version (rw named (rw p.path (rw at (rw h refl))))

  -- with a denying rule among the rules, a denying rule is among the matching ones
  matching-denied :
      (files : Files) (tool : String) (arguments : Fields) (context : Context) (s : Journal)
      (before : List PermissionRule) (r : PermissionRule) (after : List PermissionRule)
      → files.rules ≡ before ++ r ∷ after
      → mem tool file_tools ≡ true
      → r.behavior ≡ deny
      → strategy_matches libraries r tool arguments ≡ true
      → (matching : List PermissionRule) × (matching_rules specs
            (rules files context.session_id s)
            tool
            arguments
          ≡ some matching)
        × (any is_deny matching ≡ true)
  unfolding matching_rules rules
  matching-denied files tool arguments context s before r after e m d h =
      let routed = file_tool-unrouted tool arguments m in
      let all_rules = rules files context.session_id s in
      let wanted : PermissionRule → Bool = λ x. strategy_matches libraries x tool arguments in
      let here : any (λ x. wanted x && is_deny x) files.rules ≡ true =
        rw e (any-here (λ x. wanted x && is_deny x) before r after (rw (h, d) refl)) in
      let matched : any is_deny (keep wanted all_rules) ≡ true = any-keep wanted is_deny all_rules (
        any-append (λ x. wanted x && is_deny x) files.rules
          (map session_rule (session_permission_rules context.session_id s)) here) in
      (
        extend_all specs (related specs tool tool arguments) arguments all_rules
            (keep wanted all_rules),
        rw (matching_rules, routed) refl,
        extend_all_keeps specs (related specs tool tool arguments) arguments all_rules
            (keep wanted all_rules) matched,
      )

  outside-deny :
      (path : Option Value) (boundary : PermissionBehavior × String × String)
      → file_hard_check libraries path ≡ some boundary
      → boundary.0 ≡ deny
  outside-deny none boundary h = cc
  outside-deny (some (texts xs)) boundary h = cc
  outside-deny (some (flag b)) boundary h = cc
  outside-deny (some (text path)) boundary h = ground arith

  -- the only fixed boundary of a file tool is a denial
  boundary-deny :
      (tool : String) (arguments : Fields) (policy : ToolPolicy)
      (boundary : PermissionBehavior × String × String)
      → mem tool file_tools ≡ true
      → hard_check libraries tool arguments policy ≡ some boundary
      → boundary.0 ≡ deny
  unfolding hard_check
  boundary-deny tool arguments policy boundary m h = outside-deny (get "path" arguments) boundary (
      sym
        (ap (λ strategy. hard_check_by libraries strategy arguments policy) (spec_for-file tool m))
      ∙ h)

  -- A rule of the permission files that denies `dir/**` to a file tool: every call of the tool, with
  -- a path that is under the directory once the arguments are normalized and that has no line feed
  -- below it, is denied, whatever the other rules, the grants and the mode are, and it uses up no
  -- grant. The rule is of the current version and names the tool; the directory is relative and
  -- has no wildcards.
  pub decide-deny_subtree :
      (files : Files) (tool : String) (arguments : Fields) (policy : ToolPolicy) (context : Context)
      (s : Journal) (before : List PermissionRule) (r : PermissionRule)
      (after : List PermissionRule) (pattern actual : String) (dir below : Text)
      → files.rules ≡ before ++ r ∷ after
      → mem tool file_tools ≡ true
      → r.behavior ≡ deny
      → IsPathRule r tool pattern
      → codes pattern ≡ dir ++ subtree
      → IsDirectory dir
      → get "path" (normalize tool arguments) ≡ some (text actual)
      → normalized (codes actual) ≡ dir ++ (slash ∷ below)
      → all on_line below ≡ true
      → (d : Decision) × (decide specs files tool arguments policy context s ≡ (return d, s))
        × (d.behavior ≡ deny)
  unfolding decide
  decide-deny_subtree files tool arguments policy context s before r after pattern actual dir below
        e m denies p written directory at under lines =
      let held : path_glob_match (codes actual) (codes pattern) ≡ true =
        rw written
          ((path_glob_match-subtree (codes actual) dir directory).1 (below, under, lines)) in
      let call = normalize tool arguments in
      let matches : strategy_matches libraries r tool call ≡ true =
        strategy_matches-file r tool call m
        ∙ file_matches-path r tool pattern actual call p at held in
      let (matching, is, denied) =
        matching-denied files tool call context s before r after e m denies matches in
      elim (Option-cases (hard_check libraries tool call policy)) [
        | inl safe ↦ decide-deny specs files tool arguments policy context s matching safe is denied
        | inr ((behavior, code, reason), h) ↦ (
          decided specs context call behavior "safety_boundary" code "safety" none,
          rw (decide, h) refl,
          boundary-deny tool call policy (behavior, code, reason) m h,
        )
      ]
