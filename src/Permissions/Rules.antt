-- ===== src/Permissions/Rules.antt =====
-- capslock/tooling/permission_policy/models.py and decision.py, and capslock/permissions.py.
pub mod Selection
use Prim.Native.Nat.{Ordering}
use Prim.Native.String.{compare as compare_text}
use caps_lock.Prelude.{
  ℕ, Bool, true, false, not, ◌&&◌, ◌||◌, Option, none, some, List, [], ◌∷◌, String, if◌then◌else◌,
  nat_eq, ltb, keep, ◌==◌, string_eq,
}
use caps_lock.Actions.Record.{
  ActionType, file_edit, file_create, command, web_search, web_fetch, notebook_edit,
  worktree_create, worktree_exit, mcp_connect, mcp_call, credential_access, session_rewind,
}

pub data PermissionMode : Type 0 where
  full_access approve_for_me ask_for_approval : PermissionMode

pub data PermissionBehavior : Type 0 where
  allow ask deny : PermissionBehavior

abbrev pub same_behavior : PermissionBehavior → PermissionBehavior → Bool
same_behavior allow allow = true
same_behavior ask ask = true
same_behavior deny deny = true
same_behavior _ _ = false

-- The order of `max` looks at a rule's specificity, which stands here as the three numbers that the
-- property computes from the constraints.
pub record Specificity : Type 0 where
  pub exact : ℕ
  pub constraint_count : ℕ
  pub literal : ℕ

-- `constraints` is the text of the mapping
pub record PermissionRule : Type 0 where
  pub behavior : PermissionBehavior
  pub tool : String
  pub constraints : String
  pub specificity : Specificity
  pub source : String
  pub identifier : Option String
  pub matcher_version : ℕ

-- _SOURCE_PRIORITY, one higher, and 0 for a source that it does not name
abbrev pub source_priority : String → ℕ
source_priority source =
    if source == "user"
    then 1
    else if source == "project"
    then 2
    else if source == "local"
    then 3
    else if source == "session"
    then 4
    else 0

abbrev text_below : String → String → Bool
text_below a b = elim (compare_text a b) [ Ordering.lt ↦ true | _ ↦ false ]

abbrev or_empty : Option String → String
or_empty none = ""
or_empty (some i) = i

-- a tuple of a specificity, a priority and one more part is below another: `last` says it of the parts
abbrev pub lexicographic : (x y : Specificity) → (i j : ℕ) → (last : Bool) → Bool
lexicographic x y i j last =
    if not (nat_eq x.exact y.exact)
    then ltb x.exact y.exact
    else if not (nat_eq x.constraint_count y.constraint_count)
    then ltb x.constraint_count y.constraint_count
    else if not (nat_eq x.literal y.literal)
    then ltb x.literal y.literal
    else if not (nat_eq i j)
    then ltb i j
    else last

abbrev pub rank_below : PermissionRule → PermissionRule → Bool
rank_below a b =
    lexicographic a.specificity b.specificity (source_priority a.source) (source_priority b.source)
      (text_below (or_empty a.identifier) (or_empty b.identifier))

-- `max`, which keeps the first of equals
unfoldable pub best : PermissionRule → List PermissionRule → PermissionRule
best r [] = r
best r (x ∷ rules) = best (if rank_below r x then x else r) rules

unfoldable pub best_of : List PermissionRule → Option PermissionRule
unfolding best
best_of [] = none
best_of (r ∷ rules) = some (best r rules)

abbrev pub with_behavior : PermissionBehavior → List PermissionRule → List PermissionRule
with_behavior b rules = keep (λ (r : PermissionRule). same_behavior r.behavior b) rules

-- the loop over the three behaviours
abbrev pub select_from : List PermissionBehavior → List PermissionRule → Option PermissionRule
select_from [] matching = none
select_from (b ∷ behaviors) matching =
    let later = select_from behaviors matching in
    elim (best_of (with_behavior b matching)) [ some r ↦ some r | none ↦ later ]

unfoldable pub select_rule : List PermissionRule → Option PermissionRule
unfolding best_of
select_rule matching = select_from (deny ∷ ask ∷ allow ∷ []) matching

-- class ResolvedToolPolicy, the fields that the permission code reads
pub record ToolPolicy : Type 0 where
  pub read_only : Bool
  pub destructive : Bool
  pub external_side_effects : Bool
  pub open_world : Bool
  pub context_mutation : Bool

abbrev by_policy : ToolPolicy → PermissionBehavior
by_policy policy =
    if policy.destructive || policy.external_side_effects || policy.open_world then ask else allow

unfoldable pub default_behavior :
    PermissionMode → ToolPolicy → (deterministic_shell_allow shell_tool : Bool) → PermissionBehavior
default_behavior full_access policy deterministic shell = allow
default_behavior ask_for_approval policy deterministic shell = ask
default_behavior approve_for_me policy deterministic true = if deterministic then allow else ask
default_behavior approve_for_me policy deterministic false = by_policy policy

-- the level of RiskAssessment; its two texts are not modelled
pub data RiskLevel : Type 0 where
  high medium low : RiskLevel

unfoldable pub assess : ActionType → RiskLevel
assess file_edit = high
assess file_create = high
assess notebook_edit = high
assess worktree_create = high
assess worktree_exit = high
assess session_rewind = high
assess command = high
assess mcp_connect = high
assess mcp_call = high
assess credential_access = high
assess web_search = medium
assess web_fetch = medium

abbrev is_high : RiskLevel → Bool
is_high high = true
is_high _ = false

unfoldable pub requires_approval : PermissionMode → ActionType → Bool
unfolding assess
requires_approval mode worktree_exit = true
requires_approval mode session_rewind = true
requires_approval full_access action = false
requires_approval ask_for_approval action = true
requires_approval approve_for_me action = is_high (assess action)
