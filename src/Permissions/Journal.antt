-- ===== src/Permissions/Journal.antt =====
-- capslock/storage/repositories/journal/permissions.py: rules of a session, settings, decisions,
-- requests and the one-time grants. Every call is one transaction. The ids that the code draws are
-- given to the calls, and an id that is in use is refused, as the primary keys do.
pub mod Grants
pub mod Balance
use caps_lock.Prelude.{
  ℕ, Bool, true, false, not, ◌&&◌, ◌||◌, Option, none, some, List, [], ◌∷◌, ◌++◌, String,
  if◌then◌else◌, nat_eq, keep, first, take, mem, ◌==◌, Eq, string_eq, Outcome, return, raise, Exec,
  pure, throw, gets, writes, ◌>>=◌, ◌>>◌,
}
use Prim.Native.Nat.{min, max}
use caps_lock.Table.{update_where, row_count}
use caps_lock.Permissions.Rules.{PermissionBehavior, PermissionMode, PermissionRule}

pub data RequestStatus : Type 0 where
  pending approved rejected cancelled : RequestStatus

pub data ApprovalChoice : Type 0 where
  approve_once approve_session approve_local reject : ApprovalChoice

-- What a request and a grant are about: the fields that both tables have.
pub record Subject : Type 0 where
  pub session_id : String
  pub run_id : String
  pub invocation_id : String
  pub tool : String
  pub arguments_sha256 : String

-- permission_requests
pub record PermissionRequest : Type 0 where
  pub id : String
  pub subject : Subject
  pub reason : String
  pub suggestions : String
  pub status : RequestStatus
  pub choice : Option ApprovalChoice
  pub selected_update : Option String
  pub feedback : Option String
  pub result : Option String
  pub created_at : ℕ
  pub decided_at : Option ℕ

-- permission_grants
pub record PermissionGrant : Type 0 where
  pub id : String
  pub permission_request_id : String
  pub subject : Subject
  pub created_at : ℕ
  pub consumed_at : Option ℕ

-- permission_rules
pub record RuleRow : Type 0 where
  pub id : String
  pub session_id : String
  pub rule : PermissionRule
  pub created_at : ℕ

-- permission_decisions
pub record DecisionRow : Type 0 where
  pub id : String
  pub invocation_id : String
  pub behavior : PermissionBehavior
  pub source : String
  pub reason_code : String
  pub mode : PermissionMode
  pub arguments_sha256 : String
  pub rule : Option PermissionRule
  pub decided_by : Option String
  pub created_at : ℕ

pub record Journal : Type 0 where
  pub requests : List PermissionRequest
  pub grants : List PermissionGrant
  pub rules : List RuleRow
  pub settings : String → Option String
  pub decisions : List DecisionRow

pub data JournalError : Type 0 where
  id_in_use request_not_pending request_changed request_not_decided rule_missing : JournalError

abbrev pub Call : Type 0 → Type 0
Call = Exec JournalError Journal

abbrev pub has_request_id : String → PermissionRequest → Bool
has_request_id i r = r.id == i

abbrev pub has_grant_id : String → PermissionGrant → Bool
has_grant_id i g = g.id == i

abbrev pub same_subject : Subject → Subject → Bool
same_subject a b =
    a.session_id == b.session_id
    && a.run_id == b.run_id
    && a.invocation_id == b.invocation_id
    && a.tool == b.tool
    && a.arguments_sha256 == b.arguments_sha256

abbrev pub is_pending : RequestStatus → Bool
is_pending pending = true
is_pending _ = false

abbrev pub is_decided : RequestStatus → Bool
is_decided pending = false
is_decided _ = true

abbrev pub is_unconsumed : PermissionGrant → Bool
is_unconsumed g = elim g.consumed_at [ none ↦ true | some t ↦ false ]

unfoldable pub record_permission_decision : DecisionRow → Call String
record_permission_decision row s = (return row.id, record s { decisions = s.decisions ++ row ∷ [] })

-- ORDER BY created_at,id is the order of the calls: the clock does not go back
unfoldable pub session_permission_rules : String → Journal → List RuleRow
session_permission_rules session s = keep (λ (r : RuleRow). r.session_id == session) s.rules

unfoldable pub add_session_permission_rule : RuleRow → Call String
add_session_permission_rule row s = (return row.id, record s { rules = s.rules ++ row ∷ [] })

abbrev is_rule_of : String → String → RuleRow → Bool
is_rule_of session i r = r.id == i && r.session_id == session

unfoldable pub remove_session_permission_rule : (session_id identifier : String) → Call Unit
unfolding row_count
remove_session_permission_rule session i s =
    if nat_eq (row_count (is_rule_of session i) s.rules) 0
    then (raise rule_missing, s)
    else (return tt, record s { rules = keep (λ r. not (is_rule_of session i r)) s.rules })

unfoldable pub permission_setting : String → Journal → Option String
permission_setting key s = s.settings key

unfoldable pub set_permission_setting : String → String → Call Unit
set_permission_setting key value s =
    (return tt, record s { settings = λ k. if k == key then some value else s.settings k })

abbrev pub new_request : String → Subject → (reason suggestions : String) → ℕ → PermissionRequest
new_request identifier subject reason suggestions now = record {
  id = identifier;
  subject = subject;
  reason = reason;
  suggestions = suggestions;
  status = pending;
  choice = none;
  selected_update = none;
  feedback = none;
  result = none;
  created_at = now;
  decided_at = none;
}

unfoldable pub create_permission_request :
    (identifier : String) → Subject → (reason suggestions : String) → (now : ℕ) → Call String
unfolding row_count
create_permission_request identifier subject reason suggestions now s =
    let request = new_request identifier subject reason suggestions now in
    if nat_eq (row_count (has_request_id identifier) s.requests) 0
    then (return identifier, record s { requests = s.requests ++ request ∷ [] })
    else (raise id_in_use, s)

abbrev pub is_request_of : String → String → PermissionRequest → Bool
is_request_of identifier session r = r.id == identifier && r.subject.session_id == session

unfoldable pub permission_request :
    (identifier : String) → (session_id : Option String) → Journal → Option PermissionRequest
permission_request identifier none s = first (has_request_id identifier) s.requests
permission_request identifier (some session) s = first (is_request_of identifier session) s.requests

abbrev status_is : Option (PermissionRequest → Bool) → PermissionRequest → Bool
status_is none r = true
status_is (some test) r = test r

unfoldable pub list_permission_requests :
    (session_id : String) → Option (PermissionRequest → Bool) → Journal → List PermissionRequest
list_permission_requests session status s =
    keep (λ (r : PermissionRequest). r.subject.session_id == session && status_is status r)
      s.requests

abbrev pub target : ApprovalChoice → RequestStatus
target reject = rejected
target _ = approved

abbrev pub decided_row :
    ApprovalChoice → (selected feedback : Option String) → ℕ → PermissionRequest → PermissionRequest
decided_row choice selected feedback now r = record r {
  status = target choice;
  choice = some choice;
  selected_update = selected;
  feedback = feedback;
  decided_at = some now;
}

abbrev pub is_open_request : String → String → PermissionRequest → Bool
is_open_request identifier session r =
    r.id == identifier && r.subject.session_id == session && is_pending r.status

abbrev pub new_grant : String → PermissionRequest → ℕ → PermissionGrant
new_grant grant_id request now = record {
  id = grant_id;
  permission_request_id = request.id;
  subject = request.subject;
  created_at = now;
  consumed_at = none;
}

-- the INSERT into permission_grants, which an approval makes
abbrev pub insert_grant :
    RequestStatus → String → PermissionRequest → ℕ → List PermissionGrant → List PermissionGrant
insert_grant approved grant_id request now grants = grants ++ new_grant grant_id request now ∷ []
insert_grant _ grant_id request now grants = grants

abbrev pub commit_decision :
    ApprovalChoice
    → (selected feedback : Option String) → (grant_id : String) → ℕ
    → String
    → PermissionRequest
    → Call (Option PermissionRequest)
commit_decision choice selected feedback grant_id now session request s =
    let open_row = is_open_request request.id session in
    let t = record s {
      requests = update_where open_row (decided_row choice selected feedback now) s.requests;
      grants = insert_grant (target choice) grant_id request now s.grants;
    } in
    if nat_eq (row_count open_row s.requests) 0
    then (raise request_changed, s)
    else if not (nat_eq (row_count (has_grant_id grant_id) s.grants) 0)
    then (raise id_in_use, s)
    else (return (permission_request request.id (some session) t), t)

abbrev pub decide_found :
    ApprovalChoice
    → (selected feedback : Option String) → (grant_id : String) → ℕ
    → String
    → Option PermissionRequest
    → Call (Option PermissionRequest)
decide_found choice selected feedback grant_id now session none s = (raise request_not_pending, s)
decide_found choice selected feedback grant_id now session (some request) s =
    if is_pending request.status
    then commit_decision choice selected feedback grant_id now session request s
    else (raise request_not_pending, s)

unfoldable pub decide_permission_request :
    (identifier session_id : String)
    → ApprovalChoice
    → (selected feedback : Option String) → (grant_id : String) → (now : ℕ)
    → Call (Option PermissionRequest)
unfolding permission_request update_where row_count
decide_permission_request identifier session choice selected feedback grant_id now s =
    decide_found choice selected feedback grant_id now session
      (permission_request identifier (some session) s) s

abbrev pub is_decided_request : String → String → PermissionRequest → Bool
is_decided_request identifier session r =
    r.id == identifier && r.subject.session_id == session && is_decided r.status

unfoldable pub complete_permission_request : (identifier session_id result : String) → Call Unit
unfolding update_where row_count
complete_permission_request identifier session result s =
    let test = is_decided_request identifier session in
    if nat_eq (row_count test s.requests) 0 then (raise request_not_decided, s) else (
      return tt,
      record s { requests = update_where test (λ r. record r { result = some result }) s.requests },
    )

abbrev pub is_usable : Subject → PermissionGrant → Bool
is_usable subject g = same_subject g.subject subject && is_unconsumed g

abbrev pub consume : ℕ → PermissionGrant → PermissionGrant
consume now g = record g { consumed_at = some now }

abbrev pub consume_found : ℕ → Option PermissionGrant → Call Bool
consume_found now none s = (return false, s)
consume_found now (some row) s =
    let test = λ (g : PermissionGrant). g.id == row.id && is_unconsumed g in
    (
      return (not (nat_eq (row_count test s.grants) 0)),
      record s { grants = update_where test (consume now) s.grants },
    )

unfoldable pub consume_permission_grant : Subject → (now : ℕ) → Call Bool
unfolding update_where row_count
consume_permission_grant subject now s = consume_found now (first (is_usable subject) s.grants) s
