-- ===== src/Actions/Record.antt =====
-- capslock/domain/actions.py: kinds, statuses and the stored row of an action. An instant is a
-- number, and a JSON object is the list of its keys with the text of their values.
use caps_lock.Prelude.{
  ℕ, ◌≡◌, ◌↔◌, Bool, true, Option, none, String, List, [], ◌∷◌, arith, Eq, string_eq, nat_eq, ◌==◌,
  if◌then◌else◌,
}

pub data ActionType : Type 0 where
  file_edit file_create notebook_edit worktree_create worktree_exit command web_search web_fetch
        mcp_connect mcp_call credential_access session_rewind :
      ActionType

abbrev pub type_index : ActionType → ℕ
type_index file_edit = 0
type_index file_create = 1
type_index notebook_edit = 2
type_index worktree_create = 3
type_index worktree_exit = 4
type_index command = 5
type_index web_search = 6
type_index web_fetch = 7
type_index mcp_connect = 8
type_index mcp_call = 9
type_index credential_access = 10
type_index session_rewind = 11

pub type_eq_iff : (a b : ActionType) → (nat_eq (type_index a) (type_index b) ≡ true) ↔ (a ≡ b)
type_eq_iff a b = ground arith

instance abbrev pub type_eq : Eq ActionType
type_eq = record { equal = λ a b. nat_eq (type_index a) (type_index b); equal_iff = type_eq_iff }

pub data ActionStatus : Type 0 where
  pending approved running completed failed rejected cancelled : ActionStatus

abbrev pub status_index : ActionStatus → ℕ
status_index pending = 0
status_index approved = 1
status_index running = 2
status_index completed = 3
status_index failed = 4
status_index rejected = 5
status_index cancelled = 6

pub action_status_eq_iff :
    (a b : ActionStatus) → (nat_eq (status_index a) (status_index b) ≡ true) ↔ (a ≡ b)
action_status_eq_iff a b = ground arith

instance abbrev pub action_status_eq : Eq ActionStatus
action_status_eq = record {
  equal = λ a b. nat_eq (status_index a) (status_index b);
  equal_iff = action_status_eq_iff;
}

pub data ActionResultKind : Type 0 where
  applied undone exit_zero nonzero_exit timeout execution_error user_cancelled success :
      ActionResultKind

abbrev pub kind_index : ActionResultKind → ℕ
kind_index applied = 0
kind_index undone = 1
kind_index exit_zero = 2
kind_index nonzero_exit = 3
kind_index timeout = 4
kind_index execution_error = 5
kind_index user_cancelled = 6
kind_index success = 7

pub kind_eq_iff : (a b : ActionResultKind) → (nat_eq (kind_index a) (kind_index b) ≡ true) ↔ (a ≡ b)
kind_eq_iff a b = ground arith

instance abbrev pub kind_eq : Eq ActionResultKind
kind_eq = record { equal = λ a b. nat_eq (kind_index a) (kind_index b); equal_iff = kind_eq_iff }

-- A JSON object: its keys, each with the JSON text of its value.
abbrev pub Json : Type 0
Json = List (String × String)

-- json_set(object, '$.key', value)
unfoldable pub json_set : String → String → Json → Json
json_set k v [] = (k, v) ∷ []
json_set k v ((j, w) ∷ rest) = if j == k then (k, v) ∷ rest else (j, w) ∷ json_set k v rest

-- object.get(key)
unfoldable pub json_get : String → Json → Option String
json_get k [] = none
json_get k ((j, w) ∷ rest) = if j == k then Option.some w else json_get k rest

-- object.pop(key, None)
unfoldable pub json_pop : String → Json → Json
json_pop k [] = []
json_pop k ((j, w) ∷ rest) = if j == k then rest else (j, w) ∷ json_pop k rest

pub record ActionRecord : Type 0 where
  pub id : String
  pub session_id : String
  pub run_id : String
  pub type : ActionType
  pub status : ActionStatus
  pub summary : String
  pub request : Json
  pub result : Option Json
  pub result_kind : Option ActionResultKind
  pub created_at : ℕ
  pub approved_at : Option ℕ
  pub started_at : Option ℕ
  pub finished_at : Option ℕ
  pub reversed_at : Option ℕ
  pub decided_at : Option ℕ
  pub risk_level : Option String
  pub risk_reason : Option String
  pub rollback : Option String
  pub error_code : Option String
  pub error_message : Option String
  pub import_id : Option String
  pub historical_only : Bool
  pub requires_reapproval : Bool
