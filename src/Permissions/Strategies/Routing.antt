-- ===== src/Permissions/Strategies/Routing.antt =====
-- resolve_agent_operation of capslock/tooling/tools/collaboration.py: the operation that a call of an
-- Agent tool stands for, which the permission rules are asked about; `none` is the ValueError or
-- the KeyError that it raises.
use caps_lock.Prelude.{
  Bool, true, false, not, ◌&&◌, ◌||◌, Option, none, some, List, [], ◌∷◌, String, if◌then◌else◌, all,
  mem, ◌==◌, string_eq,
}
use caps_lock.Permissions.Strategies.{Value, text, flag, Fields, get, is_value}

abbrev Routed : Type 0
Routed = Option (String × Fields)

abbrev pub agent_tools : List String
agent_tools = "stop_agent" ∷ "send_agent_message" ∷ []

abbrev has : Option Value → Bool
has none = false
has (some v) = true

-- isinstance(value, str) and value in allowed
abbrev is_one_of : List String → Option Value → Bool
is_one_of allowed (some (text a)) = mem a allowed
is_one_of allowed _ = false

abbrev reply : Option Value → Fields
reply none = []
reply (some v) = ("reply_to_message_id", v) ∷ []

-- a message to a task, with its kind
abbrev task_message : String → Value → Fields → Option Value → Routed
task_message target payload arguments none = none
task_message target payload arguments (some kind) =
    if is_one_of ("instruction" ∷ "response" ∷ "cancel" ∷ []) (some kind)
    then some (
      "send_agent_message",
      ("task_id", text target)
          ∷ ("kind", kind)
          ∷ ("payload", payload)
          ∷ reply (get "reply_to_message_id" arguments),
    )
    else none

abbrev team_message : String → String → Value → Fields → Routed
team_message kind target payload arguments =
    if has (get "kind" arguments)
    then none
    else if kind == "agent"
    then some ("send_team_message", ("recipient_agent_id", text target) ∷ ("payload", payload) ∷ [])
    else some (
      "send_team_message",
      ("team_id", text target) ∷ ("broadcast", flag true) ∷ ("payload", payload) ∷ [],
    )

-- the team's flag, and no flag for another target
abbrev broadcast_fits : String → Option Value → Bool
broadcast_fits kind value =
    if kind == "team"
    then is_value (flag true) value
    else not (has value) || is_value (flag false) value

abbrev send : String → String → Fields → Option Value → Routed
send kind target arguments none = none
send kind target arguments (some payload) =
    if not (broadcast_fits kind (get "broadcast" arguments))
    then none
    else if kind == "task"
    then task_message target payload arguments (get "kind" arguments)
    else team_message kind target payload arguments

abbrev stop : String → String → Routed
stop kind target =
    if kind == "task"
    then some ("stop_agent_task", ("task_id", text target) ∷ [])
    else some ("stop_agent", ("agent_id", text target) ∷ [])

abbrev allowed_types : String → List String
allowed_types name =
    if name == "stop_agent" then "task" ∷ "agent" ∷ [] else "task" ∷ "agent" ∷ "team" ∷ []

abbrev targeted : String → Fields → Option Value → Option Value → Routed
targeted name arguments (some (text kind)) (some (text target)) =
    if not (mem kind (allowed_types name)) || target == ""
    then none
    else if name == "stop_agent"
    then stop kind target
    else send kind target arguments (get "payload" arguments)
targeted name arguments _ _ = none

unfoldable pub resolve_agent_operation : String → Fields → Routed
unfolding get
resolve_agent_operation name arguments =
    if not (mem name agent_tools)
    then some (name, arguments)
    else if name == "stop_agent" && has (get "agent_id" arguments)
    then if all (λ (item : String × Value). item.0 == "agent_id") arguments
      then some (name, arguments)
      else none
    else targeted name arguments (get "target_type" arguments) (get "target_id" arguments)
