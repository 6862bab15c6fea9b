-- ===== src/Lib.antt =====
-- CapsLock is a local coding agent: a model proposes tool calls, and the program decides which of
-- them run, records what was done, and passes messages between agents. The library models the
-- decisions and the durable state, not the terminal, the model or the operating system.
--
-- The parts, and the files of the repository that they are about:
--   Prelude      lists, equality, and calls that return or raise, which every part shares;
--   Table        a table of the SQLite stores, with UPDATE and its row count;
--   Workflow     Status is capslock/domain/workflow.py; Store has the tables and Transitions, Waiting,
--                Resume and Cancelling the transactions of
--                capslock/storage/repositories/workflow_uow.py;
--   Actions      capslock/storage/repositories/actions.py: Record has the row, Store every call of the
--                repository, Lifecycle and History the invariant of a table, Guards each call's guards
--                with Edges the steps of an action's status, and Coordinator is
--                capslock/application/action_system/core.py;
--   Governance   Loops is the detection of loops of capslock/runtime/governance.py, Limits has
--                capslock/domain/governance.py and capslock/storage/repositories/governance.py, and
--                Budget is RunGovernor with its charges and limits;
--   Mailbox      Wakeup is capslock/collaboration/wakeup.py, Store the reads and acknowledgements of
--                capslock/storage/repositories/collaboration.py and mailbox.py, Receiver and
--                Polling are capslock/runtime/mailbox.py; Wakeup.Waiting is about the end of a wait,
--                Store.Draining, Rounds, Delivering, Acknowledging and Returning are about a mailbox
--                that is read and acknowledged again and again;
--   Permissions  Rules is capslock/permissions.py with decision.py and models.py of
--                capslock/tooling/permission_policy, Patterns, McpNames and Strategies are its specs.py,
--                Engine its engine.py, Middleware its middleware.py
--                with capslock/tooling/planning.py, Journal is
--                capslock/storage/repositories/journal/permissions.py;
--   Agents       capslock/storage/repositories/collaboration.py: Record has the rows, Store,
--                Creating, States, Attempts, Finishing, Resuming, Sending and Messages the calls,
--                Accounts, Histories, Acyclic, Dependencies and Claims what they keep;
--   Plans        capslock/storage/repositories/plans.py: Record has the rows, Store, Revising, Requesting
--                and Implementing the calls, Approval and Revisions what they keep;
--   Shell        capslock/shell/assessment.py.
-- They meet where the code's parts do: the end of a run closes its rows of the action store; the
-- receiver reads and acknowledges through the mailbox store, to which Agents.Sending adds, and
-- listens to the registry of Wakeup; the usage that Agents.Finishing sums up has the type of what the
-- governor of Governance reads; the engine decides with the rules, and takes one-time grants
-- from the journal; the middlewares put the boundary of Plan Mode in front of the engine.
--
-- A repository call is a function of its table, and a call that may raise gives the exception as a
-- value together with the state that it leaves. An await that does not suspend is no step of its own;
-- where the order of tasks matters, the other tasks' calls are a list that the model takes. Times
-- and drawn ids are arguments; instants are numbers. Recursion is over lists, and two loops
-- take fuel: the loop over a path pattern takes the length of the pattern, of which each round uses
-- up a part, and the search for a cycle of tasks as many rounds as there are dependencies, of which
-- each round that is not the last adds one; the
-- loops that wait (Wakeup.wait_for) run over the calls that other tasks make until the timeout.
--
-- Not modelled: SQLite itself, the regular expressions, shlex and the Tree-sitter parser (parameters
-- of Shell), the libraries that match commands, hosts and tool patterns (the parameters of
-- Permissions.Strategies), the rewriting of arguments before a decision, the outputs, workspaces and approval
-- links of agents, the events and reports, and the parts that drive models, terminals, servers and
-- processes.
mod Prelude
mod Table
pub mod Workflow
pub mod Actions
pub mod Governance
pub mod Mailbox
pub mod Permissions
pub mod Shell
pub mod Plans
pub mod Agents
mod Tests
