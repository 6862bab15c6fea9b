-- ===== src/Tests.antt =====
-- Runs of the components on concrete inputs, and the theorems at such inputs.
mod LoopCases
mod ActionCases
mod MailboxCases
mod ReceiverCases
mod PermissionCases
mod ShellCases
mod WorkflowCases
mod CoordinatorCases
mod StrategyCases
mod GovernorCases
mod PlanCases
mod AgentCases
mod SendingCases
