-- ===== src/Tests.antt =====
-- The theorems applied to concrete inputs, and runs of the definitions.
mod PolicyTests
mod WritebackTests
mod ControllerTests
mod ApplyTests
mod ReconcileTests
mod WebhookTests
mod RegistryTests
mod DashboardTests
mod OperatorTests
mod StartupTests
mod EditTests
