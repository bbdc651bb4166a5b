-- ===== src/Tests.antt =====
-- The tests: each module runs the model, and applies the theorems, on concrete inputs.
mod World
mod Cluster
mod Jobs
mod ControllerTests
mod WatchTests
mod EnvTests
mod VersionTests
mod SizingTests
mod EscapeTests
mod ImportTests
mod HandlerTests
mod ProgressTests
mod DriftTests
mod EntryTests
mod DeepCopyTests
mod HashTests
mod SetupTests
