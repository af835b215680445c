-- ===== src/Runner.antt =====
-- internal/runner: the runners' state.
pub mod Capture
pub mod PrivateBuffer
pub mod Fixture
pub mod Topology
pub mod Inputs
pub mod Run
pub mod Process
pub mod Startup
pub mod Exchange
pub mod Submission
mod Tests
