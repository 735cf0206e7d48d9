-- ===== src/AgentOs.antt =====
-- services/hermes/agent_os30: the runtime layer of Agent OS 3.0.
pub mod Trajectory
pub mod Checkpoints
pub mod Goals
pub mod Controller
pub mod Scheduler
pub mod Harness
pub mod Samples
