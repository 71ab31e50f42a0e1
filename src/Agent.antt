-- ===== src/Agent.antt =====
-- packages/native_agent: the policy and the gates that stand before a native tool of the robot, the relay
-- of messages between two owners and the social memory that an agent is given.
pub mod Arguments
pub mod Approval
pub mod Policy
pub mod Allowlist
pub mod Gates
pub mod Relay
pub mod SocialMemory
mod Tests
