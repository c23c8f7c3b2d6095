-- ===== src/Server.antt =====
-- The chat server: src/server. `State` is what its objects hold, `ChatServer` the class of server.cpp,
-- `Session` the class of session.cpp.
pub mod State
pub mod ChatServer
pub mod Session
pub mod Dispatch
pub mod Registry
pub mod Mutex
pub mod Login
pub mod LoginCases
pub mod Register
pub mod Delivery
pub mod Fields
pub mod Wire
pub mod Authentication
pub mod WriteQueue
pub mod Start
pub mod Accept
pub mod Unreached
pub mod Reachable
pub mod Runs
pub mod Schedule
pub mod Identity
pub mod Reads
pub mod Provenance
pub mod Hang
pub mod Shutdown
pub mod Robust
pub mod Race
pub mod Enrolment
pub mod Main
pub mod Program
pub mod Tests
