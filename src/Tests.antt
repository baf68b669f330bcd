-- ===== src/Tests.antt =====
-- The program on concrete inputs: its unit tests (XTest/), its configuration file, and an
-- application of each theorem that has hypotheses.
pub mod Inputs
pub mod System
pub mod SocketCalls
pub mod Runs
pub mod Request
pub mod Pools
pub mod Reports
pub mod Loop
pub mod Connections
pub mod Rounds
pub mod Serving
pub mod Main
pub mod Files
