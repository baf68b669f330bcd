-- ===== src/Conf.antt =====
-- The configuration: the settings of the two modules and their commands (src/xpipe.c and
-- src/net/network.c), and the parser of the file (src/conf_file.c).
pub mod Settings
pub mod Commands
pub mod Lookup
pub mod Parser
pub mod Start
pub mod Reads
pub mod Lines
pub mod Handlers
pub mod Invariant
pub mod Safety
pub mod SafeStep
pub mod SafeRun
pub mod Numbers
pub mod Overflow
pub mod WordText
pub mod CommandText
