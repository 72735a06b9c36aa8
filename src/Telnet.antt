-- ===== src/Telnet.antt =====
-- src/core/network/telnet: the telnet transport.
pub mod Constants
pub mod Parser
pub mod Codec
pub mod Option
pub mod Mxp
pub mod Capabilities
pub mod Relay
