-- ===== src/Tests.antt =====
-- Runs on concrete inputs, and each theorem with hypotheses at an input that meets them.
mod Telnet
mod Wire
mod Mxp
mod Auth
mod Compute
mod Debugger
mod Dap
mod Documents
mod Session
mod Relay
mod Render
mod Websocket
