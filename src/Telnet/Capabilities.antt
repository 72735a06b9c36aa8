-- ===== src/Telnet/Capabilities.antt =====
-- src/core/session/capabilities.rs: what is known of a client.
--
-- A `u16` is a number below 2^16.
use oxigeon.Base.{ℕ, Bool, true, false, List, [], Option, none, some}
use oxigeon.Base.Utf8.{ascii}
use oxigeon.Telnet.Mxp.{Text}

pub record ClientCapabilities : Type 0 where
  pub terminal_type : Option Text
  pub window_width : Option ℕ
  pub window_height : Option ℕ
  pub mccp2_supported : Bool
  pub mccp2_active : Bool
  pub gmcp_supported : Bool
  pub gmcp_packages : List Text
  pub mxp_supported : Bool
  pub mxp_version : Option Text
  pub mxp_client : Option Text
  pub mxp_supports : List Text

abbrev pub default : ClientCapabilities
default = record {
  terminal_type = none;
  window_width = none;
  window_height = none;
  mccp2_supported = false;
  mccp2_active = false;
  gmcp_supported = false;
  gmcp_packages = [];
  mxp_supported = false;
  mxp_version = none;
  mxp_client = none;
  mxp_supports = [];
}

abbrev pub for_websocket : ClientCapabilities
for_websocket = record default {
  terminal_type = some (ascii "websocket");
  window_width = some 80;
  window_height = some 24;
  gmcp_supported = true;
}
