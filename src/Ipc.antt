-- ===== src/Ipc.antt =====
-- The protocol of the desktop application's socket (src/transport/desktop-ipc): its errors, whose
-- message is left out (src/transport/desktop-ipc/errors.ts).
pub mod Framing
pub mod Wire
pub mod Owners
pub mod Adapters

pub data DesktopProtocolFailure : Type 0 where
  closed connect_timeout frame_invalid handshake_malformed : DesktopProtocolFailure
  invalid_timeout owner_unroutable pending_limit reconnect_failed : DesktopProtocolFailure
  request_timeout response_malformed socket_failed : DesktopProtocolFailure
  socket_unavailable task_not_followed unknown_protocol_version : DesktopProtocolFailure
  unsupported_capability write_failed : DesktopProtocolFailure

pub data DesktopWriteState : Type 0 where
  not_written unknown_write written : DesktopWriteState

pub data Stage : Type 0 where
  connect framing handshake operation : Stage

pub record DesktopProtocolError : Type 0 where
  pub failure : DesktopProtocolFailure
  pub stage : Stage
  pub write_state : DesktopWriteState
