-- ===== src/Desktop.antt =====
-- What the desktop application shows of a task, and the commands to it
-- (src/transport/protocol.ts, src/transport/desktop-task-protocol.ts).
pub mod Offer
pub mod Attachment
pub mod State
pub mod Decoder
pub mod Injection
use codexhook.Base.{ℕ, String, Option, List}
use codexhook.Contracts.{TurnStatus}

-- The error of a turn: left out, null, or an object whose message may be left out.
pub data TurnError : Type 0 where
  undefined null : TurnError
  error_object : Option String → TurnError

pub record Turn : Type 0 where
  pub id : String
  pub status : TurnStatus
  pub error : TurnError

-- `number | null`: null, a whole number from 0 on, or any other number.
pub data Number : Type 0 where
  no_number other_number : Number
  whole : ℕ → Number

pub record DesktopTurnEntity : Type 0 where
  pub key : String
  pub turn : Turn

pub record DesktopDeliveryBinding : Type 0 where
  pub key : String
  pub delivery_id : String

pub data DesktopTurnDelta : Type 0 where
  upsert : DesktopTurnEntity → DesktopTurnDelta
  bind : String → String → DesktopTurnDelta
  status_delta : String → TurnStatus → DesktopTurnDelta
  error_delta : String → TurnError → DesktopTurnDelta
  remove : String → DesktopTurnDelta

-- `deliveryBindings` is optional in both.
pub record Snapshot : Type 0 where
  pub revision : Number
  pub entities : List DesktopTurnEntity
  pub delivery_ids : List String
  pub delivery_bindings : Option (List DesktopDeliveryBinding)

pub record Patches : Type 0 where
  pub base_revision : Number
  pub revision : Number
  pub deltas : List DesktopTurnDelta
  pub delivery_ids : List String
  pub delivery_bindings : Option (List DesktopDeliveryBinding)

pub data DesktopTaskChange : Type 0 where
  snapshot : Snapshot → DesktopTaskChange
  patches : Patches → DesktopTaskChange

-- The input of a command is unknown to its readers, here its text; `createdAt` and `timeoutMs` are
-- milliseconds.
pub record StartCommand : Type 0 where
  pub thread_id : String
  pub client_user_message_id : String
  pub input : String
  pub timeout_ms : Option ℕ

pub record SteerCommand : Type 0 where
  pub thread_id : String
  pub expected_turn_id : String
  pub client_user_message_id : String
  pub input : String
  pub created_at : ℕ
  pub timeout_ms : Option ℕ

pub data DesktopCommand : Type 0 where
  start : StartCommand → DesktopCommand
  steer : SteerCommand → DesktopCommand
