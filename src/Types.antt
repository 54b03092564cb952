-- ===== src/Types.antt =====
-- The shared types (src/types.ts). Branded identifiers are texts.
use codexhook.Base.{ℕ, String, Option}

pub data DeliveryMode : Type 0 where
  queue steer : DeliveryMode

pub record WebhookRecord : Type 0 where
  pub id : String
  pub thread_id : String
  pub mode : DeliveryMode
  pub prepend_body : String
  pub expires_at : Option ℕ
  pub remaining_deliveries : Option ℕ
  pub created_at : ℕ

pub record CreatedWebhook : Type 0 where
  pub webhook : WebhookRecord
  pub token : String

-- Durations are milliseconds.
pub record TurnRequest : Type 0 where
  pub thread_id : String
  pub delivery_id : String
  pub message : String
  pub mode : DeliveryMode
  pub idle_timeout : ℕ
  pub turn_timeout : ℕ
