-- ===== src/Hooklane/Redis/Values.antt =====
-- The names and strings that src/hooklane/queue/events.py keeps in Redis, by what they spell.
use native.Mathlib.Decide.{ℕ_discrete}
use hooklane.Prelude.{ℕ, List, Eq}
use hooklane.Cloudflare.Contract.{EventStatus}
use hooklane.Hooklane.Delivery.{DeliveryErrorClass}

pub data ℤ : Type 0 where
  pos negsuc : ℕ → ℤ

-- A stream id `<ms>-<seq>`.
pub record StreamId : Type 0 where
  pub ms : ℕ
  pub seq : ℕ

pub data QuarantineReason : Type 0 where
  invalid_message invariant_violation : QuarantineReason

-- A string: the canonical form of a UUID or of an integer, a stream id, or a word of the source.
-- `plain` is any other string, or one that the source writes and never compares.
pub data Value : Type 0 where
  uuid : ℕ → Value
  int : ℤ → Value
  id : StreamId → Value
  word : EventStatus → Value
  class : DeliveryErrorClass → Value
  reason : QuarantineReason → Value
  plain : List ℕ → Value

-- The fields of the hashes and of the messages.
pub data Field : Type 0 where
  event_id event_type payload accepted_at_ms status attempt_count stream_id : Field
  last_error_class dead_letter_stream_id fingerprint error_class source_stream_id : Field
  reason_code : Field
  other : List ℕ → Field

-- The keys under the namespace of the store; `status_key` is `event:` with the string after it.
pub data Key : Type 0 where
  stream_key retry_schedule_key dead_letter_key quarantine_key : Key
  status_key : Value → Key
  idempotency_key : List ℕ → Key
  foreign_key : List ℕ → Key

instance unfoldable pub value_eq : Eq Value
value_eq = record { dec = hlevel (ℕ_discrete) }

instance unfoldable pub key_eq : Eq Key
key_eq = record { dec = hlevel (ℕ_discrete) }

instance unfoldable pub field_eq : Eq Field
field_eq = record { dec = hlevel (ℕ_discrete) }

instance unfoldable pub stream_id_eq : Eq StreamId
stream_id_eq = record { dec = hlevel (ℕ_discrete) }
