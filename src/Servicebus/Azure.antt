-- ===== src/Servicebus/Azure.antt =====
-- packages/servicebus/azure_bus.py: `AzureServiceBusQueue` over the client library azure-servicebus,
-- which is the record `Sdk`. A dict stands for the text that `json.dumps` makes of it.
pub mod Settlement
mod Tests
use nervora.Base.{
  ℕ, zero, suc, String, List, [], ◌∷◌, Option, none, some, ◌==◌, if◌then◌else◌, truthy,
}
use nervora.Json.{Dict}
use nervora.Servicebus.Interface.{Attempt, done, raised}

-- A message as the library returns it, by its lock token; the body is what `json.loads` makes of its
-- text.
pub record Raw : Type 0 where
  pub body : Attempt Dict
  pub delivery_count : Option ℕ
  pub lock_token : ℕ

-- The calls of the library on its state: clients, senders and receivers are opened under a number, and a
-- call that raises may have had effects. A receiver is opened with PEEK_LOCK, and `receive_messages`
-- takes how many messages it may return.
pub record Sdk (S : Type 0) : Type 0 where
  pub open_client : String → S → ℕ × S
  pub close_client : ℕ → S → S
  pub open_sender : ℕ → String → S → ℕ × S
  pub close_sender : ℕ → S → S
  pub send_messages : ℕ → Dict → S → Attempt (Unit {0}) × S
  pub open_receiver : ℕ → String → S → ℕ × S
  pub close_receiver : ℕ → S → S
  pub receive_messages : ℕ → ℕ → S → Attempt (List Raw) × S
  pub complete_message : ℕ → ℕ → S → Attempt (Unit {0}) × S
  pub abandon_message : ℕ → ℕ → S → Attempt (Unit {0}) × S
  pub dead_letter_message : ℕ → ℕ → String → String → S → Attempt (Unit {0}) × S

pub record AzureServiceBusQueue : Type 0 where
  pub connection_string : String
  pub queue_name : String

-- `Message`, with the receiver that its metadata names.
pub record AzureMessage : Type 0 where
  pub body : Dict
  pub delivery_count : ℕ
  pub handle : ℕ
  pub receiver : ℕ

-- `raw.delivery_count or 1`
abbrev pub count_or_one : Option ℕ → ℕ
count_or_one none = 1
count_or_one (some zero) = 1
count_or_one (some (suc n)) = suc n

-- The message with a body, before those of the rest; the first text that is not JSON raises.
abbrev pub to_message :
    ℕ → Raw → Attempt Dict → Attempt (List AzureMessage) → Attempt (List AzureMessage)
to_message receiver raw (raised text) rest = raised text
to_message receiver raw (done body) (raised text) = raised text
to_message receiver raw (done body) (done ms) = done (
    record {
      body = body;
      delivery_count = count_or_one raw.delivery_count;
      handle = raw.lock_token;
      receiver = receiver;
    }
    ∷ ms)

-- The loop over the messages.
abbrev pub to_messages : ℕ → List Raw → Attempt (List AzureMessage)
to_messages receiver [] = done []
to_messages receiver (raw ∷ raws) = to_message receiver raw raw.body (to_messages receiver raws)

abbrev pub messages_of : ℕ → Attempt (List Raw) → Attempt (List AzureMessage)
messages_of receiver (done raws) = to_messages receiver raws
messages_of receiver (raised text) = raised text

module _ {S : Type 0} (sdk : Sdk S) (q : AzureServiceBusQueue) where
  -- `publish`: both `with` blocks close what they opened, also when the call raises.
  unfoldable pub publish : Dict → S → Attempt (Unit {0}) × S
  publish body s =
      let (client, s1) = sdk.open_client q.connection_string s in
      let (sender, s2) = sdk.open_sender client q.queue_name s1 in
      let (result, s3) = sdk.send_messages sender body s2 in
      (result, sdk.close_client client (sdk.close_sender sender s3))

  -- `receive`: the messages are built inside the two `with` blocks, and returned out of them. The
  -- visibility timeout is not used.
  unfoldable pub receive : ℕ → ℕ → S → Attempt (List AzureMessage) × S
  receive max_messages visibility_timeout s =
      let (client, s1) = sdk.open_client q.connection_string s in
      let (receiver, s2) = sdk.open_receiver client q.queue_name s1 in
      let (received, s3) = sdk.receive_messages receiver max_messages s2 in
      (messages_of receiver received, sdk.close_client client (sdk.close_receiver receiver s3))

  unfoldable pub complete : AzureMessage → S → Attempt (Unit {0}) × S
  complete message s = sdk.complete_message message.receiver message.handle s

  unfoldable pub abandon : AzureMessage → S → Attempt (Unit {0}) × S
  abandon message s = sdk.abandon_message message.receiver message.handle s

  -- `reason or "explicit"`
  unfoldable pub dead_letter : AzureMessage → String → S → Attempt (Unit {0}) × S
  dead_letter message reason s =
      sdk.dead_letter_message message.receiver message.handle
        (if truthy reason then reason else "explicit") reason s
