-- ===== src/Servicebus/Azure/Settlement.antt =====
-- What becomes of a message that packages/servicebus/azure_bus.py has received.
use nervora.Base.{ℕ, String, List, [], ◌∷◌, All, ◌≡◌}
use nervora.Json.{Dict}
use nervora.Servicebus.Interface.{Attempt, done, raised}
use nervora.Servicebus.Azure.{
  Raw, Sdk, AzureServiceBusQueue, AzureMessage, to_message, to_messages, messages_of, receive,
  complete, abandon, dead_letter,
}

-- The messages of a call that did not raise.
abbrev pub returned : Attempt (List AzureMessage) → List AzureMessage
returned (done ms) = ms
returned (raised text) = []

module _ {S : Type 0} (sdk : Sdk S) (q : AzureServiceBusQueue) (IsClosed : ℕ → S → Type 0)
    (shut_down : String)
    (closes : (receiver : ℕ) (s : S) → IsClosed receiver (sdk.close_receiver receiver s))
    (stays : (receiver client : ℕ) (s : S)
      → IsClosed receiver s
      → IsClosed receiver (sdk.close_client client s))
    (refuses_complete : (receiver token : ℕ) (s : S)
      → IsClosed receiver s
      → sdk.complete_message receiver token s ≡ (raised shut_down, s))
    (refuses_abandon : (receiver token : ℕ) (s : S)
      → IsClosed receiver s
      → sdk.abandon_message receiver token s ≡ (raised shut_down, s))
    (refuses_dead_letter : (receiver token : ℕ) (reason description : String) (s : S)
      → IsClosed receiver s
      → sdk.dead_letter_message receiver token reason description s ≡ (raised shut_down, s)) where
  -- No call settles the message.
  abbrev pub IsStuck : S → AzureMessage → Type 0
  IsStuck s m =
      (complete sdk q m s ≡ (raised shut_down, s))
      × (abandon sdk q m s ≡ (raised shut_down, s))
      × ((reason : String) → dead_letter sdk q m reason s ≡ (raised shut_down, s))

  to_message-IsStuck :
      (receiver : ℕ) (s : S) (raw : Raw) (body : Attempt Dict) (rest : Attempt (List AzureMessage))
      → IsClosed receiver s
      → All (IsStuck s) (returned rest)
      → All (IsStuck s) (returned (to_message receiver raw body rest))
  unfolding complete abandon dead_letter
  to_message-IsStuck receiver s raw (raised text) rest closed stuck = tt
  to_message-IsStuck receiver s raw (done body) (raised text) closed stuck = tt
  to_message-IsStuck receiver s raw (done body) (done ms) closed stuck = (
    (
      refuses_complete receiver raw.lock_token s closed,
      refuses_abandon receiver raw.lock_token s closed,
      λ reason. refuses_dead_letter receiver raw.lock_token _ reason s closed,
    ),
    stuck,
  )

  to_messages-IsStuck :
      (receiver : ℕ) (s : S) (raws : List Raw)
      → IsClosed receiver s
      → All (IsStuck s) (returned (to_messages receiver raws))
  to_messages-IsStuck receiver s [] closed = tt
  to_messages-IsStuck receiver s (raw ∷ raws) closed =
      to_message-IsStuck receiver s raw raw.body (to_messages receiver raws) closed
        (to_messages-IsStuck receiver s raws closed)

  messages_of-IsStuck :
      (receiver : ℕ) (s : S) (received : Attempt (List Raw))
      → IsClosed receiver s
      → All (IsStuck s) (returned (messages_of receiver received))
  messages_of-IsStuck receiver s (done raws) closed = to_messages-IsStuck receiver s raws closed
  messages_of-IsStuck receiver s (raised text) closed = tt

  -- Every message that `receive` returns comes from a receiver that `receive` has closed. If the
  -- library keeps a closed receiver closed when its client is closed, and refuses to settle on a
  -- closed receiver, then to complete, to abandon or to dead-letter any of the returned messages
  -- raises and changes nothing.
  pub receive-IsStuck :
      (n timeout : ℕ) (s : S)
      → All (IsStuck (receive sdk q n timeout s).1) (returned (receive sdk q n timeout s).0)
  unfolding receive
  receive-IsStuck n timeout s =
      let (client, s1) = sdk.open_client q.connection_string s in
      let (receiver, s2) = sdk.open_receiver client q.queue_name s1 in
      let (received, s3) = sdk.receive_messages receiver n s2 in
      messages_of-IsStuck receiver (sdk.close_client client (sdk.close_receiver receiver s3))
        received (stays receiver client (sdk.close_receiver receiver s3) (closes receiver s3))
