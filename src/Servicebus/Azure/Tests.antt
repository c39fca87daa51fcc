-- ===== src/Servicebus/Azure/Tests.antt =====
-- A library with one message, for packages/servicebus/azure_bus.py.
use nervora.Base.{
  ℕ, Bool, true, false, ◌||◌, List, [], ◌∷◌, All, ◌≡◌, refl, arith, none, nat_eq, nat_eq_iff,
  if◌then◌else◌,
}
use nervora.Json.{end}
use nervora.Servicebus.Interface.{Attempt, done, raised}
use nervora.Servicebus.Azure.{Sdk, AzureServiceBusQueue, receive}
use nervora.Servicebus.Azure.Settlement.{receive-IsStuck, IsStuck, returned}

-- The receivers that were closed.
abbrev holds : List ℕ → ℕ → Bool
holds [] n = false
holds (m ∷ ms) n = nat_eq m n || holds ms n

abbrev settle : ℕ → List ℕ → Attempt (Unit {0}) × List ℕ
settle receiver closed =
    (if holds closed receiver then raised "The handler has been shut down." else done tt, closed)

abbrev sdk : Sdk (List ℕ)
sdk = record {
  open_client = λ connection s. (0, s);
  close_client = λ client s. s;
  open_sender = λ client queue s. (0, s);
  close_sender = λ sender s. s;
  send_messages = λ sender body s. (done tt, s);
  open_receiver = λ client queue s. (7, s);
  close_receiver = λ receiver s. receiver ∷ s;
  receive_messages = λ receiver n s.
      (done (record { body = done end; delivery_count = none; lock_token = 4 } ∷ []), s);
  complete_message = λ receiver token s. settle receiver s;
  abandon_message = λ receiver token s. settle receiver s;
  dead_letter_message = λ receiver token reason description s. settle receiver s;
}

abbrev queue : AzureServiceBusQueue
queue = record { connection_string = "sb://"; queue_name = "tool-jobs" }

abbrev IsClosed : ℕ → List ℕ → Type 0
IsClosed receiver s = holds s receiver ≡ true

closes : (receiver : ℕ) (s : List ℕ) → IsClosed receiver (receiver ∷ s)
closes receiver s = ground (arith, nat_eq_iff receiver receiver)

refuses :
    (receiver : ℕ) (s : List ℕ)
    → IsClosed receiver s
    → settle receiver s ≡ (raised "The handler has been shut down.", s)
refuses receiver s closed = rw closed refl

one_message :
    (receive sdk queue 1 30 []).0
    ≡ done (record { body = end; delivery_count = 1; handle = 4; receiver = 7 } ∷ [])
unfolding receive
one_message = refl

receive-IsStuck_example :
    All
      (IsStuck sdk queue IsClosed "The handler has been shut down." closes
        (λ r c s h. h)
        (λ r t s h. refuses r s h)
        (λ r t s h. refuses r s h)
        (λ r t a b s h. refuses r s h)
        (receive sdk queue 1 30 []).1)
      (returned (receive sdk queue 1 30 []).0)
receive-IsStuck_example =
    receive-IsStuck sdk queue IsClosed "The handler has been shut down." closes (λ r c s h. h)
      (λ r t s h. refuses r s h) (λ r t s h. refuses r s h) (λ r t a b s h. refuses r s h) 1 30 []
