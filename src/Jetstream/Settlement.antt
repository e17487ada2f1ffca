-- ===== src/Jetstream/Settlement.antt =====
-- When a worker acknowledges a delivery, and that it always reaches a decision.
use go_service_template_rest.Base.{
  ◌≡◌, Bool, true, false, ◌||◌, ◌&&◌, List, [], ◌∷◌, Option, none, some,
}
use go_service_template_rest.Base.GoError.{Err}
use go_service_template_rest.Jetstream.Wire.{Message}
use go_service_template_rest.Jetstream.Worker.{
  Effect, invoked, acked, nak, published, record_handler, record_transfer, log_terminal, Outcome,
  returned, panicked, Env, End, done, stopped, crashed, Run,
}

abbrev pub succeeded : Outcome → Bool
succeeded (returned none) = true
succeeded (returned (some e)) = false
succeeded panicked = false

-- Watches the effects: an acknowledgement is in order once the handler has succeeded or the broker
-- has accepted the transfer.
unfoldable pub acks_in_order : (Message → Outcome) → Bool → List Effect → Bool
acks_in_order handler safe [] = true
acks_in_order handler safe (invoked m ∷ effects) =
    acks_in_order handler (safe || succeeded (handler m)) effects
acks_in_order handler safe (acked confirmed ∷ effects) = safe && acks_in_order handler safe effects
acks_in_order handler safe (nak delay e ∷ effects) = acks_in_order handler safe effects
acks_in_order handler safe (published m id none ∷ effects) = acks_in_order handler true effects
acks_in_order handler safe (published m id (some e) ∷ effects) = acks_in_order handler safe effects
acks_in_order handler safe (record_handler outcome reason ∷ effects) =
    acks_in_order handler safe effects
acks_in_order handler safe (record_transfer outcome ∷ effects) = acks_in_order handler safe effects
acks_in_order handler safe (log_terminal reason ∷ effects) = acks_in_order handler safe effects

-- The worker itself panicked.
abbrev pub is_crash : End → Bool
is_crash done = false
is_crash (stopped e) = false
is_crash crashed = true

abbrev publication : Option Err → Bool
publication none = true
publication (some e) = false

module _ (env : Env) where
  -- The effects are in order behind what was safe before, and the worker does not panic.
  abbrev pub IsSound : Bool → Run → Type 0
  IsSound safe r = (acks_in_order env.handler safe r.0 ≡ true) × (is_crash r.1 ≡ false)
