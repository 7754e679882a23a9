-- ===== src/Network/Tests/Relay.antt =====
-- The theorems on deliveries between two parachains at concrete queues.
use xcm_auto_bank.Bank.{chain, service_chain}
use xcm_auto_bank.Base.{ℕ, ◌+◌, ◌≤◌, refl, ap, [], ◌∷◌}
use xcm_auto_bank.Network.Draining.{IsIdle, comes_to_rest}
use xcm_auto_bank.Network.Relay.{Delivery, Deliveries, traffic, traffic_dies_out}
use xcm_auto_bank.Network.Tests.Protocol.{
  State, pending, outbox, placed, waits, asked, arrived, acceptance, arrived-serving,
}
use xcm_auto_bank.Xchange as Exchange

abbrev Delivers : ℕ → State → State → Type 0
Delivers n z y = Deliveries chain service_chain 8 pending pending n z y

abbrev waiting : State → ℕ
waiting z = traffic chain service_chain 8 pending pending z

-- The request is taken to the service pallet, and its answer back.
abbrev asked_for : State
asked_for = record arrived { exchange = record placed.exchange { queues = [] } }

abbrev answered : State
answered = record {
  exchange =
      (Exchange.handle_xcmp_messages chain ((7, 99, acceptance) ∷ []) 500 asked_for.exchange).1;
  service = record arrived.service { queues = [] };
}

two_deliveries : Delivers 2 placed answered
two_deliveries =
    Deliveries.then_on
      (Delivery.to_service asked 99 500 []
        (record { ahead = []; behind = []; was = waits; becomes = refl }))
      (Deliveries.then_on
        (Delivery.to_exchange acceptance 99 500 [] (record {
          ahead = [];
          behind = [];
          was = ap (λ u. u.queues) arrived-serving;
          becomes = refl;
        }))
        Deliveries.over)

traffic_dies_out_example : 2 + waiting answered ≤ waiting placed
traffic_dies_out_example =
    traffic_dies_out chain service_chain 8 pending pending outbox two_deliveries

comes_to_rest_example :
    (n : ℕ) × (y : State) × Delivers n placed y
    × IsIdle chain service_chain 8 pending pending y
    × (n + waiting y ≤ waiting placed)
comes_to_rest_example =
    comes_to_rest chain service_chain 8 pending pending outbox (λ l. (l, refl)) (λ l. (l, refl))
      placed
