-- ===== src/Lib.antt =====
-- A model of the parachain in this repository: two pallets through which clients order from
-- devices and pay for what is done, on one parachain or across two, with the types that they
-- share, a pallet with one stored number, the runtime that they make up, and the decisions of its
-- node.
--
-- How the parts interact. A device registers with a penalty and the time that it needs. A client
-- orders from it: the fee is reserved on the client's account and the penalty on the device's.
-- The service pallet lets the device accept, reject or complete the order; the client may cancel
-- it after its deadline. Where client and device are on two parachains, the exchange pallet of the
-- client's parachain holds both reserves and sends `XcmpMessage::NewOrder`; the service pallet of
-- the other one holds none, and answers with `OrderAccept`, `OrderReject` and `OrderDone`.
-- The runtime has both pallets, on the same balances; it hands messages of other parachains to
-- the XCMP queue of the libraries, and no pallet of the repository is told of them.
--
-- Files, and what they model:
--   Common                pallets/common/src/lib.rs: `DeviceState`, `OrderBase`, `Order`,
--                         `XcmpMessage`, the conversions
--   Frame                 what the pallets use of FRAME and XCM, a parameter of every definition:
--                         `ReservableCurrency` with its documented behaviour, `ensure_signed`, the
--                         codec of the messages, `SendXcm`
--   Pallet                the storage of both pallets (`Device`, `Orders`) beside the clock, the
--                         balances, the queues and the events, and the actions of their calls
--   Xchange, Xchange/     pallets/xchange/src/lib.rs: `test`, `order`, `cancel`, `register`,
--                         `on_accept`, `on_reject`, `on_done`, `order_reject`,
--                         `on_killed_account`, `handle_xcmp_messages`
--   Service, Service/     pallets/xchange-service/src/lib.rs: `order`, `cancel`, `accept`, `done`,
--                         `register`, `set_state`, `order_received` (as `check_order`,
--                         `reserve_order` and `book_order`), `order_accept`, `order_reject`,
--                         `order_done`, `on_killed_account`, `handle_xcmp_messages`
--   Network, Network/     both pallets joined, if each decodes what the other encodes: one order
--                         (Network, Declining), and two parachains in any interleaving of their
--                         steps (Protocol), with where requests and answers come from (Requests,
--                         Answers), how an open order ends (Ending, Outcome) and how many
--                         deliveries there can be (Relay, Taking, Draining)
--   Outbox                what waits in the queues of a router for other parachains
--   Template              pallets/template/src/lib.rs: `do_something`, `cause_error`
--   Runtime, Runtime/     runtime/src/lib.rs: `WeightToFee`, the units, `AcceptOnReceive`; the
--                         constants (Constants), the indices of `construct_runtime!` (Pallets),
--                         `Barrier` (Xcm), `XcmRouter` (Routing), the origins of incoming XCM
--                         (Origins), `CheckInherents` (Inherents), `impl_runtime_apis!` (Apis), the
--                         benchmarks (Benchmarks); the three pallets composed: their storage
--                         (State), configurations and calls (Dispatch), message handler and hooks
--                         (Handlers), and what happens to them (Histories); the
--                         configurations of FRAME's pallets and of the XCM executor (Wiring) and
--                         how they share out a block's weight (Weights)
--   Node, Node/           node/src/chain_spec.rs (ChainSpec), node/src/cli.rs (Cli) and
--                         node/src/command.rs (Cli, Cli/Relay, Command, Command/Substrate, and Run
--                         with every subcommand of `run`); node/src/service.rs (Service with
--                         `new_partial` and `start_node_impl`, Service/Aura with the import queue
--                         and `start_parachain_node`), node/src/rpc.rs (Rpc)
--   Service/Lifecycle     an abstract machine for the life of a device, which the service pallet
--                         refines (Service/Refinement, Service/Simulation)
--   Base, Money, Owed     shared names, storage maps, dispatches, the moves of fee and penalty, and
--                         what open orders oblige the accounts to
--   Bank                  a ledger, a codec and a router to run the pallets with; the modules
--                         named Tests use it
--
-- How code corresponds to definitions. A call is a function from the storage to a result and the
-- storage after it, which comes back after an `Err` too: no call is `#[transactional]`, so what was
-- written stays. `?`, `ok_or` and `ensure!` are `try`, `or_raise` and `raise_if`. A storage map is an
-- association list, accounts are numbers. The results of `unreserve` are dropped, as in the code.
-- The start of a node is a dispatch too, on a log of the libraries' calls, the last one first.
--
-- Bounds. Moments are `u64` and `now + wcd` wraps, as in a release build; the stored number of the
-- template pallet is a `u32` with `checked_add`. Balances are numbers without a bound, since the
-- currency alone computes with them. Every function of the code is structurally recursive. Only the
-- search for deliveries that empty two queues takes fuel (`drain` of Network/Draining), and starts
-- with the traffic that waits, which each delivery lessens.
--
-- Assumptions on two parachains. They encode messages in one way, the router takes a message or
-- refuses it, a packet is delivered as the call that its `Transact` holds, and nobody sends in the
-- name of another parachain. Delivery may be late, in any order, repeated, or fail.
--
-- Not modelled: weights and fees of the calls; log output; the SCALE encoding, which is a parameter;
-- the associated types of the runtime's configurations that only name a type of the libraries, like
-- hashes or the weights of calls; what the libraries do when the node or the runtime calls them,
-- also in the last call of a subcommand; scripts and generated chain specifications.
pub mod Base
pub mod Common
pub mod Frame
pub mod Money
pub mod Owed
pub mod Pallet
pub mod Xchange
pub mod Service
pub mod Template
pub mod Runtime
pub mod Node
pub mod Bank
pub mod Network
pub mod Outbox
