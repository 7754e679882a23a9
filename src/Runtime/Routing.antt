-- ===== src/Runtime/Routing.antt =====
-- How XCM leaves the parachain (runtime/src/lib.rs, `XcmRouter`).
use xcm_auto_bank.Base.{ℕ, ◌≡◌, Bool, true, false, List}
use xcm_auto_bank.Frame.{MultiLocation, parachain, Transact}

-- What `SendXcm::send_xcm` returns: `Ok`, `CannotReachDestination`, or another error.
pub data Delivery : Type 0 where
  delivered unreachable failed : Delivery

abbrev pub Router : Type 0 → Type 0
Router Q = Q → MultiLocation → List Transact → Delivery × Q

-- The routers of the libraries, and the router that a pair of routers is.
pub record Routers (Q : Type 0) : Type 0 where
  pub parent_as_ump : Router Q
  pub xcmp_queue : Router Q
  pub pair : Router Q → Router Q → Router Q

-- What the libraries document: UMP reaches the relay chain alone, and a pair tries the second
-- router where the first cannot reach the destination.
pub record IsDocumented {Q : Type 0} (r : Routers Q) : Type 0 where
  pub ump_parent_only :
      (q : Q) (para : ℕ) (message : List Transact)
      → r.parent_as_ump q (record { parents = 1; interior = parachain para }) message
        ≡ (unreachable, q)
  pub pair_second :
      (a b : Router Q) (q q' : Q) (to : MultiLocation) (message : List Transact)
      → a q to message ≡ (unreachable, q')
      → r.pair a b q to message ≡ b q' to message

-- `XcmRouter`
unfoldable pub xcm_router : {Q : Type 0} → Routers Q → Router Q
xcm_router r = r.pair r.parent_as_ump r.xcmp_queue

abbrev is_delivered : Delivery → Bool
is_delivered delivered = true
is_delivered unreachable = false
is_delivered failed = false

-- The router as the pallets use it.
abbrev pub send_xcm : {Q : Type 0} → Routers Q → Q → MultiLocation → List Transact → Bool × Q
send_xcm r q to message = let (d, q') = xcm_router r q to message in (is_delivered d, q')

-- What is sent to a sibling parachain goes to the XCMP queue.
pub xcm_router-sibling :
    {Q : Type 0} (r : Routers Q) (q : Q) (para : ℕ) (message : List Transact)
    → IsDocumented r
    → let sibling : MultiLocation = record { parents = 1; interior = parachain para } in
      xcm_router r q sibling message ≡ r.xcmp_queue q sibling message
unfolding xcm_router
xcm_router-sibling r q para message doc =
    doc.pair_second r.parent_as_ump r.xcmp_queue q q
      (record { parents = 1; interior = parachain para }) message
      (doc.ump_parent_only q para message)
