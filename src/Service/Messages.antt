-- ===== src/Service/Messages.antt =====
-- Batches of messages from other parachains (pallets/xchange-service/src/lib.rs,
-- `handle_xcmp_messages`).
use xcm_auto_bank.Base.{ℕ, ⊤, inl, inr, ◌≡◌, refl, Option, none, some, List, [], ◌∷◌, ◌++◌}
use xcm_auto_bank.Base.Member.{IsIn}
use xcm_auto_bank.Common.{Order, OrderBase, XcmpMessage}
use xcm_auto_bank.Service.{ServiceConfig, Store, received, order_received, handle_xcmp_messages}

module _ {L Q F O P : Type 0} (T : ServiceConfig L Q F O P) where
  -- What `order_received` keeps for each request of a batch, the batch keeps.
  pub handle_xcmp_messages_from {ℓ} :
      (R : Store L Q P → Type ℓ) (batch : List (ℕ × ℕ × List ℕ)) (max_weight : ℕ) (s : Store L Q P)
      → ((sender sent_at : ℕ) (bytes : List ℕ) (client : ℕ) (o : OrderBase P)
          → IsIn (sender, sent_at, bytes) batch
          → T.decode bytes ≡ some (XcmpMessage.new_order client o)
          → (t : Store L Q P) → R t
          → R (order_received T (received o client sender) o.device t).1)
      → R s
      → R (handle_xcmp_messages T batch max_weight s).1
  unfolding handle_xcmp_messages
  handle_xcmp_messages_from R [] max_weight s keep h = h
  handle_xcmp_messages_from R ((sender, sent_at, bytes) ∷ rest) max_weight s keep h =
      decoded
        (λ t.
          handle_xcmp_messages_from R rest max_weight t
            λ p a bs client o i. keep p a bs client o (inr i))
        (T.decode bytes) refl
    where
      decoded :
          ((t : Store L Q P) → R t → R (handle_xcmp_messages T rest max_weight t).1)
          → (r : Option (XcmpMessage P)) → T.decode bytes ≡ r
          → R (handle_xcmp_messages T ((sender, sent_at, bytes) ∷ rest) max_weight s).1
      decoded later (some (XcmpMessage.new_order client o)) e =
          rw (e, handle_xcmp_messages)
            (later _ (keep sender sent_at bytes client o (inl refl) e s h))
      decoded later none e = rw (e, handle_xcmp_messages) h
      decoded later (some (XcmpMessage.order_accept _ _)) e = rw (e, handle_xcmp_messages) h
      decoded later (some (XcmpMessage.order_reject _ _ _)) e = rw (e, handle_xcmp_messages) h
      decoded later (some (XcmpMessage.order_done _ _ _)) e = rw (e, handle_xcmp_messages) h

  -- What `order_received` keeps, a batch keeps.
  pub handle_xcmp_messages_inv {ℓ} :
      (R : Store L Q P → Type ℓ)
      → ((o : Order P) (device : ℕ) (s : Store L Q P) → R s → R (order_received T o device s).1)
      → (batch : List (ℕ × ℕ × List ℕ)) (max_weight : ℕ) (s : Store L Q P) → R s
      → R (handle_xcmp_messages T batch max_weight s).1
  handle_xcmp_messages_inv R keep batch max_weight s =
      handle_xcmp_messages_from R batch max_weight s
        λ sender sent_at bytes client o i e t. keep (received o client sender) o.device t

  -- The requests of a batch, each with the parachain that sent it and its client.
  abbrev pub Requests : List (ℕ × ℕ × List ℕ) → List (ℕ × ℕ × OrderBase P) → Type 0
  Requests [] [] = ⊤
  Requests ((sender, sent_at, bytes) ∷ rest) ((para, client, o) ∷ reqs) =
      (T.decode bytes ≡ some (XcmpMessage.new_order client o))
      × (para ≡ sender)
      × Requests rest reqs
  Requests _ _ = ⊥

  -- The requests received one after the other; what each one returns is dropped.
  abbrev pub receive_all : List (ℕ × ℕ × OrderBase P) → Store L Q P → Store L Q P
  receive_all [] s = s
  receive_all ((para, client, o) ∷ reqs) s =
      receive_all reqs (order_received T (received o client para) o.device s).1

  -- Bytes that are no request: malformed ones, and the three answers.
  abbrev pub IsNoRequest : Option (XcmpMessage P) → Type 0
  IsNoRequest (some (XcmpMessage.new_order _ _)) = ⊥
  IsNoRequest _ = ⊤

  no_request :
      (r : Option (XcmpMessage P)) (sender sent_at : ℕ) (bytes : List ℕ)
      (rest : List (ℕ × ℕ × List ℕ)) (max_weight : ℕ) (s : Store L Q P)
      → T.decode bytes ≡ r
      → IsNoRequest r
      → handle_xcmp_messages T ((sender, sent_at, bytes) ∷ rest) max_weight s ≡ (0, s)
  unfolding handle_xcmp_messages
  no_request none sender sent_at bytes rest max_weight s e h = rw (e, handle_xcmp_messages)
  no_request (some (XcmpMessage.new_order _ _)) sender sent_at bytes rest max_weight s e h =
      absurd h
  no_request (some (XcmpMessage.order_accept _ _)) sender sent_at bytes rest max_weight s e h =
      rw (e, handle_xcmp_messages)
  no_request (some (XcmpMessage.order_reject _ _ _)) sender sent_at bytes rest max_weight s e h =
      rw (e, handle_xcmp_messages)
  no_request (some (XcmpMessage.order_done _ _ _)) sender sent_at bytes rest max_weight s e h =
      rw (e, handle_xcmp_messages)

  -- What may follow requests in a batch, and the weight that is then reported: nothing, or a
  -- message that is no request.
  abbrev pub Ends : List (ℕ × ℕ × List ℕ) → ℕ → ℕ → Type 0
  Ends [] max_weight used = used ≡ max_weight
  Ends ((sender, sent_at, bytes) ∷ _) max_weight used = IsNoRequest (T.decode bytes) × (used ≡ 0)

  -- Requests are received in their order, each as an order of the parachain that sent it, whether
  -- the ones before succeeded or not. If nothing follows them, all of the weight is used; the first
  -- message that is no request ends the batch, also if it is well formed: what follows it is
  -- dropped unread, and no weight is reported.
  pub handle-Requests :
      (batch rest : List (ℕ × ℕ × List ℕ)) (reqs : List (ℕ × ℕ × OrderBase P)) (max_weight used : ℕ)
      (s : Store L Q P)
      → Requests batch reqs
      → Ends rest max_weight used
      → handle_xcmp_messages T (batch ++ rest) max_weight s ≡ (used, receive_all reqs s)
  unfolding handle_xcmp_messages
  handle-Requests [] [] [] max_weight used s h e = rw (← e) refl
  handle-Requests [] ((sender, sent_at, bytes) ∷ rest) [] max_weight used s h e =
      rw e.1 (no_request (T.decode bytes) sender sent_at bytes rest max_weight s refl e.0)
  handle-Requests [] rest (m ∷ ms) max_weight used s h e = absurd h
  handle-Requests (b ∷ batch) rest [] max_weight used s h e = absurd h
  handle-Requests ((p, t, bs) ∷ batch) rest ((para, client, o) ∷ reqs) max_weight used s h e =
      rw (h.0, handle_xcmp_messages)
        (rw h.1 (handle-Requests batch rest reqs max_weight used _ h.2 e))
