-- ===== src/Xchange/Messages.antt =====
-- Batches of messages from other parachains (pallets/xchange/src/lib.rs, `handle_xcmp_messages`).
use xcm_auto_bank.Base.{
  ℕ, ⊤, ◌≡◌, refl, false, Bool, none, some, List, [], ◌∷◌, ◌++◌, map, arith, inl, inr, Option-cases,
  ◌==◌,
}
use xcm_auto_bank.Base.Action.{ok}
use xcm_auto_bank.Base.Map.{lookup, lookup-remove}
use xcm_auto_bank.Common.{Order, XcmpMessage}
use xcm_auto_bank.Frame.{Config, IsReservable}
use xcm_auto_bank.Money.{PenaltyMoves-reserved}
use xcm_auto_bank.Xchange.{
  DeviceProfile, Store, handle_xcmp_messages, on_message, on_done, on_reject,
}
use xcm_auto_bank.Xchange.Settlement.{on_done_ok-known, on_done-closed}

module _ {L Q F O P : Type 0} (T : Config L Q F O P) where
  -- The messages of a batch, if all of it can be decoded.
  abbrev pub Decodes : List (ℕ × ℕ × List ℕ) → List (XcmpMessage P) → Type 0
  Decodes [] [] = ⊤
  Decodes ((sender, sent_at, bytes) ∷ rest) (m ∷ ms) = (T.decode bytes ≡ some m) × Decodes rest ms
  Decodes _ _ = ⊥

  pub on_message-done :
      (client device : ℕ) (onoff : Bool) (s : Store L Q P)
      → on_message T (XcmpMessage.order_done client device onoff) s
        ≡ (on_done T client device onoff s).1
  unfolding on_message
  on_message-done client device onoff s = refl

  pub on_message-reject :
      (client device : ℕ) (onoff : Bool) (s : Store L Q P)
      → on_message T (XcmpMessage.order_reject client device onoff) s
        ≡ (on_reject T client device onoff s).1
  unfolding on_message
  on_message-reject client device onoff s = refl

  -- The messages handled one after the other.
  abbrev pub handle_all : List (XcmpMessage P) → Store L Q P → Store L Q P
  handle_all [] s = s
  handle_all (m ∷ ms) s = handle_all ms (on_message T m s)

  -- What may follow such messages in a batch, and the weight that is then reported: nothing, or a
  -- message that cannot be decoded.
  abbrev pub Ends : List (ℕ × ℕ × List ℕ) → ℕ → ℕ → Type 0
  Ends [] max_weight used = used ≡ max_weight
  Ends ((sender, sent_at, bytes) ∷ _) max_weight used = (T.decode bytes ≡ none) × (used ≡ 0)

  -- Messages that can be decoded are handled in their order. If nothing follows them, all of the
  -- weight is used; a message that cannot be decoded ends the batch: what follows it is dropped
  -- unread, and no weight is reported.
  pub handle_decoded :
      (batch rest : List (ℕ × ℕ × List ℕ)) (ms : List (XcmpMessage P)) (max_weight used : ℕ)
      (s : Store L Q P)
      → Decodes batch ms
      → Ends rest max_weight used
      → handle_xcmp_messages T (batch ++ rest) max_weight s ≡ (used, handle_all ms s)
  unfolding handle_xcmp_messages
  handle_decoded [] [] [] max_weight used s h e = rw (← e) refl
  handle_decoded [] ((sender, sent_at, bytes) ∷ rest) [] max_weight used s h e =
      rw (e.0, e.1, handle_xcmp_messages)
  handle_decoded [] rest (m ∷ ms) max_weight used s h e = absurd h
  handle_decoded (b ∷ batch) rest [] max_weight used s h e = absurd h
  handle_decoded ((sender, sent_at, bytes) ∷ batch) rest (m ∷ ms) max_weight used s h e =
      rw (h.0, handle_xcmp_messages)
        (handle_decoded batch rest ms max_weight used (on_message T m s) h.1 e)

  abbrev relabel : (ℕ → ℕ) → ℕ × ℕ × List ℕ → ℕ × ℕ × List ℕ
  relabel f (sender, sent_at, bytes) = (f sender, sent_at, bytes)

  -- The handler never looks at the sender: from any parachain the same batch of bytes does the
  -- same, so any sibling can settle the order on any device.
  handle_any_sender :
      (f : ℕ → ℕ) (batch : List (ℕ × ℕ × List ℕ)) (max_weight : ℕ) (s : Store L Q P)
      → handle_xcmp_messages T (map (relabel f) batch) max_weight s
        ≡ handle_xcmp_messages T batch max_weight s
  unfolding handle_xcmp_messages
  handle_any_sender f [] max_weight s = refl
  handle_any_sender f ((sender, sent_at, bytes) ∷ rest) max_weight s =
      elim (Option-cases (T.decode bytes)) [
        | inl e ↦ rw (e, handle_xcmp_messages)
        | inr (m, e) ↦
            rw (e, handle_xcmp_messages) (handle_any_sender f rest max_weight (on_message T m s))
      ]

  -- If the currency does as documented: `on_done` does not compare the account that the message
  -- names with the order's client. If it returns `Ok` for an account that is not the client, of a
  -- device that is not the client either, the order is gone, and the client's fee is still
  -- reserved.
  pub on_done_wrong_client :
      IsReservable T.currency
      → (s : Store L Q P) (o : Order P) (dev : DeviceProfile) (who device : ℕ) (onoff : Bool)
      → lookup device s.orders ≡ some o
      → lookup device s.devices ≡ some dev
      → (who == o.client) ≡ false
      → (device == o.client) ≡ false
      → (on_done T who device onoff s).0 ≡ ok tt
      → let s' = (on_done T who device onoff s).1 in
        (lookup device s'.orders ≡ none)
        × (T.currency.reserved_balance s'.ledger o.client
            ≡ T.currency.reserved_balance s.ledger o.client)
  on_done_wrong_client laws s o dev who device onoff k e other_account other_device ends =
      let (l₁, l₂, d) = on_done_ok-known T s who device onoff o dev k e ends in
      rw (on_done-closed T s who device onoff o dev l₁ l₂ d) (
        ground (arith, lookup-remove device device s.orders),
        ground (
          arith,
          laws.repatriate_reserved_reserved s.ledger l₁ who device o.fee o.client d.fee_paid,
          PenaltyMoves-reserved T.currency laws s.now o.until device who dev.penalty l₁ l₂
              d.penalty_moved o.client,
        ),
      )
