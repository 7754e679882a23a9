-- ===== src/Owed.antt =====
-- What the open orders of a pallet oblige the accounts to: the fees of the orders that they placed,
-- and the penalty of the order that they serve (pallets/xchange/src/lib.rs,
-- pallets/xchange-service/src/lib.rs).
use xcm_auto_bank.Base.{ℕ, ◌+◌, ◌≡◌, Bool, Option, none, some, arith, ◌==◌, if◌then◌else◌}
use xcm_auto_bank.Base.Map.{
  StorageMap, lookup, insert, remove, IsMap, remove-IsMap, lookup-insert, lookup-remove, total,
  total-insert_new, total-remove, total-congr,
}
use xcm_auto_bank.Common.{Order}

-- `penalty` is the penalty of a profile, and `counts` tells of an order whether its fee and its
-- penalty are reserved here.
module _ {D P : Type 0} (penalty : D → ℕ) (counts : Order P → Bool) where
  abbrev pub penalty_of : Option D → ℕ
  penalty_of none = 0
  penalty_of (some dev) = penalty dev

  -- What the order `o` on the device `d` obliges the account `a` to.
  abbrev pub share : StorageMap D → ℕ → ℕ → Order P → ℕ
  share devices a d o =
      if counts o
      then (if o.client == a then o.fee else 0)
        + (if d == a then penalty_of (lookup d devices) else 0)
      else 0

  abbrev pub owed : StorageMap D → StorageMap (Order P) → ℕ → ℕ
  owed devices orders a = total (share devices a) orders

  module _ (devices : StorageMap D) (orders : StorageMap (Order P)) (a d : ℕ)
      (m : IsMap orders) where
    -- A new profile for a device without an order changes no obligation.
    pub owed-insert_free :
        (dev : D)
        → lookup d orders ≡ none
        → owed (insert d dev devices) orders a ≡ owed devices orders a
    owed-insert_free dev e =
        total-congr (share (insert d dev devices) a) (share devices a) orders m same
      where
        same :
            (k : ℕ) (o : Order P)
            → lookup k orders ≡ some o
            → share (insert d dev devices) a k o ≡ share devices a k o
        same k o h = ground (arith, lookup-insert k d dev devices)

    -- Nor does a profile with the penalty that the device had.
    pub owed-insert_same :
        (dev : D)
        → penalty_of (lookup d devices) ≡ penalty dev
        → owed (insert d dev devices) orders a ≡ owed devices orders a
    owed-insert_same dev e =
        total-congr (share (insert d dev devices) a) (share devices a) orders m same
      where
        same :
            (k : ℕ) (o : Order P)
            → lookup k orders ≡ some o
            → share (insert d dev devices) a k o ≡ share devices a k o
        same k o h = ground (arith, lookup-insert k d dev devices)

    -- Nor does a device without an order that is forgotten.
    pub owed-remove_free :
        lookup d orders ≡ none → owed (remove d devices) orders a ≡ owed devices orders a
    owed-remove_free e = total-congr (share (remove d devices) a) (share devices a) orders m same
      where
        same :
            (k : ℕ) (o : Order P)
            → lookup k orders ≡ some o
            → share (remove d devices) a k o ≡ share devices a k o
        same k o h = ground (arith, lookup-remove k d devices)

  module _ (devices : StorageMap D) (orders : StorageMap (Order P)) (a d : ℕ) (m : IsMap orders)
      (dev : D) (o : Order P) where
    -- A new order adds its share.
    pub owed-booked :
        lookup d orders ≡ none
        → owed (insert d dev devices) (insert d o orders) a
          ≡ owed devices orders a + share (insert d dev devices) a d o
    owed-booked e = ground (
      arith,
      total-insert_new (share (insert d dev devices) a) d o orders e,
      owed-insert_free devices orders a d m dev e,
    )

    -- An order that ends takes its share away, whatever becomes of the profile.
    pub owed-closed :
        lookup d orders ≡ some o
        → owed (insert d dev devices) (remove d orders) a + share devices a d o
          ≡ owed devices orders a
    owed-closed e = ground (
      arith,
      total-remove (share devices a) d o orders m e,
      owed-insert_free devices (remove d orders) a d (remove-IsMap d orders m) dev,
      lookup-remove d d orders,
    )
