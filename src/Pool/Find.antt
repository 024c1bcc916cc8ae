-- ===== src/Pool/Find.antt =====
-- `OrderPool::find`: an id is found exactly if it is the id of a live slot.
use low_latency_orderbook.Prelude.{ℕ, ◌≤◌, ◌≡◌, inl, inr, false, Bool-cases, some, List, arith, has}
use low_latency_orderbook.Pool.{OrderPool, make_order_id, find, index_of}
use low_latency_orderbook.Pool.Ids.{make_order_id-fields}
use low_latency_orderbook.Pool.Valid.{IsValid, IsLive}

-- What `find` returns is the index of a live slot with the id asked for.
pub find_sound :
    (p : OrderPool) (id j : ℕ)
    → find p id ≡ some j
    → (j ≡ index_of id) × IsLive p j × ((p.slots j).order_id ≡ id)
unfolding find
find_sound p id j h = ground arith

module _ (p : OrderPool) {fs : List ℕ} (v : IsValid p fs) (j : ℕ) (live : IsLive p j) where
  pub not_free : has j fs ≡ false
  not_free = elim (Bool-cases (has j fs)) [
    | inl e ↦ absurd (live.1 (rw e at (v.slot j live.0)))
    | inr e ↦ e
  ]

  -- A live slot's id is that of its index and generation.
  pub live_id :
      ((p.slots j).order_id ≡ make_order_id (p.slots j).generation j) × (1 ≤ (p.slots j).generation)
  live_id = rw not_free at (v.slot j live.0)

  pub index_of-live : index_of (p.slots j).order_id ≡ j
  index_of-live =
      rw live_id.0
        (make_order_id-fields (p.slots j).generation j (v.generation j)
          (omega (arith, v.small, live.0))).0

  -- A live slot is found by its id.
  pub find_complete : find p (p.slots j).order_id ≡ some j
  unfolding find
  find_complete = ground (arith, index_of-live, live.0, live.1)
