-- ===== src/Book/Uncrossed.antt =====
-- `OrderBook::uncrossed`, and what a sweep that ended says of the prices that are left.
use low_latency_orderbook.Prelude.{
  ℕ, ℤ, ltb_ℤ, ◌≤◌, ◌≡◌, sym, ◌∙◌, Bool, true, false, ◌||◌, Bool-cases, ◌⊎◌, inl, inr, List, arith,
}
use mathlib.Core.Bool.{false≢true}
use low_latency_orderbook.Types.{Side, buy, sell, opposite}
use low_latency_orderbook.Pool.{Link}
use low_latency_orderbook.Map.{before, is_nil}
use low_latency_orderbook.Ladder.{PriceLadder, is_side_empty, best_price}
use low_latency_orderbook.Ladder.Best.{is_side_empty-nil}
use low_latency_orderbook.Ladder.Holds.{IsBest}
use low_latency_orderbook.Book.{OrderBook, ladder, stops, crosses}
use low_latency_orderbook.Book.Valid.{Sides, IsValid}
use low_latency_orderbook.Book.Maker.{maker}

unfoldable pub uncrossed : OrderBook → Bool
uncrossed b =
    is_side_empty b.bids || is_side_empty b.asks || ltb_ℤ (best_price b.bids) (best_price b.asks)

-- every bid is below every ask
abbrev pub IsUncrossed : Sides → Type 0
IsUncrossed c =
    (p q : ℤ) → is_nil (c buy p) ≡ false → is_nil (c sell q) ≡ false → before sell p q ≡ true

stopped :
    (ld : PriceLadder) (side : Side) (limit_price : ℤ) (remaining : ℕ)
    → stops ld side limit_price remaining ≡ true
    → (remaining ≡ 0)
      ⊎ (is_side_empty ld ≡ true)
      ⊎ (crosses side limit_price (best_price ld) ≡ false)
unfolding stops
stopped ld side limit_price remaining e = ground arith

-- A price that does not cross the best one does not cross any that is not better.
clear_of_best :
    (side : Side) (limit_price best q : ℤ)
    → crosses side limit_price best ≡ false
    → before (opposite side) q best ≡ false
    → before (opposite side) limit_price q ≡ true
unfolding crosses
clear_of_best buy limit_price best q e f = ground arith
clear_of_best sell limit_price best q e f = ground arith

between :
    (p a b q : ℤ)
    → before buy p a ≡ false
    → before sell a b ≡ true
    → before sell q b ≡ false
    → before sell p q ≡ true
between p a b q e f g = ground arith

module _ {b : OrderBook} {c : Sides} {bs : Side → List ℕ} {fs : List ℕ} {flight : Link}
    (v : IsValid b c bs fs flight) where
  not_empty :
      (side : Side) (q : ℤ) → is_nil (c side q) ≡ false → is_side_empty (ladder b side) ≡ false
  not_empty side q ne = elim (Bool-cases (is_side_empty (ladder b side))) [
    | inl e ↦ absurd (false≢true (sym ne ∙ is_side_empty-nil (v.sides side) e q))
    | inr e ↦ e
  ]

  pub IsBest-of :
      (side : Side)
      → is_side_empty (ladder b side) ≡ false
      → IsBest side (c side) (best_price (ladder b side))
  IsBest-of side e = (maker v side e).best

  -- After a sweep that left some quantity, its limit is short of every opposite order.
  pub clear_of :
      (side : Side) (limit_price : ℤ) (remaining : ℕ)
      → 1 ≤ remaining
      → stops (ladder b (opposite side)) side limit_price remaining ≡ true
      → (q : ℤ) → is_nil (c (opposite side) q) ≡ false
      → before (opposite side) limit_price q ≡ true
  clear_of side limit_price remaining more e q ne =
      elim (stopped (ladder b (opposite side)) side limit_price remaining e) [
        | inl none_left ↦ absurd (omega arith)
        | inr (inl none_there) ↦
            absurd (false≢true (sym (not_empty (opposite side) q ne) ∙ none_there))
        | inr (inr short) ↦
            clear_of_best side limit_price (best_price (ladder b (opposite side))) q short
              ((IsBest-of (opposite side) (not_empty (opposite side) q ne)).no_better q ne)
      ]

  -- On a valid book, if `uncrossed` holds then every bid is below every ask.
  pub uncrossed_sound : uncrossed b ≡ true → IsUncrossed c
  unfolding uncrossed
  uncrossed_sound e p q ne ne' =
      let bids_there : is_side_empty b.bids ≡ false = not_empty buy p ne in
      let asks_there : is_side_empty b.asks ≡ false = not_empty sell q ne' in
      between p (best_price b.bids) (best_price b.asks) q
        ((IsBest-of buy bids_there).no_better p ne) (ground arith)
        ((IsBest-of sell asks_there).no_better q ne')

  -- On a valid book with every bid below every ask `uncrossed` holds.
  pub uncrossed_complete : IsUncrossed c → uncrossed b ≡ true
  unfolding uncrossed
  uncrossed_complete u = elim (Bool-cases (is_side_empty b.bids)) [
    | inl e ↦ ground arith
    | inr bids_there ↦ elim (Bool-cases (is_side_empty b.asks)) [
      | inl e ↦ ground arith
      | inr asks_there ↦
          let below =
            u (best_price b.bids) (best_price b.asks) (IsBest-of buy bids_there).occupied
              (IsBest-of sell asks_there).occupied in
          ground arith
    ]
  ]
