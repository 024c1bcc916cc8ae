-- ===== src/Ladder/Advance.antt =====
-- `AdvanceBest`: from an emptied best level the cursor goes to the best of the worse levels.
use low_latency_orderbook.Prelude.{ℕ, suc, ◌-◌, ◌<◌, ◌≡◌, true, false, none, some, arith}
use low_latency_orderbook.Types.{Side, buy, sell}
use low_latency_orderbook.Pool.{Link}
use low_latency_orderbook.Level.{PriceLevel, is_empty}
use low_latency_orderbook.Ladder.{is_better, scan_down, scan_up, advance_best}
use low_latency_orderbook.Ladder.Scan.{Found, scan_down-Found, scan_up-Found}

-- What `advance_best` finds among the levels that are worse than `off`.
abbrev pub Advanced : Side → (ℕ → PriceLevel) → ℕ → ℕ → Link → Type 0
Advanced side levels size off none =
    (o : ℕ) → o < size → is_better side off o ≡ true → is_empty (levels o) ≡ true
Advanced side levels size off (some b) =
    (b < size)
    × (is_empty (levels b) ≡ false)
    × ((o : ℕ)
        → o < size
        → is_better side off o ≡ true
        → is_better side o b ≡ true
        → is_empty (levels o) ≡ true)

down-Advanced :
    (levels : ℕ → PriceLevel) (size off : ℕ) (l : Link)
    → off < size
    → Found levels 0 off (λ o b. b < o) l
    → Advanced buy levels size off l
unfolding is_better
down-Advanced levels size off none h f = λ o k w. f o (omega arith) (ground arith)
down-Advanced levels size off (some b) h f =
    (omega (arith, f.1), f.2, λ o k w w'. f.3 o (omega arith) (ground arith) (ground arith))

up-Advanced :
    (levels : ℕ → PriceLevel) (size off : ℕ) (l : Link)
    → Found levels (suc off) size (λ o b. o < b) l
    → Advanced sell levels size off l
unfolding is_better
up-Advanced levels size off none f = λ o k w. f o (ground arith) k
up-Advanced levels size off (some b) f =
    (f.1, f.2, λ o k w w'. f.3 o (ground arith) k (ground arith))

-- `AdvanceBest` from an offset of the array gives the nearest offset beyond it, away from the best
-- price, whose level is occupied, and nothing if no level beyond it is.
pub advance_best-Advanced :
    (side : Side) (levels : ℕ → PriceLevel) (size off : ℕ)
    → off < size
    → Advanced side levels size off (advance_best side levels size off)
unfolding advance_best
advance_best-Advanced buy levels size off h =
    down-Advanced levels size off (scan_down levels off) h (scan_down-Found levels off)
advance_best-Advanced sell levels size off h =
    up-Advanced levels size off (scan_up levels (suc off) (size - suc off))
      (scan_up-Found levels (suc off) (size - suc off) size (omega arith))
