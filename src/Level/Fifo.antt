-- ===== src/Level/Fifo.antt =====
-- What a level represents: a list of distinct slots, oldest first, linked both ways, with the count
-- and the open quantity of the level.
use low_latency_orderbook.Prelude.{
  ℕ, ◌+◌, ◌-◌, ◌*◌, ◌^◌, ◌≤◌, ◌<◌, ◌≡◌, refl, ap, true, none, List, [], ◌∷◌, ◌++◌, arith, has,
  Distinct, length, sym, ◌∙◌,
}
use low_latency_orderbook.Pool.{Order}
use low_latency_orderbook.Level.{Slots, PriceLevel, empty_level, is_empty}
use low_latency_orderbook.Map.{is_nil}
use low_latency_orderbook.Level.Seg.{Seg, Seg-frame, SameLinks}

-- the open quantity of the listed slots
unfoldable pub total : Slots → List ℕ → ℕ
total s [] = 0
total s (i ∷ is) = (s i).remaining + total s is

pub record IsFifo (level : PriceLevel) (s : Slots) (xs : List ℕ) : Type 0 where
  pub links : Seg s none level.head_idx xs level.tail_idx none
  pub distinct : Distinct xs
  pub count : level.order_count ≡ length xs
  pub qty : level.total_qty ≡ total s xs

-- every slot's open quantity is a 32-bit number
abbrev pub IsWide : Slots → Type 0
IsWide s = (i : ℕ) → (s i).remaining < 2 ^ 32

pub total-bound : (s : Slots) → IsWide s → (xs : List ℕ) → total s xs ≤ length xs * (2 ^ 32 - 1)
unfolding total
total-bound s w [] = omega arith
total-bound s w (i ∷ xs) = omega (arith, w i, total-bound s w xs)

-- Fewer than 2^31 orders have less than 2^64 between them, so `total_qty` cannot wrap.
pub total-small : (s : Slots) → IsWide s → (xs : List ℕ) → length xs < 2 ^ 31 → total s xs < 2 ^ 63
total-small s w xs h = omega (arith, total-bound s w xs)

pub total-append : (s : Slots) (xs ys : List ℕ) → total s (xs ++ ys) ≡ total s xs + total s ys
unfolding total
total-append s [] ys = omega arith
total-append s (x ∷ xs) ys = omega (arith, total-append s xs ys)

pub total-frame :
    (s s' : Slots) (xs : List ℕ)
    → ((j : ℕ) → has j xs ≡ true → (s' j).remaining ≡ (s j).remaining)
    → total s' xs ≡ total s xs
unfolding total
total-frame s s' [] same = refl
total-frame s s' (x ∷ xs) same =
    ground (arith, same x, total-frame s s' xs (λ j m. same j (ground arith)))

pub empty-IsFifo : (s : Slots) → IsFifo empty_level s []
unfolding total
empty-IsFifo s = record { links = (refl, refl); distinct = tt; count = refl; qty = refl }

-- A level's representation survives changes that spare the links and quantities of its orders.
pub IsFifo-frame :
    {level : PriceLevel} (s s' : Slots) (xs : List ℕ)
    → IsFifo level s xs
    → SameLinks s s' xs
    → ((j : ℕ) → has j xs ≡ true → (s' j).remaining ≡ (s j).remaining)
    → IsFifo level s' xs
IsFifo-frame {level} s s' xs f links same = record {
  links = Seg-frame s s' none level.head_idx xs level.tail_idx none f.links links;
  distinct = f.distinct;
  count = f.count;
  qty = f.qty ∙ sym (total-frame s s' xs same);
}

pub IsFifo-same :
    {level : PriceLevel} (s s' : Slots) (xs : List ℕ)
    → IsFifo level s xs
    → ((j : ℕ) → has j xs ≡ true → s' j ≡ s j)
    → IsFifo level s' xs
IsFifo-same s s' xs f same =
    IsFifo-frame s s' xs f
      (λ j m. (ap (λ o. o.prev_idx) (same j m), ap (λ o. o.next_idx) (same j m)))
      (λ j m. ap (λ o. o.remaining) (same j m))

-- `PriceLevel::empty` tells whether the list is empty.
pub is_empty_iff :
    {level : PriceLevel} {s : Slots} (xs : List ℕ) → IsFifo level s xs → is_empty level ≡ is_nil xs
is_empty_iff [] f = ground (arith, f.links)
is_empty_iff (x ∷ xs) f = ground (arith, f.links)

-- an order without its list links: what the level operations never write
abbrev pub core : Order → Order
core o = record o { prev_idx = none; next_idx = none }

abbrev pub SameCore : Slots → Slots → Type 0
SameCore s s' = (j : ℕ) → core (s' j) ≡ core (s j)
