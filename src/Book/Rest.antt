-- ===== src/Book/Rest.antt =====
-- A partially filled maker keeps its place, and a taker's remainder comes to rest.
use low_latency_orderbook.Prelude.{
  ℕ, ℤ, ◌+◌, ◌≤◌, ◌<◌, ◌^◌, ◌≡◌, ◌≢◌, refl, sym, subst, ◌∙◌, true, List, arith, has,
}
use mathlib.Core.Path.{fun_ext}
use mathlib.Core.Bool.{false≢true}
use low_latency_orderbook.Types.{Side, buy, sell, opposite}
use low_latency_orderbook.Pool.{Link}
use low_latency_orderbook.Pool.Valid.{IsLive}
use low_latency_orderbook.Pool.Frame.{frame-IsValid}
use low_latency_orderbook.Level.{Slots}
use low_latency_orderbook.Ladder.{PriceLadder, set_level_at, level_at}
use low_latency_orderbook.Ladder.Holds.{Holds-frame}
use low_latency_orderbook.Ladder.Fill.{filled, debited, set_level_at-Holds, side-set_level_at}
use low_latency_orderbook.Book.{OrderBook, ladder, set_ladder, with_ladder}
use low_latency_orderbook.Book.Valid.{Sides, at_side, IsValid}
use low_latency_orderbook.Book.Assemble.{assemble, not_opposite}

pub at_side_self : {A : Type 0} (f : Side → A) (side : Side) → at_side f side (f side) ≡ f
at_side_self f buy = fun_ext (elim [ buy ↦ refl | sell ↦ refl ])
at_side_self f sell = fun_ext (elim [ buy ↦ refl | sell ↦ refl ])

pub with_ladder_lem :
    (b : OrderBook) (side : Side) (r : PriceLadder × Slots)
    → with_ladder b side r
      ≡ set_ladder (record b { pool = record (b.pool) { slots = r.1 } }) side r.0
with_ladder_lem b buy r = refl
with_ladder_lem b sell r = refl

module _ {b : OrderBook} {c : Sides} {bs : Side → List ℕ} {fs : List ℕ} {flight : Link}
    (v : IsValid b c bs fs flight) (side : Side) (q : ℤ) (i left fill : ℕ)
    (m : has i (c side q) ≡ true) (some_left : 1 ≤ left)
    (parts : left + fill ≡ (b.pool.slots i).remaining) where
  slots' : Slots
  slots' = filled b.pool.slots i left

  apart : (p : ℤ) (j : ℕ) → has j (c (opposite side) p) ≡ true → slots' j ≡ b.pool.slots j
  unfolding slots'
  apart p j mj = ground (arith, ne)
    where
      ne : i ≢ j
      ne e = false≢true (sym (not_opposite v side p q j mj) ∙ rw (← e) m)

  kept :
      (j : ℕ)
      → ((slots' j).order_id ≡ (b.pool.slots j).order_id)
        × ((slots' j).generation ≡ (b.pool.slots j).generation)
        × ((slots' j).next_idx ≡ (b.pool.slots j).next_idx)
        × ((slots' j).side ≡ (b.pool.slots j).side)
        × ((slots' j).price_ticks ≡ (b.pool.slots j).price_ticks)
        × ((b.pool.slots j).remaining < 2 ^ 32
            → (b.pool.slots i).remaining < 2 ^ 32
            → (slots' j).remaining < 2 ^ 32)
  unfolding slots'
  kept j = ground arith

  IsLive-now : (j : ℕ) → IsLive b.pool j → IsLive (record (b.pool) { slots = slots' }) j
  IsLive-now j l = (l.0, rw (kept j).0 l.1)

  -- A partial fill of a resting order, with its level's total debited, leaves every order in place.
  pub filled-IsValid :
      IsValid
        (with_ladder b side (
          set_level_at (ladder b side) q (debited (level_at (ladder b side) q) fill),
          filled b.pool.slots i left,
        ))
        c
        bs
        fs
        flight
  unfolding slots'
  filled-IsValid =
      rw
        (with_ladder_lem b side (
          set_level_at (ladder b side) q (debited (level_at (ladder b side) q) fill),
          filled b.pool.slots i left,
        ))
        (subst
          (λ (bs' : Side → List ℕ).
            IsValid
              (set_ladder
                (record b { pool = record (b.pool) { slots = filled b.pool.slots i left } }) side
                (set_level_at (ladder b side) q (debited (level_at (ladder b side) q) fill)))
              c bs' fs flight)
          (at_side_self bs side)
          (subst
            (λ (c' : Sides).
              IsValid
                (set_ladder
                  (record b { pool = record (b.pool) { slots = filled b.pool.slots i left } }) side
                  (set_level_at (ladder b side) q (debited (level_at (ladder b side) q) fill)))
                c' (at_side bs side (bs side)) fs flight)
            (at_side_self c side)
            (assemble b c bs side
              (set_level_at (ladder b side) q (debited (level_at (ladder b side) q) fill))
              (record (b.pool) { slots = slots' }) (c side) (bs side) fs flight
              (record {
                pool =
                    frame-IsValid b.pool slots' v.pool (λ j. ((kept j).0, (kept j).1))
                      (λ j mj. (kept j).2);
                here = set_level_at-Holds (v.sides side) v.wide q i left fill m some_left parts;
                there = Holds-frame (v.sides (opposite side)) slots' apart;
                own_here = side-set_level_at (ladder b side) q _ ∙ v.own_side side;
                own_there = v.own_side (opposite side);
                wide = λ j. (kept j).5 (v.wide j) (v.wide i);
                live_here = λ p j mj. (IsLive-now j (v.live side p j mj).0, (v.live side p j mj).1);
                live_there = λ p j mj. (
                  IsLive-now j (v.live (opposite side) p j mj).0,
                  (v.live (opposite side) p j mj).1,
                );
                rests = λ j l n.
                    rw ((kept j).3, (kept j).4, at_side_self c side)
                      (v.rests j (l.0, rw (kept j).0 at l.1) n);
                in_flight =
                    λ j n. (IsLive-now j (v.in_flight j n).0, (kept j).2 ∙ (v.in_flight j n).1);
              }))))
