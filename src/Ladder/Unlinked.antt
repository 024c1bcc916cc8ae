-- ===== src/Ladder/Unlinked.antt =====
-- `PriceLevel::unlink` in the terms of the ladder: the order leaves the list of its price.
use low_latency_orderbook.Prelude.{
  ℕ, ◌^◌, ◌<◌, ◌≡◌, true, false, List, ◌∷◌, ◌++◌, arith, has, length, erase, erase-append, split_at,
  Distinct-Parts,
}
use low_latency_orderbook.Pool.{LevelIdx}
use low_latency_orderbook.Level.{Slots, PriceLevel, set_level_idx, unlink}
use low_latency_orderbook.Level.Fifo.{IsFifo, IsFifo-frame, IsWide}
use low_latency_orderbook.Level.Unlink.{unlink-core, unlink-frame, unlink-IsFifo}
use low_latency_orderbook.Ladder.Touched.{Touched}

module _ (level : PriceLevel) (s : Slots) (i : ℕ) (l : List ℕ) (f : IsFifo level s l)
    (m : has i l ≡ true) where
  unlinked-IsFifo :
      IsWide s → length l < 2 ^ 31 → IsFifo (unlink level s i).0 (unlink level s i).1 (erase i l)
  unlinked-IsFifo wide room =
      let (xs, ys, e) = split_at i l m in
      let f' : IsFifo level s (xs ++ i ∷ ys) = rw e at f in
      rw (e, erase-append xs i ys (Distinct-Parts xs i ys f'.distinct).not_left)
        (unlink-IsFifo level s xs i ys f' wide (rw e at room))

  unlinked-frame : (j : ℕ) → has j l ≡ false → (unlink level s i).1 j ≡ s j
  unlinked-frame j out =
      let (xs, ys, e) = split_at i l m in unlink-frame level s xs i ys (rw e at f) j (rw e at out)

  -- the slots after an unlink and the write of `level_idx`
  abbrev pub unlinked : LevelIdx → Slots
  unlinked ref = set_level_idx i ref (unlink level s i).1

  pub unlinked-Touched : (ref : LevelIdx) → Touched s (unlinked ref) i l ref
  unlinked-Touched ref = record {
    same = λ j out ne. ground (arith, unlinked-frame j out);
    data_same = λ j. ground (arith, unlink-core level s i j);
    level_same = λ j ne. ground (arith, unlink-core level s i j);
    level_self = ground arith;
  }

  pub left-IsFifo :
      (ref : LevelIdx)
      → IsWide s
      → length l < 2 ^ 31
      → IsFifo (unlink level s i).0 (unlinked ref) (erase i l)
  left-IsFifo ref wide room =
      IsFifo-frame (unlink level s i).1 (unlinked ref) (erase i l) (unlinked-IsFifo wide room)
        (λ j m'. ground arith) (λ j m'. ground arith)
