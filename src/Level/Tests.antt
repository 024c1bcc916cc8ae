-- ===== src/Level/Tests.antt =====
-- One level's FIFO on concrete orders: two orders arrive, and either leaves.
use low_latency_orderbook.Prelude.{refl, none, [], ◌∷◌, arith}
use low_latency_orderbook.Pool.{zero_order}
use low_latency_orderbook.Level.{Slots, PriceLevel, empty_level, push_back, unlink}
use low_latency_orderbook.Level.Fifo.{IsFifo, IsWide, empty-IsFifo}
use low_latency_orderbook.Level.PushBack.{push_back-IsFifo}
use low_latency_orderbook.Level.Unlink.{unlink-IsFifo}

abbrev slots : Slots
slots i = record zero_order { qty = 5; remaining = 5; prev_idx = none; next_idx = none }

wide : IsWide slots
wide i = omega arith

abbrev one : PriceLevel
one = (push_back empty_level slots 4).0

abbrev one_slots : Slots
one_slots = (push_back empty_level slots 4).1

one-IsFifo : IsFifo one one_slots (4 ∷ [])
one-IsFifo =
    push_back-IsFifo empty_level slots 4 [] (empty-IsFifo slots) refl refl wide (omega arith)

one-wide : IsWide one_slots
unfolding push_back
one-wide i = ground arith

push_back-IsFifo_example :
    IsFifo (push_back one one_slots 2).0 (push_back one one_slots 2).1 (4 ∷ 2 ∷ [])
unfolding push_back
push_back-IsFifo_example =
    push_back-IsFifo one one_slots 2 (4 ∷ []) one-IsFifo refl refl one-wide (omega arith)

abbrev two : PriceLevel
two = (push_back one one_slots 2).0

abbrev two_slots : Slots
two_slots = (push_back one one_slots 2).1

two-IsFifo : IsFifo two two_slots (4 ∷ 2 ∷ [])
unfolding push_back
two-IsFifo = push_back-IsFifo one one_slots 2 (4 ∷ []) one-IsFifo refl refl one-wide (omega arith)

two-wide : IsWide two_slots
unfolding push_back
two-wide i = ground arith

unlink-IsFifo_example : IsFifo (unlink two two_slots 4).0 (unlink two two_slots 4).1 (2 ∷ [])
unlink-IsFifo_example = unlink-IsFifo two two_slots [] 4 (2 ∷ []) two-IsFifo two-wide (omega arith)
