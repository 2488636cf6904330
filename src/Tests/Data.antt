-- ===== src/Tests/Data.antt =====
-- my_cyber/data at concrete inputs: a ring for two messages that has been given three.
use hongwei_notebook.Common.{ℕ, ◌≡◌, refl, List, [], ◌∷◌, none, some, arith}
use hongwei_notebook.Data.Cache.{CacheBuffer, make, store}
use hongwei_notebook.Data.Cache.History.{Holds, make-Holds, store-Holds}
use hongwei_notebook.Data.Channel.{fetch, Op, writes, reads, run, try_fetch}
use hongwei_notebook.Data.Channel.Order.{InOrder, run-InOrder}
use hongwei_notebook.Data.Fusion.{AllLatest, Event, on_m0, on_m1, make_fusion, dispatch_all}
use hongwei_notebook.Data.Fusion.Pairs.{Fuses, dispatch_all-Fuses}

abbrev Ring : Type 0
Ring = CacheBuffer ℕ (Unit {0})

abbrev fresh : Ring
fresh = make 0 2

abbrev two : Ring
two = store (store fresh 5) 6

two-Holds : Holds two (5 ∷ 6 ∷ [])
two-Holds =
    store-Holds 6 (store-Holds 5 (make-Holds 0 2 (omega arith) (omega arith)) (omega arith))
      (omega arith)

abbrev three : Ring
three = store two 7

store-Holds_example : Holds three (5 ∷ 6 ∷ 7 ∷ [])
store-Holds_example = store-Holds 7 two-Holds (omega arith)

fetch_overtaken : fetch three 1 ≡ some (3, some 7)
unfolding fetch make store
fetch_overtaken = refl

abbrev schedule : List (Op ℕ)
schedule = reads ∷ writes 8 ∷ writes 9 ∷ reads ∷ reads ∷ reads ∷ []

run-InOrder_example :
    InOrder 0
      (5 ∷ 6 ∷ 7 ∷ 8 ∷ 9 ∷ [])
      (run (record { buffer = three; next_msg_index = 0 }) schedule)
run-InOrder_example =
    run-InOrder schedule (record { buffer = three; next_msg_index = 0 }) (5 ∷ 6 ∷ 7 ∷ [])
      store-Holds_example (omega arith) (omega arith)

run_delivers :
    run (record { buffer = three; next_msg_index = 0 }) schedule
    ≡ (4, some 7) ∷ (5, some 8) ∷ (6, some 9) ∷ []
unfolding run try_fetch fetch make store
run_delivers = refl

abbrev pair_fusion : AllLatest ℕ ℕ
pair_fusion = make_fusion (0, none) (make 0 2) (make 0 2)

pair_fusion-Fuses : Fuses pair_fusion [] []
unfolding make_fusion make
pair_fusion-Fuses = record {
  callback = refl;
  plain = refl;
  sink = refl;
  holds_m1 = unfold make in make-Holds 0 2 (omega arith) (omega arith);
  holds_fused = unfold make in make-Holds (0, none) 2 (omega arith) (omega arith);
}

abbrev events : List (Event ℕ ℕ)
events = on_m0 1 ∷ on_m1 10 ∷ on_m0 2 ∷ on_m1 11 ∷ on_m1 12 ∷ on_m0 3 ∷ []

dispatch_all-Fuses_example :
    Fuses (dispatch_all pair_fusion events) (10 ∷ 11 ∷ 12 ∷ []) ((2, some 10) ∷ (3, some 12) ∷ [])
dispatch_all-Fuses_example =
    dispatch_all-Fuses events pair_fusion [] [] pair_fusion-Fuses (omega arith) (omega arith)
