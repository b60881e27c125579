-- ===== src/Outbox/Passes.antt =====
-- Run of outbox_worker.go: the passes of the worker one after the other, with the rows that arrive.
use payment_module.Common.{
  ℕ, List, [], ◌∷◌, ◌++◌, Aligned, Aligned-refl, Aligned-trans, Aligned-weaken, Aligned-append, All,
  All-append,
}
use payment_module.Store.Rows.{OutboxRow}
use payment_module.Outbox.Worker.{Attempt, Pass, Tick, passes, run_once, run}
use payment_module.Outbox.Delivery.{
  Kept, Kept-refl, Kept-trans, Kept-weaken, Delivered-before, Delivered-after, run_once-Kept,
}
use payment_module.Outbox.Retries.{InCount, run_once-InCount}

-- The table with the rows that arrive in the ticks.
abbrev pub with_arrivals : List OutboxRow → List Tick → List OutboxRow
with_arrivals table [] = table
with_arrivals table (t ∷ ticks) = with_arrivals (table ++ t.arrived) ticks

with_arrivals-Kept :
    (done : List Attempt) (ticks : List Tick) (xs ys : List OutboxRow)
    → Aligned (Kept done) xs ys
    → Aligned (Kept done) (with_arrivals xs ticks) (with_arrivals ys ticks)
with_arrivals-Kept done [] xs ys a = a
with_arrivals-Kept done (t ∷ ticks) xs ys a =
    with_arrivals-Kept done ticks (xs ++ t.arrived) (ys ++ t.arrived)
      (Aligned-append (Kept done) xs ys t.arrived (Kept-refl done) a)

-- Two changes one after the other, each under its own attempts.
Kept-append :
    (done more : List Attempt) (xs ys zs : List OutboxRow)
    → Aligned (Kept done) xs ys
    → Aligned (Kept more) ys zs
    → Aligned (Kept (done ++ more)) xs zs
Kept-append done more xs ys zs a b =
    Aligned-trans (Kept (done ++ more)) xs ys zs (Kept-trans (done ++ more))
      (Aligned-weaken (Kept done) (Kept (done ++ more)) xs ys
        (Kept-weaken done (done ++ more) (Delivered-before done more)) a)
      (Aligned-weaken (Kept more) (Kept (done ++ more)) ys zs
        (Kept-weaken more (done ++ more) (Delivered-after done more)) b)

passes-Kept :
    (xs : List Pass) (table : List OutboxRow)
    → Aligned (Kept (passes xs table).1) table (passes xs table).0
unfolding passes
passes-Kept [] table = Aligned-refl (Kept []) table (Kept-refl [])
passes-Kept (x ∷ xs) table =
    let (passed, attempts) = run_once x.around x.batch_size table in
    let (end, more) = passes xs passed in
    Kept-append attempts more table passed end (run_once-Kept x.around x.batch_size table)
      (passes-Kept xs passed)

-- However many passes the outbox worker and other replicas of it make, and whatever fails in them, every
-- row that was there or arrived is in its place afterwards as the same event of the same aggregate; it is
-- published only if it came so, or if one of the passes handed it to the publisher, which returned no
-- error.
pub run-Kept :
    (batch_size : ℕ) (ticks : List Tick) (table : List OutboxRow)
    → Aligned
        (Kept (run batch_size ticks table).1)
        (with_arrivals table ticks)
        (run batch_size ticks table).0
unfolding run
run-Kept batch_size [] table = Aligned-refl (Kept []) table (Kept-refl [])
run-Kept batch_size (t ∷ ticks) table =
    let all : List Pass = t.others ++ record { batch_size = batch_size; around = t.around } ∷ [] in
    let (passed, attempts) = passes all (table ++ t.arrived) in
    let (end, more) = run batch_size ticks passed in
    Kept-append attempts more (with_arrivals (table ++ t.arrived) ticks)
      (with_arrivals passed ticks) end
      (with_arrivals-Kept attempts ticks (table ++ t.arrived) passed
        (passes-Kept all (table ++ t.arrived)))
      (run-Kept batch_size ticks passed)

passes-InCount :
    (xs : List Pass) (table : List OutboxRow) → All InCount table → All InCount (passes xs table).0
unfolding passes
passes-InCount [] table all = all
passes-InCount (x ∷ xs) table all =
    passes-InCount xs (run_once x.around x.batch_size table).0
      (run_once-InCount x.around x.batch_size table all)

-- Every arriving row of the ticks is in count.
abbrev pub ArriveInCount : List Tick → Type 0
ArriveInCount [] = Unit
ArriveInCount (t ∷ ticks) = All InCount t.arrived × ArriveInCount ticks

-- When every row of the table, and every row that arrives, is pending with at most five failures, failed
-- with at least six, or published, then so is every row after any number of passes of the outbox
-- worker and of other replicas of it, whatever fails in them.
pub run-InCount :
    (batch_size : ℕ) (ticks : List Tick) (table : List OutboxRow)
    → All InCount table
    → ArriveInCount ticks
    → All InCount (run batch_size ticks table).0
unfolding run
run-InCount batch_size [] table all arrive = all
run-InCount batch_size (t ∷ ticks) table all (now, later) =
    let xs : List Pass = t.others ++ record { batch_size = batch_size; around = t.around } ∷ [] in
    run-InCount batch_size ticks (passes xs (table ++ t.arrived)).0
      (passes-InCount xs (table ++ t.arrived) (All-append InCount table t.arrived all now)) later
