-- ===== src/Command/Calls.antt =====
-- The calls that the handlers make on their ports, each at the present tick.
use payment_module.Common.{ℕ, suc, String, Option, none, some, List, [], ◌∷◌, ◌++◌}
use payment_module.Errors.{Error, Result, ok}
use payment_module.Domain.Types.{Time, Uuid, Payment}
use payment_module.Ports.Gateway.{
  Gateway, CreateTransactionRequest, GatewayResponse, TransactionRef, TransactionState,
  RefundRequest, RefundResult,
}
use payment_module.Ports.Attempt.{Attempt}
use payment_module.Ports.Cache.{drop_cached_payment}
use payment_module.Store.Rows.{Db}
use payment_module.Store.Save.{Session}
use payment_module.Store.Save
use payment_module.Store.Find
use payment_module.Command.World.{
  World, Env, Action, GatewayCall, charged, looked_up, cancelled, refunded, failure,
}

abbrev pub advance : World → World
advance w = record w { tick = suc w.tick }

module _ (env : Env) where
  -- time.Now
  unfoldable pub now : Action Time
  now w = (ok (env.clock w.tick), advance w)

  -- uuid.New
  unfoldable pub fresh_uuid : Action Uuid
  fresh_uuid w = (ok (env.new_uuid w.tick), advance w)

  -- One call of the repository: others may have committed before it.
  abbrev query : {A : Type 0} → (Session → Db → Result A) → Action A
  query q w =
      let db : Db = env.meanwhile w.tick w.db in
      (q (env.session w.tick) db, record w { db = db; tick = suc w.tick })

  unfoldable pub find_by_id : Uuid → Action Payment
  find_by_id id = query (λ s db. Find.find_by_id env.show s id db)

  unfoldable pub find_by_reference : String → String → Action Payment
  find_by_reference ref caller = query (λ s db. Find.find_by_reference s ref caller db)

  unfoldable pub find_by_gateway_transaction_id : String → Action Payment
  find_by_gateway_transaction_id tx = query (λ s db. Find.find_by_gateway_transaction_id s tx db)

  unfoldable pub find_expired : ℕ → Action (List Payment)
  find_expired limit = query (λ s db. Find.find_expired s limit db)

  unfoldable pub find_awaiting_charge_outcome : Time → ℕ → Action (List Payment)
  find_awaiting_charge_outcome cutoff limit =
      query (λ s db. Find.find_awaiting_charge_outcome s cutoff limit db)

  unfoldable pub find_with_pending_refunds : Time → ℕ → Action (List Payment)
  find_with_pending_refunds cutoff limit =
      query (λ s db. Find.find_with_pending_refunds env.show s cutoff limit db)

  unfoldable pub save : Payment → Action Payment
  save p w =
      let (r, db) = Save.save env.show (env.session w.tick) p (env.meanwhile w.tick w.db) in
      (r, record w { db = db; tick = suc w.tick })

  unfoldable pub drop_cached : Payment → Action (Unit {0})
  drop_cached p w = (
    ok tt,
    record w {
      cache = drop_cached_payment env.show (env.cache_reaches w.tick) p w.cache;
      tick = suc w.tick;
    },
  )

  recorded : Option Error → Attempt → World → World
  recorded none a w = record w { attempts = w.attempts ++ a ∷ [] }
  recorded (some e) a w = record w { log = w.log ++ failure "gateway attempt not recorded" ∷ [] }

  -- recordAttempt of attempt.go
  unfoldable pub record_attempt : Attempt → Action (Unit {0})
  unfolding recorded
  record_attempt a w = elim env.recorder [
    | none ↦ (ok tt, w)
    | some record_at ↦ (ok tt, recorded (record_at w.tick) a (advance w))
  ]

  abbrev gateway_call : {A : Type 0} → GatewayCall → (ℕ → A) → Action A
  gateway_call c answer w =
      (ok (answer w.tick), record w { sent = w.sent ++ c ∷ []; tick = suc w.tick })

  unfoldable pub create_transaction :
      Gateway → CreateTransactionRequest → Action (Result GatewayResponse)
  create_transaction gw req = gateway_call (charged req) (λ t. gw.create_transaction t req)

  unfoldable pub get_transaction : Gateway → TransactionRef → Action (Result TransactionState)
  get_transaction gw ref = gateway_call (looked_up ref) (λ t. gw.get_transaction t ref)

  unfoldable pub cancel_transaction : Gateway → String → Action (Option Error)
  cancel_transaction gw tx = gateway_call (cancelled tx) (λ t. gw.cancel_transaction t tx)

  unfoldable pub create_refund : Gateway → RefundRequest → Action (Result RefundResult)
  create_refund gw req = gateway_call (refunded req) (λ t. gw.create_refund t req)
