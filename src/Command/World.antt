-- ===== src/Command/World.antt =====
-- What a command handler runs in: the state that it reads and writes, and the surroundings that
-- answer it. A handler is a function of the state that returns a result or an error.
use payment_module.Common.{ℕ, String, Bool, Option, List, [], ◌∷◌, ◌++◌}
use payment_module.Common.Int64.{Int64}
use payment_module.Errors.{Error, Result, ok, err}
use payment_module.Domain.Types.{Time, Uuid}
use payment_module.Ports.Gateway.{Gateway, CreateTransactionRequest, TransactionRef, RefundRequest}
use payment_module.Ports.Attempt.{Attempt}
use payment_module.Ports.Cache.{Cache}
use payment_module.Store.Rows.{Db}
use payment_module.Store.Save.{Session}

-- The requests that reached a gateway, in order.
pub data GatewayCall : Type 0 where
  charged : CreateTransactionRequest → GatewayCall
  looked_up : TransactionRef → GatewayCall
  cancelled : String → GatewayCall
  refunded : RefundRequest → GatewayCall

-- Log lines of the levels that an operator acts on; Info lines are left out.
pub data LogLine : Type 0 where
  warning failure : String → LogLine

-- `tick` counts the accesses to the surroundings.
pub record World : Type 0 where
  pub db : Db
  pub cache : Cache
  pub attempts : List Attempt
  pub sent : List GatewayCall
  pub log : List LogLine
  pub tick : ℕ

-- The surroundings, as functions of the tick: the clock, uuid.New, each database call's session,
-- what other requests committed before it, the cache deletions that arrive, the attempt recorder (none
-- for a nil one), the gateways, and the texts of UUIDs and numbers.
pub record Env : Type 0 where
  pub clock : ℕ → Time
  pub new_uuid : ℕ → Uuid
  pub session : ℕ → Session
  pub meanwhile : ℕ → Db → Db
  pub cache_reaches : ℕ → Bool × Bool
  pub recorder : Option (ℕ → Option Error)
  pub factory : String → Result Gateway
  pub show : Uuid → String
  pub parse : String → Option Uuid
  pub print : Int64 → String

abbrev pub Action : Type 0 → Type 0
Action A = World → Result A × World

abbrev pub pure : {A : Type 0} → A → Action A
pure a w = (ok a, w)

abbrev pub raise : {A : Type 0} → Error → Action A
raise e w = (err e, w)

abbrev pub lift : {A : Type 0} → Result A → Action A
lift r w = (r, w)

abbrev pub continue : {A B : Type 0} → Result A → (A → Action B) → Action B
continue (ok a) f w = f a w
continue (err e) f w = (err e, w)

infixl 5 ◌>>=◌ ◌>>◌
abbrev pub ◌>>=◌ : {A B : Type 0} → Action A → (A → Action B) → Action B
◌>>=◌ m f w = let (r, w') = m w in continue r f w'

abbrev pub ◌>>◌ : {A B : Type 0} → Action A → Action B → Action B
m >> k = m >>= λ _. k

-- The error as a value, for a caller that inspects it.
abbrev pub attempt : {A : Type 0} → Action A → Action (Result A)
attempt m w = let (r, w') = m w in (ok r, w')

abbrev pub done : Action (Unit {0})
done = pure tt

abbrev pub warn : String → Action (Unit {0})
warn s w = (ok tt, record w { log = w.log ++ warning s ∷ [] })

abbrev pub complain : String → Action (Unit {0})
complain s w = (ok tt, record w { log = w.log ++ failure s ∷ [] })
