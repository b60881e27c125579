-- ===== src/Store/Numbering.antt =====
-- The numbers that AttemptRecorder.Record (attempt_recorder.go) gives.
use mathlib.Core.Path.{subst}
use mathlib.Core.List.{append-nil}
use payment_module.Common.{
  ◌≡◌, refl, sym, false, ℕ, zero, suc, ◌+◌, ◌≤◌, ◌<◌, List, [], ◌∷◌, ◌++◌, Option, none, some,
  arith, if-either, ◌⊎◌, inl, inr,
}
use payment_module.Errors.{Error}
use payment_module.Domain.Types.{Uuid}
use payment_module.Ports.Attempt.{Attempt}
use payment_module.Store.Attempts.{
  AttemptRow, Traffic, InsertError, unique_violation, other_error, numbered, last_number, taken,
  write_number, insert_unless, insert_payment_attempt, go_on, try_insert, record_marshalled,
  record_attempt, max_number_retries,
}

-- The number after the last is free.
taken-above :
    (id : Uuid) (n : ℕ) (rows : List AttemptRow) → last_number id rows < n → taken id n rows ≡ false
unfolding taken last_number
taken-above id n [] h = refl
taken-above id n (row ∷ rows) h = ground (arith, h, taken-above id n rows (ground (arith, h)))

-- The attempt is the last row, under a number from 1 that no earlier row of its payment has.
pub record Numbered (a : Attempt) (rows : List AttemptRow) : Type 0 where
  pub before : List AttemptRow
  pub number : ℕ
  pub positive : 1 ≤ number
  pub appended : rows ≡ before ++ numbered a number ∷ []
  pub free : taken a.payment_id number before ≡ false

module _ (traffic : Traffic) (a : Attempt) where
  -- What an insertion that reports no error did.
  abbrev Inserts : Option InsertError × List AttemptRow → Type 0
  Inserts t = t.0 ≡ none → Numbered a t.1

  write_number-Inserts :
      (n : ℕ) (rows : List AttemptRow) → 1 ≤ n → Inserts (write_number traffic a n rows)
  unfolding write_number
  write_number-Inserts n rows h =
      if-either Inserts (taken a.payment_id n rows) _ _ (λ e f. ground (arith, f))
        λ e f. record { before = rows; number = n; positive = h; appended = refl; free = e }

  insert_unless-Inserts :
      (fault : Option Error) (t : ℕ) (rows : List AttemptRow)
      → Inserts (insert_unless traffic fault t a rows)
  unfolding insert_unless
  insert_unless-Inserts (some e) t rows f = ground (arith, f)
  insert_unless-Inserts none t rows f =
      write_number-Inserts (last_number a.payment_id rows + 1) (rows ++ traffic.racing t)
        (omega arith) f

  go_on-Numbered :
      (t : Option InsertError × List AttemptRow)
      (again : List AttemptRow → Option Error × List AttemptRow)
      → Inserts t
      → ((rows : List AttemptRow) → (again rows).0 ≡ none → Numbered a (again rows).1)
      → (go_on traffic t again).0 ≡ none
      → Numbered a (go_on traffic t again).1
  unfolding go_on
  go_on-Numbered (none, rows) again h k e = h refl
  go_on-Numbered (some (other_error x), rows) again h k e = ground (arith, e)
  go_on-Numbered (some (unique_violation x), rows) again h k e = k rows e

  try_insert-Numbered :
      (left t : ℕ) (rows : List AttemptRow)
      → (try_insert traffic left t a rows).0 ≡ none
      → Numbered a (try_insert traffic left t a rows).1
  unfolding try_insert insert_payment_attempt
  try_insert-Numbered zero t rows e = ground (arith, e)
  try_insert-Numbered (suc left) t rows e =
      go_on-Numbered (insert_payment_attempt traffic t a rows)
        (λ rows'. try_insert traffic left (suc t) a rows')
        (insert_unless-Inserts (traffic.fault t) t (rows ++ traffic.earlier t))
        (λ rows' f. try_insert-Numbered left (suc t) rows' f) e

  record_marshalled-Numbered :
      (fault : Option Error) (rows : List AttemptRow)
      → (record_marshalled traffic fault a rows).0 ≡ none
      → Numbered a (record_marshalled traffic fault a rows).1
  unfolding record_marshalled
  record_marshalled-Numbered (some x) rows e = ground (arith, e)
  record_marshalled-Numbered none rows e = try_insert-Numbered 3 0 rows e

  -- When Record reports no error, the attempt is the last row of the table, under a number from 1 that
  -- no other row of its payment had before, whatever others inserted meanwhile.
  pub record_attempt-Numbered :
      (rows : List AttemptRow)
      → (record_attempt traffic a rows).0 ≡ none
      → Numbered a (record_attempt traffic a rows).1
  unfolding record_attempt
  record_attempt-Numbered rows e =
      record_marshalled-Numbered (traffic.marshal a.gateway_response) rows e

  -- An insertion that no other one races succeeds.
  quiet_insert :
      (t : ℕ) (rows : List AttemptRow)
      → traffic.fault t ≡ none
      → traffic.racing t ≡ []
      → (insert_payment_attempt traffic t a rows).0 ≡ none
  unfolding insert_payment_attempt insert_unless write_number
  quiet_insert t rows calm quiet =
      let before : List AttemptRow = rows ++ traffic.earlier t in
      let free : taken a.payment_id (last_number a.payment_id before + 1) before ≡ false =
        taken-above a.payment_id (last_number a.payment_id before + 1) before (omega arith) in
      rw (calm, quiet, append-nil before, free) refl

  -- The first try that is not raced succeeds.
  insert_never_fails :
      (t : ℕ) (rows : List AttemptRow)
      → traffic.fault t ≡ none
      → ((insert_payment_attempt traffic t a rows).0 ≡ none)
        ⊎ ((insert_payment_attempt traffic t a rows).0 ≡ some (unique_violation traffic.violation))
  unfolding insert_payment_attempt insert_unless write_number
  insert_never_fails t rows calm =
      let before : List AttemptRow = rows ++ traffic.earlier t in
      let n : ℕ = last_number a.payment_id before + 1 in
      subst
        (λ fault.
          ((insert_unless traffic fault t a before).0 ≡ none)
          ⊎ ((insert_unless traffic fault t a before).0
              ≡ some (unique_violation traffic.violation)))
        (sym calm)
        (if-either
          (λ (r : Option InsertError × List AttemptRow).
            (r.0 ≡ none) ⊎ (r.0 ≡ some (unique_violation traffic.violation)))
          (taken a.payment_id n (before ++ traffic.racing t)) _ _ (λ e. inr refl) (λ e. inl refl))

  go_on-first :
      (t : Option InsertError × List AttemptRow)
      (again : List AttemptRow → Option Error × List AttemptRow)
      → t.0 ≡ none
      → (go_on traffic t again).0 ≡ none
  unfolding go_on
  go_on-first (none, rows) again e = refl
  go_on-first (some x, rows) again e = ground (arith, e)

  go_on-again :
      (t : Option InsertError × List AttemptRow)
      (again : List AttemptRow → Option Error × List AttemptRow)
      → t.0 ≡ some (unique_violation traffic.violation)
      → ((rows : List AttemptRow) → (again rows).0 ≡ none)
      → (go_on traffic t again).0 ≡ none
  unfolding go_on
  go_on-again (none, rows) again e h = ground (arith, e)
  go_on-again (some (other_error x), rows) again e h = ground (arith, e)
  go_on-again (some (unique_violation x), rows) again e h = h rows

  try_insert-succeeds :
      (left k t : ℕ) (rows : List AttemptRow)
      → ((s : ℕ) → traffic.fault s ≡ none)
      → k < left
      → traffic.racing (t + k) ≡ []
      → (try_insert traffic left t a rows).0 ≡ none
  unfolding try_insert
  try_insert-succeeds zero k t rows calm within quiet = absurd (omega (arith, within))
  try_insert-succeeds (suc left) zero t rows calm within quiet =
      go_on-first (insert_payment_attempt traffic t a rows)
        (λ rows'. try_insert traffic left (suc t) a rows')
        (quiet_insert t rows (calm t) (subst (λ s. traffic.racing s ≡ []) (omega arith) quiet))
  try_insert-succeeds (suc left) (suc k) t rows calm within quiet =
      elim (insert_never_fails t rows (calm t)) [
        | inl done ↦
            go_on-first (insert_payment_attempt traffic t a rows)
              (λ rows'. try_insert traffic left (suc t) a rows') done
        | inr violated ↦
            go_on-again (insert_payment_attempt traffic t a rows)
              (λ rows'. try_insert traffic left (suc t) a rows') violated
              λ rows'.
                try_insert-succeeds left k (suc t) rows' calm (omega (arith, within))
                  (subst (λ s. traffic.racing s ≡ []) (omega arith) quiet)
      ]

  -- Record reports no error when the response can be encoded, the database fails no statement, and one
  -- of the three tries is not raced by another insertion.
  pub record_attempt-succeeds :
      (k : ℕ) (rows : List AttemptRow)
      → traffic.marshal a.gateway_response ≡ none
      → ((s : ℕ) → traffic.fault s ≡ none)
      → k < max_number_retries
      → traffic.racing k ≡ []
      → (record_attempt traffic a rows).0 ≡ none
  unfolding record_attempt record_marshalled
  record_attempt-succeeds k rows encoded calm within quiet = rw encoded (
      try_insert-succeeds 3 k 0 rows calm within
        (subst (λ s. traffic.racing s ≡ []) (omega arith) quiet))
