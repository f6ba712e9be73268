-- ===== src/Http/Hooks.antt =====
-- frontend-dashboard/src/hooks: useOrders, usePayments, useShipping, useInventory and useCustomers.
-- Each method of them makes one call of `ApiService` between the same two updates of `loading` and
-- `error`; the calls may overlap. Here, the updates; `Http.Hooks.Routes` has the calls.
pub mod Settling
pub mod Routes
pub mod Described
pub mod Urls
use synkro.Base.{
  ℕ, zero, suc, ◌+◌, ◌-◌, Bool, true, false, Option, none, some, List, [], ◌∷◌, eqb, if◌then◌else◌,
  Failure, Result, ok, err,
}

-- The state of a hook, with the number of its calls that wait for an answer.
pub record Hook : Type 0 where
  pub loading : Bool
  pub error : Option Failure
  pub waiting : ℕ

abbrev pub new_hook : Hook
new_hook = record { loading = false; error = none; waiting = 0 }

-- A method up to its `await`.
unfoldable pub begin : Hook → Hook
begin h = record { loading = true; error = none; waiting = suc h.waiting }

-- The rest of it: an error is kept, and thrown again.
unfoldable pub finish : {B : Type 0} → Result B → Hook → Hook
finish (ok b) h = record h { loading = false; waiting = h.waiting - 1 }
finish (err e) h = record { loading = false; error = some e; waiting = h.waiting - 1 }

-- A method whose call is not overlapped by another one; what a call of `delete` returns is dropped by
-- its method. `W` is the state that the call changes.
unfoldable pub track : {W B : Type 0} → (W → Result B × W) → Hook → W → Result B × Hook × W
unfolding begin finish
track action h w = let (r, w') = action w in (r, finish r (begin h), w')

-- What happens to a hook: a method is called, or a call that waits is answered.
pub data Event (B : Type 0) : Type 0 where
  called : Event B
  answered : Result B → Event B

module _ {B : Type 0} where
  unfoldable pub step : Event B → Hook → Hook
  unfolding begin finish
  step called h = begin h
  step (answered r) h = if eqb h.waiting 0 then h else finish r h

  unfoldable pub run : List (Event B) → Hook → Hook
  unfolding step
  run [] h = h
  run (e ∷ es) h = run es (step e h)

  -- the answers, in some order
  abbrev pub answers : List (Result B) → List (Event B)
  answers [] = []
  answers (r ∷ rs) = answered r ∷ answers rs
