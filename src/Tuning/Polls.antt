-- ===== src/Tuning/Polls.antt =====
-- crusoe-managed-finetuning-example/src/helper.py: the two loops that wait for the service. Answers
-- are numbered from 0. Printing and pauses are left out.
pub mod Outcome
pub mod Ended
use solutions_library.Prelude.{
  ℕ, zero, suc, ◌+◌, Bool, true, false, Option, none, some, List, [], ◌∷◌, ltb, if◌then◌else◌, ◌||◌,
}
use solutions_library.Prelude.Text.{Text, codes, text_eq}
use solutions_library.Prelude.Json.{Json}
use solutions_library.Prelude.Dict.{insert}
use solutions_library.Tuning.Swagger.{is_truthy}
use solutions_library.Tuning.State.{Config, clear}

-- The end of `poll_until_value`: the value with the number of its answer, or the call of `abort`.
pub data Awaited : Type 0 where
  found : ℕ → Json → Awaited
  timed_out : Awaited
  out_of_fuel : Awaited

module _ (poll_fn : ℕ → Json) (timeout interval : ℕ) where
  -- The loop from the k-th answer on, after `elapsed` seconds.
  unfoldable pub wait_from : ℕ → ℕ → ℕ → Awaited
  wait_from zero k elapsed = if ltb elapsed timeout then out_of_fuel else timed_out
  wait_from (suc fuel) k elapsed =
      let rest = wait_from fuel (suc k) (elapsed + interval) in
      if ltb elapsed timeout
      then (if is_truthy (poll_fn k) then found k (poll_fn k) else rest)
      else timed_out

  unfoldable pub poll_until_value : ℕ → Awaited
  poll_until_value fuel = wait_from fuel 0 0

abbrev pub is_terminal : Text → Bool
is_terminal status =
    text_eq status (codes "succeeded")
    || (text_eq status (codes "failed") || text_eq status (codes "cancelled"))

-- What happens in one round of `poll_until_terminated`: the service tells a status, or raises an
-- exception, or the user interrupts. Asked whether the job is to go on, the user says so, or
-- interrupts again, which is `none`.
pub data Round : Type 0 where
  told : Text → Round
  failed : Round
  interrupted : Option Bool → Round

-- Its end: it returns a job with its status, or the program stops. The settings are those that are
-- to be saved, or cleared, before it; `unsaved` is an exception with whether it comes from the
-- service. `at_work` stands for rounds that are still to come.
pub data Polled : Type 0 where
  returned : Text → Config → Polled
  paused : Config → Polled
  cancelled : Config → Polled
  unsaved : Bool → Polled
  at_work : Polled

-- `last_status or "unknown"`
abbrev pub status_or_unknown : Option Text → Text
status_or_unknown none = codes "unknown"
status_or_unknown (some []) = codes "unknown"
status_or_unknown (some (x ∷ status)) = x ∷ status

unfoldable pub poll_until_terminated : List Round → Option Text → Config → Polled
poll_until_terminated [] last_status c = at_work
poll_until_terminated (told status ∷ rounds) last_status c =
    let rest = poll_until_terminated rounds (some status) c in
    if is_terminal status
    then returned status (insert (codes "job_status") (Json.str status) c)
    else rest
poll_until_terminated (failed ∷ rounds) last_status c = unsaved true
poll_until_terminated (interrupted none ∷ rounds) last_status c = unsaved false
poll_until_terminated (interrupted (some true) ∷ rounds) last_status c =
    paused (insert (codes "job_status") (Json.str (status_or_unknown last_status)) c)
poll_until_terminated (interrupted (some false) ∷ rounds) last_status c = cancelled (clear c).0
