-- ===== src/Tuning/Polls/Ended.antt =====
-- helper.py: how the wait for a job ends.
use solutions_library.Prelude.{◌≡◌, true, false, Option, none, some, List, [], ◌∷◌, ◌++◌, map, All}
use solutions_library.Prelude.Text.{Text, codes}
use solutions_library.Prelude.Dict.{insert}
use solutions_library.Prelude.Json.{Json}
use solutions_library.Tuning.State.{Config, clear}
use solutions_library.Tuning.Polls.{
  is_terminal, Round, told, failed, interrupted, Polled, returned, paused, cancelled, unsaved,
  at_work, status_or_unknown,
}

-- The last of the statuses that were told, if any.
abbrev pub last_told : Option Text → List Text → Option Text
last_told last [] = last
last_told last (status ∷ statuses) = last_told (some status) statuses

abbrev pub with_status : Text → Config → Config
with_status status c = insert (codes "job_status") (Json.str status) c

abbrev pub IsRunning : Text → Type 0
IsRunning status = is_terminal status ≡ false

-- Statuses of a job that runs, and then the round that ends the wait, if there is one.
abbrev pub EndsAt : List Round → List Text → List Round → Type 0
EndsAt rounds statuses rest = (rounds ≡ map told statuses ++ rest) × All IsRunning statuses

abbrev pub IsEnd : List Round → Option Text → Config → Polled → Type 0
IsEnd rounds last c (returned status c') =
    (statuses : List Text) × (rest : List Round) × EndsAt rounds statuses (told status ∷ rest)
    × (is_terminal status ≡ true)
    × (c' ≡ with_status status c)
IsEnd rounds last c (paused c') =
    (statuses : List Text) × (rest : List Round) × EndsAt rounds statuses
      (interrupted (some true) ∷ rest)
    × (c' ≡ with_status (status_or_unknown (last_told last statuses)) c)
IsEnd rounds last c (cancelled c') =
    (statuses : List Text) × (rest : List Round) × EndsAt rounds statuses
      (interrupted (some false) ∷ rest)
    × (c' ≡ (clear c).0)
IsEnd rounds last c (unsaved true) =
    (statuses : List Text) × (rest : List Round) × EndsAt rounds statuses (failed ∷ rest)
IsEnd rounds last c (unsaved false) =
    (statuses : List Text) × (rest : List Round) × EndsAt rounds statuses (interrupted none ∷ rest)
IsEnd rounds last c at_work = (statuses : List Text) × EndsAt rounds statuses []
