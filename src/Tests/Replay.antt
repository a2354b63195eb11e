-- ===== src/Tests/Replay.antt =====
-- The replay of small files, and the environment.
use leak_detector.Base.{ℕ, false, List, [], ◌∷◌, Option, some, arith, replicate}
use leak_detector.FrontEnd.Environment.{printed, Configured, settings_of, settings_of-Configured}
use leak_detector.Replay.Format.{Event, allocated, freed}
use leak_detector.Replay.Reading.{replay}
use leak_detector.Replay.Termination.{Ended, replay-Ended_all}

-- A new array and the union hold other data.
abbrev fresh : ℕ → List ℕ
fresh n = replicate n 7

abbrev entry : List ℕ
entry = replicate 32 9

abbrev events : List Event
events = allocated 0x7000 48 (10 ∷ 20 ∷ []) ∷ freed 0x7000 ∷ []

abbrev last_event : Event
last_event = allocated 0x8000 64 (30 ∷ [])

replay-Ended_all_example :
    Ended (replay 7 fresh entry (record { rest = 1 ∷ 2 ∷ 3 ∷ 4 ∷ 5 ∷ []; eof = false }))
replay-Ended_all_example = replay-Ended_all fresh entry (1 ∷ 2 ∷ 3 ∷ 4 ∷ 5 ∷ [])

-- Each variable is set to 100.
abbrev all_set : List ℕ → Option ℕ
all_set name = some 100

settings_of-Configured_example : Configured all_set (settings_of (λ name. printed (all_set name)))
settings_of-Configured_example = settings_of-Configured all_set (λ name. omega arith)
