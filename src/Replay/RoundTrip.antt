-- ===== src/Replay/RoundTrip.antt =====
-- The loop of `main` on the file of a list of events.
use leak_detector.Base.{ℕ, ◌*◌, Bool, true, false, List, [], ◌∷◌, ◌++◌, length}
use leak_detector.Replay.Format.{Event, allocated, freed, encode, calls_of}
use leak_detector.Replay.Reading.{File, Call, invoke_delete_hook, Replayed, alloc_calls}
use leak_detector.Replay.Words.{le_words}

-- The calls that the round at the end of the file makes from what the last event left in the union.
-- Its call stack is what the memory of the new array holds.
unfoldable pub calls_again : (ℕ → List ℕ) → Event → List Call
calls_again fresh (allocated ptr size stack) =
    alloc_calls ptr size (length stack) (le_words (length stack) (fresh (8 * length stack)))
calls_again fresh (freed ptr) = invoke_delete_hook ptr ∷ []

abbrev at_end : Bool → File
at_end eof = record { rest = []; eof = eof }

unfoldable pub encode_all : List Event → List ℕ
encode_all [] = []
encode_all (event ∷ events) = encode event ++ encode_all events

unfoldable pub calls_of_all : List Event → List Call
calls_of_all [] = []
calls_of_all (event ∷ events) = calls_of event ++ calls_of_all events

-- The end of the loop on a file of events whose last one is given.
abbrev pub replayed_of : (ℕ → List ℕ) → List Event → Event → Replayed
replayed_of fresh events last = record {
  calls = calls_of_all (events ++ last ∷ []) ++ calls_again fresh last;
  file = at_end true;
  unknown = false;
}
