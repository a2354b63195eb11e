-- ===== src/LeakAnalyzer/Dump.antt =====
-- `Dump`, into a buffer that starts at a position of the memory.
use leak_detector.Base.{
  ℕ, List, [], ◌∷◌, ◌++◌, Option, none, some, ltb, leb, ◌==◌, if◌then◌else◌, ◌>>=◌, length, take,
  sub32, sub64,
}
use leak_detector.LeakAnalyzer.{LeakAnalyzer, get_previous_count_for_value}
use leak_detector.RankedList.{Entry}
use leak_detector.Text.Buffer.{Buffer, append, terminate}
use leak_detector.Text.Numbers.{codes, decimal, signed_decimal, padded}
use leak_detector.ValueType.Printing.{to_string, type_name}
use leak_detector.ValueType.{ValueType}

-- `"***** Top %zu %ss *****\n"`.
unfoldable pub top_line : Entry → List Entry → List ℕ
top_line first entries =
    codes "***** Top "
    ++ (decimal (length (first ∷ entries))
        ++ (codes " " ++ (type_name first.value ++ codes "s *****\n")))

-- The text in `prev_entry_buffer`, of 256 bytes.
unfoldable pub prev_entry_text : Entry → Option ℕ → List ℕ
prev_entry_text entry none = []
prev_entry_text entry (some prev_count) =
    take 255 (codes "(" ++ (padded 10 (signed_decimal (sub32 entry.count prev_count)) ++ codes ")"))

-- `"%10s: %10u %s\n"`.
unfoldable pub entry_line : List Entry → Entry → List ℕ
entry_line previous entry =
    padded 10 (to_string 256 entry.value)
    ++ (codes ": "
        ++ (padded 10 (decimal entry.count)
            ++ (codes " "
                ++ (prev_entry_text entry (get_previous_count_for_value previous entry.value)
                    ++ codes "\n"))))

-- The loop over the entries, up to the first with count 0.
unfoldable pub dump_entries : List Entry → List Entry → Buffer → Option Buffer
dump_entries previous [] b = some b
dump_entries previous (entry ∷ entries) b =
    if leb b.remaining 1
    then some b
    else if entry.count == 0
    then some b
    else (do b' ← append (entry_line previous entry) b; dump_entries previous entries b')

unfoldable pub dump_ranked : List Entry → List Entry → Buffer → Option Buffer
dump_ranked previous [] b = some b
dump_ranked previous (first ∷ entries) b = do
  b' ← (if ltb 1 b.remaining then append (top_line first entries) b else some b)
  dump_entries previous (first ∷ entries) b'

-- The loop over the suspected values, each after the comma.
unfoldable pub dump_values : List ℕ → List ValueType → Buffer → Option Buffer
dump_values optional_comma [] b = some b
dump_values optional_comma (value ∷ values) b = do
  b' ← append (optional_comma ++ to_string 256 value) b
  dump_values (codes ", ") values b'

-- `"Suspected %ss: "`.
unfoldable pub suspected_line : ValueType → List ℕ
suspected_line first = codes "Suspected " ++ (type_name first ++ codes "s: ")

unfoldable pub dump_suspected : List ValueType → Buffer → Option Buffer
dump_suspected [] b = some b
dump_suspected (first ∷ values) b = do
  b1 ← (if ltb 1 b.remaining then append (suspected_line first) b else some b)
  b2 ← (if ltb 1 b1.remaining then dump_values [] (first ∷ values) b1 else some b1)
  if ltb 1 b2.remaining then append (codes "\n") b2 else some b2

-- The body of `Dump`, which moves `buffer` and `size_remaining`.
unfoldable pub dump_all : LeakAnalyzer → Buffer → Option Buffer
dump_all a b = do
  b1 ← dump_ranked a.prev_ranked_entries.entries a.ranked_entries.entries b
  dump_suspected a.suspected_leaks b1

-- `Dump`: the number of bytes written, and the memory.
unfoldable pub dump : LeakAnalyzer → Buffer → Option (ℕ × List ℕ)
dump a b = do b1 ← terminate b; b2 ← dump_all a b1; some (sub64 b.remaining b2.remaining, b2.memory)
