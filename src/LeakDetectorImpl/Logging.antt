-- ===== src/LeakDetectorImpl/Logging.antt =====
-- What `DumpStats` and `TestForLeaks` write to the log, line by line. It depends on no other output
-- and changes no state.
use leak_detector.Base.{
  ℕ, suc, Bool, List, [], ◌∷◌, ◌++◌, Option, none, some, ltb, ◌==◌, if◌then◌else◌, ◌>>=◌, length,
  take, get_elem?, sub64,
}
use leak_detector.CallStackManager
use leak_detector.CallStackManager.{CallStack, object_at}
use leak_detector.CallStackTable
use leak_detector.CallStackTable.{CallStackTable}
use leak_detector.CallStackTable.Dump as TableDump
use leak_detector.LeakAnalyzer.Dump as AnalyzerDump
use leak_detector.LeakAnalyzer.{add_sample}
use leak_detector.LeakDetectorImpl.Check.{rank_sizes, add_table}
use leak_detector.LeakDetectorImpl.State.{
  AllocSizeEntry, LeakDetectorImpl, size_to_index, index_to_size, get_offset, has_table,
  ranked_list_size,
}
use leak_detector.RankedList
use leak_detector.Text.Buffer.{Buffer, start, append}
use leak_detector.Text.Numbers.{codes, decimal, signed_decimal, hexadecimal, pointer}
use leak_detector.ValueType
use leak_detector.ValueType.{ValueType}

-- `PrintWithPid`, into a line of 1024 bytes.
unfoldable pub print_with_pid : ℕ → List ℕ → List ℕ
print_with_pid pid str = take 1023 (signed_decimal pid ++ (codes ": " ++ (str ++ codes "\n")))

-- The loop of `PrintWithPidOnEachLine`, with the line up to the next newline so far.
unfoldable pub print_lines : ℕ → List ℕ → List ℕ → List (List ℕ)
print_lines pid [] [] = []
print_lines pid (c ∷ line) [] = print_with_pid pid (c ∷ line) ∷ []
print_lines pid line (c ∷ str) =
    if c == b'\n'
    then print_with_pid pid line ∷ print_lines pid [] str
    else print_lines pid (line ++ c ∷ []) str

unfoldable pub print_with_pid_on_each_line : ℕ → List ℕ → List (List ℕ)
print_with_pid_on_each_line pid str = print_lines pid [] str

-- The text in a buffer, up to the zero.
unfoldable pub text_in : List ℕ → List ℕ
text_in [] = []
text_in (c ∷ memory) = let rest = text_in memory in if c == 0 then [] else c ∷ rest

-- `DumpStats`; `percentage` is `%.2f` of a hundred times the quotient of two numbers.
unfoldable pub stats_text : (ℕ → ℕ → List ℕ) → LeakDetectorImpl → List ℕ
stats_text percentage d =
    codes "Alloc size: "
    ++ (decimal d.stats.alloc_size
        ++ (codes "\nFree size: "
            ++ (decimal d.stats.free_size
                ++ (codes "\nNet alloc size: "
                    ++ (decimal (sub64 d.stats.alloc_size d.stats.free_size)
                        ++ (codes "\nNumber of stack tables: "
                            ++ (decimal d.num_stack_tables
                                ++ (codes "\nPercentage of allocs with stack traces: "
                                    ++ ((if d.stats.num_allocs == 0
                                          then codes "0.00"
                                          else percentage d.stats.num_allocs_with_call_stack
                                              d.stats.num_allocs)
                                        ++ (codes "%\nNumber of call stack buckets: "
                                            ++ (decimal (CallStackManager.size d.call_stack_manager)
                                                ++ codes "\n")))))))))))

unfoldable pub dump_stats : ℕ → (ℕ → ℕ → List ℕ) → LeakDetectorImpl → List (List ℕ)
dump_stats pid percentage d = print_with_pid_on_each_line pid (take 1023 (stats_text percentage d))

-- `snprintf` of a text into `buf`, of 0x4000 bytes, and its lines in the log.
unfoldable pub log_text : ℕ → List ℕ → List (List ℕ)
log_text pid text = print_with_pid_on_each_line pid (take 0x3fff text)

-- A `Dump` into `buf`, which goes to the log if it is shorter than the buffer.
unfoldable pub log_dump : ℕ → List ℕ → Option (ℕ × List ℕ) → Option (List (List ℕ))
log_dump pid buf dumped = do
  (written, memory) ← dumped
  some (if ltb written (length buf) then print_with_pid_on_each_line pid (text_in memory) else [])

-- The line for a suspected size that gets a stack table, and the detector with it.
unfoldable pub log_added :
    ℕ → LeakDetectorImpl → ValueType → Option (LeakDetectorImpl × List (List ℕ))
log_added pid d value = do
  let size = ValueType.size value
  entry ← get_elem? d.size_entries (size_to_index size)
  d' ← add_table d value
  some (
    d',
    if has_table entry
        then []
        else log_text pid (codes "Adding stack table for size " ++ (decimal size ++ codes "\n")),
  )

unfoldable pub log_all_added :
    ℕ → LeakDetectorImpl → List ValueType → Option (LeakDetectorImpl × List (List ℕ))
log_all_added pid d [] = some (d, [])
log_all_added pid d (value ∷ values) = do
  (d', lines) ← log_added pid d value
  (d'', more) ← log_all_added pid d' values
  some (d'', lines ++ more)

-- The loop over the addresses of a suspected call stack.
unfoldable pub append_offsets : LeakDetectorImpl → List ℕ → Buffer → Option Buffer
append_offsets d [] b = some b
append_offsets d (address ∷ stack) b = do
  b' ← append (codes "\t" ++ (hexadecimal (get_offset d address) ++ codes "\n")) b
  append_offsets d stack b'

-- The lines for one suspected call stack.
unfoldable pub log_suspect : ℕ → List ℕ → LeakDetectorImpl → ℕ → ValueType → Option (List (List ℕ))
log_suspect pid buf d size value = do
  call_stack ← object_at (ValueType.call_stack value) d.call_stack_manager.call_stacks
  b ←
      append
        (codes "Suspected call stack for size "
          ++ (decimal size
              ++ (codes ", " ++ (pointer (ValueType.call_stack value) ++ codes ":\n"))))
        (start buf)
  b' ← append_offsets d (take call_stack.depth call_stack.stack) b
  some (print_with_pid_on_each_line pid (text_in b'.memory))

unfoldable pub log_suspects :
    ℕ → List ℕ → LeakDetectorImpl → ℕ → List ValueType → Option (List (List ℕ))
log_suspects pid buf d size [] = some []
log_suspects pid buf d size (value ∷ values) = do
  lines ← log_suspect pid buf d size value
  more ← log_suspects pid buf d size values
  some (lines ++ more)

-- The lines for one stack table: what it holds before the test, and what is suspected after it.
unfoldable pub log_table :
    (List (ℕ × ℕ) → List (ℕ × ℕ))
    → ℕ
    → Bool
    → List ℕ
    → LeakDetectorImpl
    → ℕ
    → Option CallStackTable
    → Option (List (List ℕ))
log_table traverse pid verbose buf d size none = some []
log_table traverse pid verbose buf d size (some table) =
    if CallStackTable.empty table then some [] else do
      dumped ← (if verbose then log_dump pid buf (TableDump.dump table (start buf)) else some [])
      let table' = CallStackTable.test_for_leaks traverse table
      suspects ← log_suspects pid buf d size table'.leak_analyzer.suspected_leaks
      some (
          (if verbose
            then log_text pid (codes "Stack table for size " ++ (decimal size ++ codes ":\n"))
            else [])
          ++ (dumped ++ suspects))

unfoldable pub log_tables :
    (List (ℕ × ℕ) → List (ℕ × ℕ))
    → ℕ
    → Bool
    → List ℕ
    → LeakDetectorImpl
    → ℕ
    → List AllocSizeEntry
    → Option (List (List ℕ))
log_tables traverse pid verbose buf d i [] = some []
log_tables traverse pid verbose buf d i (entry ∷ entries) = do
  lines ← log_table traverse pid verbose buf d (index_to_size i) entry.stack_table
  more ← log_tables traverse pid verbose buf d (suc i) entries
  some (lines ++ more)

-- All that `TestForLeaks` writes when it logs. Each use of `buf` starts from what it held at first.
unfoldable pub log_test_for_leaks :
    (List (ℕ × ℕ) → List (ℕ × ℕ))
    → ℕ
    → (ℕ → ℕ → List ℕ)
    → Bool
    → List ℕ
    → LeakDetectorImpl
    → Option (List (List ℕ))
log_test_for_leaks traverse pid percentage verbose buf d = do
  let ranked = rank_sizes 0 (RankedList.new ranked_list_size) d.size_entries
  let analyzer = add_sample d.size_leak_analyzer ranked
  dumped ← (if verbose then log_dump pid buf (AnalyzerDump.dump analyzer (start buf)) else some [])
  (d', added) ←
      log_all_added pid (record d { size_leak_analyzer = analyzer }) analyzer.suspected_leaks
  tables ← log_tables traverse pid verbose buf d' 0 d'.size_entries
  some (dump_stats pid percentage d ++ (dumped ++ (added ++ tables)))
