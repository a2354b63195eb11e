-- ===== src/CallStackTable/Dump.antt =====
-- `Dump` of a table, into a buffer that starts at a position of the memory.
use leak_detector.Base.{
  ℕ, ◌-◌, ◌+◌, ◌*◌, ◌%◌, ◌^◌, ◌≤◌, ◌<◌, ◌≡◌, refl, true, false, List, [], ◌++◌, Option, some, arith,
  ltb, if◌then◌else◌, ◌>>=◌, length, length-append, add64, sub32, sub64, u32_mod, u64_mod,
}
use leak_detector.CallStackTable.{CallStackTable, size, empty}
use leak_detector.LeakAnalyzer.Dump
use leak_detector.LeakAnalyzer.Printing.{dump_text, length-dump_text, dump-Counted}
use leak_detector.LeakAnalyzer.{LeakAnalyzer}
use leak_detector.Text.Buffer.{Buffer, start, append}
use leak_detector.Text.Numbers.{codes, decimal, length-decimal}
use leak_detector.Text.Prints.{Dumped, append-Printed, start-Holds}

-- A `size_t` that was assigned to an `int`, as a `size_t` again.
unfoldable pub through_int : ℕ → ℕ
through_int n = let w = n % u32_mod in if ltb w (2 ^ 31) then w else w + (u64_mod - u32_mod)

-- The four lines of counters.
unfoldable pub counters_text : CallStackTable → List ℕ
counters_text t =
    codes "Total number of allocations: "
    ++ (decimal t.num_allocs
        ++ (codes "\nTotal number of frees: "
            ++ (decimal t.num_frees
                ++ (codes "\nNet number of allocations: "
                    ++ (decimal (sub32 t.num_allocs t.num_frees)
                        ++ (codes "\nTotal number of distinct stack traces: "
                            ++ (decimal (size t) ++ codes "\n")))))))

-- The dump of the analyzer, in what is left of the buffer.
unfoldable pub dump_analyzer : LeakAnalyzer → Buffer → Option Buffer
dump_analyzer a b = do
  (written, memory) ← Dump.dump a b
  let attempted_size = through_int written
  some (record {
    memory = memory;
    position = add64 b.position attempted_size;
    remaining = sub64 b.remaining attempted_size;
  })

-- `Dump`: an empty table returns the size of the buffer and prints nothing.
unfoldable pub dump : CallStackTable → Buffer → Option (ℕ × List ℕ)
dump t b = if empty t then some (b.remaining, b.memory) else do
  b1 ← append (counters_text t) b
  b2 ← (if ltb 1 b1.remaining then dump_analyzer t.leak_analyzer b1 else some b1)
  some (sub64 b.remaining b2.remaining, b2.memory)

-- The text of the dump.
unfoldable pub table_text : CallStackTable → List ℕ
table_text t = counters_text t ++ dump_text t.leak_analyzer

length-counters_text : (t : CallStackTable) → length (counters_text t) ≤ 202
unfolding counters_text
length-counters_text t =
    let d1 = decimal t.num_allocs in
    let d2 = decimal t.num_frees in
    let d3 = decimal (sub32 t.num_allocs t.num_frees) in
    let d4 = decimal (size t) in
    let t4 = codes "\nTotal number of distinct stack traces: " ++ (d4 ++ codes "\n") in
    let t3 = codes "\nNet number of allocations: " ++ (d3 ++ t4) in
    let t2 = codes "\nTotal number of frees: " ++ (d2 ++ t3) in
    omega (
      arith,
      length-append d1 t2,
      length-append d2 t3,
      length-append d3 t4,
      length-append d4 (codes "\n"),
      length-decimal t.num_allocs,
      length-decimal t.num_frees,
      length-decimal (sub32 t.num_allocs t.num_frees),
      length-decimal (size t),
    )

through_int-small : (n : ℕ) → n < 2 ^ 31 → through_int n ≡ n
unfolding through_int
through_int-small n h = ground arith

pub dump_table-Dumped :
    (t : CallStackTable) (memory : List ℕ)
    → empty t ≡ false
    → 275
        + 67 * length t.leak_analyzer.ranked_entries.entries
        + 22 * length t.leak_analyzer.suspected_leaks
      < length memory
    → length memory < 2 ^ 31
    → Dumped (table_text t) memory (dump t (start memory))
unfolding dump table_text dump_analyzer
dump_table-Dumped t memory filled room word =
    let a = t.leak_analyzer in
    let short = length-dump_text a in
    let short' = length-counters_text t in
    let top =
      append-Printed (counters_text t) (length memory) [] (start memory) (start-Holds memory)
        (omega (arith, short')) (omega arith) in
    let room_left : ltb 1 top.buffer.remaining ≡ true = ground (arith, top.holds.left, short') in
    let r =
      dump-Counted a (length memory) (counters_text t) top.buffer top.holds
        (omega (arith, short, short')) (omega arith) in
    let count : through_int (length (dump_text a)) ≡ length (dump_text a) =
      through_int-small (length (dump_text a)) (omega (arith, short)) in
    let lengths = length-append (counters_text t) (dump_text a) in
    let total : sub64 (length memory) (sub64 top.buffer.remaining (length (dump_text a)))
        ≡ length (counters_text t ++ dump_text a) =
      omega (arith, top.holds.left, lengths, short, short') in
    record {
      after = r.buffer.memory;
      result = rw (filled, top.result, ◌>>=◌, room_left, r.result, count, total) refl;
      whole = r.holds.whole;
      content = r.terminated;
    }
