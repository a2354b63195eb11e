-- ===== src/Tests/Printing.antt =====
-- Dumps, and the order of reports.
use leak_detector.Base.{ℕ, ◌≡◌, ◌≢◌, ◌⊎◌, true, false, List, [], ◌∷◌, arith, replicate}
use leak_detector.CallStackTable.Dump
use leak_detector.CallStackTable.{CallStackTable, new, add}
use leak_detector.LeakAnalyzer.Dump as Analyzer
use leak_detector.LeakAnalyzer.Printing.{dump_text, dump-Dumped}
use leak_detector.LeakAnalyzer.{init, add_sample}
use leak_detector.LeakDetectorImpl.Check.{InternalLeakReport}
use leak_detector.LeakDetectorImpl.ReportOrder.{report_less, report_less_strict_total}
use leak_detector.RankedList.{RankedList}
use leak_detector.Text.Buffer.{start}
use leak_detector.Text.Prints.{Dumped}
use leak_detector.ValueType.{size_value}

abbrev sample : RankedList
sample = record {
  max_size = 4;
  entries =
      record { value = size_value 32; count = 150 }
      ∷ record { value = size_value 16; count = 11 }
      ∷ [];
}

-- A buffer of 500 bytes that held something else.
abbrev memory : List ℕ
memory = replicate 500 7

dump-Dumped_example :
    Dumped
      (dump_text (add_sample (init 4 2) sample))
      memory
      (Analyzer.dump (add_sample (init 4 2) sample) (start memory))
unfolding init
dump-Dumped_example = dump-Dumped (init 4 2) sample memory (omega arith) (omega arith)

abbrev table : CallStackTable
table = add (new 2) 0x5000

abbrev report : ℕ → List ℕ → InternalLeakReport
report size stack = record { alloc_size_bytes = size; call_stack = stack }

abbrev first_report : InternalLeakReport
first_report = report 32 (10 ∷ 20 ∷ [])

abbrev second_report : InternalLeakReport
second_report = report 32 (10 ∷ 20 ∷ 5 ∷ [])

abbrev third_report : InternalLeakReport
third_report = report 40 []

report_less_strict_total_example :
    (report_less first_report first_report ≡ false)
    × (report_less first_report second_report ≡ true
        → report_less second_report third_report ≡ true
        → report_less first_report third_report ≡ true)
    × (first_report ≢ second_report
        → (report_less first_report second_report ≡ true)
          ⊎ (report_less second_report first_report ≡ true))
report_less_strict_total_example = report_less_strict_total first_report second_report third_report
