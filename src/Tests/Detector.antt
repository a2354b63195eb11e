-- ===== src/Tests/Detector.antt =====
-- The detector on small histories.
use leak_detector.Base.{ℕ, ◌+◌, ◌≤◌, ◌≡◌, refl, [], ◌∷◌, some, none, arith, length}
use leak_detector.LeakDetectorImpl.Accounting.{IsConsistent}
use leak_detector.LeakDetectorImpl.Consistency.{init-IsConsistent, record_alloc-IsConsistent}
use leak_detector.LeakDetectorImpl.Record.{record_alloc}
use leak_detector.LeakDetectorImpl.Sizes.{huge_size_faults}
use leak_detector.LeakDetectorImpl.State.{
  Stats, LeakDetectorImpl, init, num_size_entries, should_get_stack_trace_for_size,
}
use leak_detector.Unordered.{lookup}

-- Memory that held other data.
abbrev memory : Stats
memory = record {
  num_allocs = 77;
  num_frees = 3;
  alloc_size = 0xffff_ffff_ffff_ffff;
  free_size = 1;
  num_allocs_with_call_stack = 12;
}

abbrev detector : LeakDetectorImpl
detector = init memory 0x1000 0x2000 4 4

detector_width : length detector.size_entries ≡ num_size_entries
detector_width = (init-IsConsistent memory 0x1000 0x2000 4 4).width

huge_size_faults_example :
    (should_get_stack_trace_for_size detector 0x2_0000_0000 ≡ none)
    × (record_alloc detector 500 64 0x2_0000_0000 2 (10 ∷ 20 ∷ []) ≡ none)
huge_size_faults_example =
    huge_size_faults detector 500 64 0x2_0000_0000 2 (10 ∷ 20 ∷ []) detector_width (omega arith)

nothing_live : (a : ℕ) → lookup a detector.address_map ≡ none
unfolding init lookup
nothing_live a = refl

detector-IsConsistent : IsConsistent detector
detector-IsConsistent = init-IsConsistent memory 0x1000 0x2000 4 4

few_live : length detector.address_map ≡ 0
unfolding init
few_live = refl

record_alloc-IsConsistent_example :
    (d' : LeakDetectorImpl) × (record_alloc detector 500 64 32 2 (10 ∷ 20 ∷ []) ≡ some d')
    × IsConsistent d'
    × (length d'.address_map ≤ length detector.address_map + 1)
record_alloc-IsConsistent_example =
    record_alloc-IsConsistent detector 500 64 32 2 (10 ∷ 20 ∷ []) detector-IsConsistent
      (nothing_live 64) (omega arith) (omega (arith, few_live))

-- The detector with that allocation recorded.
abbrev after_alloc : LeakDetectorImpl
after_alloc = record_alloc-IsConsistent_example.0
