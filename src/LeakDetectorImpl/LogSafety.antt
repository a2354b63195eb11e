-- ===== src/LeakDetectorImpl/LogSafety.antt =====
-- Logging runs without a fault: nothing is written past the buffers.
use leak_detector.Base.{
  ℕ, suc, ◌*◌, ◌≤◌, ◌≡◌, refl, subst, inl, inr, Bool, true, false, List, [], ◌∷◌, ◌++◌, All, Option,
  none, some, arith, if◌then◌else◌, ◌>>=◌, length, take, length-append, length-take, Bool-cases,
}
use leak_detector.CallStackManager.{CallStack, object_at}
use leak_detector.CallStackTable
use leak_detector.CallStackTable.{CallStackTable}
use leak_detector.CallStackTable.Dump as TableDump
use leak_detector.LeakDetectorImpl.Check.{make_report, make_reports, check_table, check_tables}
use leak_detector.LeakDetectorImpl.Logging.{
  log_dump, append_offsets, log_suspect, log_suspects, log_table, log_tables,
}
use leak_detector.LeakDetectorImpl.State.{
  AllocSizeEntry, LeakDetectorImpl, index_to_size, get_offset,
}
use leak_detector.Text.Buffer.{start, append}
use leak_detector.Text.Numbers.{
  codes, decimal, hexadecimal, pointer, length-decimal, length-hexadecimal, length-pointer,
}
use leak_detector.Text.Prints.{
  Dumped, Prints, start-Holds, some-Prints, append-Prints, append-Printed, bind-Prints,
}
use leak_detector.ValueType
use leak_detector.ValueType.{ValueType}

-- A run that gives something.
abbrev pub IsSome {ℓ} : {A : Type ℓ} → Option A → Type ℓ
IsSome {A = A} o = (a : A) × (o ≡ some a)

pub IsSome-bind {ℓ κ} :
    {A : Type ℓ} {B : Type κ} (m : Option A) (f : A → Option B)
    → IsSome (m >>= f)
    → (a : A) × (m ≡ some a) × IsSome (f a)
IsSome-bind none f h = cc
IsSome-bind (some a) f h = (a, refl, h)

bind-IsSome {ℓ κ} :
    {A : Type ℓ} {B : Type κ} (m : Option A) (f : A → Option B) (a : A)
    → m ≡ some a
    → IsSome (f a)
    → IsSome (m >>= f)
bind-IsSome m f a e h = rw e h

-- The bounds on what is printed: a table was sampled with at most sixteen entries, by an analyzer
-- that ranks sixteen, and a call stack is of at most 32 addresses.
abbrev pub IsSampled : Option CallStackTable → Type 0
IsSampled none = Unit {0}
IsSampled (some t) =
    (length t.leak_analyzer.ranked_entries.entries ≤ 16)
    × (length t.leak_analyzer.suspected_leaks ≤ 17)
    × (t.leak_analyzer.ranking_size ≡ 16)

abbrev pub IsShallow : LeakDetectorImpl → Type 0
IsShallow d =
    (q : ℕ) (c : CallStack) → object_at q d.call_stack_manager.call_stacks ≡ some c → c.depth ≤ 32

pub log_dump-IsSome :
    (pid : ℕ) (buf text : List ℕ) (r : Option (ℕ × List ℕ))
    → Dumped text buf r
    → IsSome (log_dump pid buf r)
unfolding log_dump
log_dump-IsSome pid buf text r h = rw h.result (_, refl)

offsets_text : LeakDetectorImpl → List ℕ → List ℕ
offsets_text d [] = []
offsets_text d (address ∷ stack) =
    (codes "\t" ++ (hexadecimal (get_offset d address) ++ codes "\n")) ++ offsets_text d stack

append_offsets-Prints :
    (d : LeakDetectorImpl) (stack : List ℕ) → Prints (append_offsets d stack) (offsets_text d stack)
unfolding append_offsets offsets_text
append_offsets-Prints d [] = some-Prints
append_offsets-Prints d (address ∷ stack) =
    let line = codes "\t" ++ (hexadecimal (get_offset d address) ++ codes "\n") in
    bind-Prints (append line) (append_offsets d stack) line (offsets_text d stack)
      (append-Prints line) (append_offsets-Prints d stack)

length-offsets_text :
    (d : LeakDetectorImpl) (stack : List ℕ) → length (offsets_text d stack) ≤ 18 * length stack
unfolding offsets_text
length-offsets_text d [] = omega arith
length-offsets_text d (address ∷ stack) =
    let digits = hexadecimal (get_offset d address) in
    omega (
      arith,
      length-append (codes "\t" ++ (digits ++ codes "\n")) (offsets_text d stack),
      length-append digits (codes "\n"),
      length-hexadecimal (get_offset d address),
      length-offsets_text d stack,
    )

log_suspect-IsSome :
    (pid : ℕ) (buf : List ℕ) (d : LeakDetectorImpl) (size : ℕ) (value : ValueType)
    → length buf ≡ 0x4000
    → IsShallow d
    → IsSome (make_report d size value)
    → IsSome (log_suspect pid buf d size value)
unfolding make_report log_suspect
log_suspect-IsSome pid buf d size value whole shallow made =
    let (c, at, _) =
      IsSome-bind (object_at (ValueType.call_stack value) d.call_stack_manager.call_stacks) _
        made in
    let p = ValueType.call_stack value in
    let tail = codes ", " ++ (pointer p ++ codes ":\n") in
    let header = codes "Suspected call stack for size " ++ (decimal size ++ tail) in
    let header_length : length header ≤ 72 = omega (
      arith,
      length-append (decimal size) tail,
      length-append (pointer p) (codes ":\n"),
      length-decimal size,
      length-pointer p,
    ) in
    let stack = take c.depth c.stack in
    let few : length (offsets_text d stack) ≤ 18 * 32 =
      omega (arith, length-offsets_text d stack, length-take c.depth c.stack, shallow p c at) in
    let h =
      append-Printed header (length buf) [] (start buf) (start-Holds buf)
        (omega (arith, header_length, whole)) (omega (arith, whole)) in
    let r =
      append_offsets-Prints d stack (length buf) header h.buffer h.holds h.terminated
        (omega (arith, header_length, whole, few)) (omega (arith, whole)) in
    rw (at, ◌>>=◌, h.result, r.result) (_, refl)

log_suspects-IsSome :
    (pid : ℕ) (buf : List ℕ) (d : LeakDetectorImpl) (size : ℕ) (values : List ValueType)
    → length buf ≡ 0x4000
    → IsShallow d
    → IsSome (make_reports d size values)
    → IsSome (log_suspects pid buf d size values)
unfolding make_reports log_suspects
log_suspects-IsSome pid buf d size [] whole shallow made = (_, refl)
log_suspects-IsSome pid buf d size (value ∷ values) whole shallow made =
    let (report, run, made') = IsSome-bind (make_report d size value) _ made in
    let (reports, run', _) = IsSome-bind (make_reports d size values) _ made' in
    let (lines, l) = log_suspect-IsSome pid buf d size value whole shallow (report, run) in
    let (more, l') = log_suspects-IsSome pid buf d size values whole shallow (reports, run') in
    rw (l, ◌>>=◌, l') (_, refl)

pub else-IsSome {ℓ} :
    {A : Type ℓ} (b : Bool) (x y : Option A) → b ≡ false → IsSome (if b then x else y) → IsSome y
else-IsSome b x y e h = subst (λ c. IsSome (if c then x else y)) e h

log_table-IsSome :
    (traverse : List (ℕ × ℕ) → List (ℕ × ℕ)) (pid : ℕ) (verbose : Bool) (buf : List ℕ)
    (d : LeakDetectorImpl) (i : ℕ) (entry : AllocSizeEntry) (table : Option CallStackTable)
    → length buf ≡ 0x4000
    → IsShallow d
    → IsSampled table
    → IsSome (check_table traverse d i entry table)
    → IsSome (log_table traverse pid verbose buf d (index_to_size i) table)
unfolding check_table log_table
log_table-IsSome traverse pid verbose buf d i entry none whole shallow small checked = (_, refl)
log_table-IsSome traverse pid verbose buf d i entry (some t) whole shallow small checked =
    elim (Bool-cases (CallStackTable.empty t)) [
      | inl no_entry ↦ rw no_entry (_, refl)
      | inr filled ↦
          let table' = CallStackTable.test_for_leaks traverse t in
          let (reports, run, _) =
            IsSome-bind (make_reports d (index_to_size i) table'.leak_analyzer.suspected_leaks) _
              (else-IsSome (CallStackTable.empty t) _ _ filled checked) in
          let (lines, l) =
            log_suspects-IsSome pid buf d (index_to_size i) table'.leak_analyzer.suspected_leaks
              whole shallow (reports, run) in
          let (dumped, l') =
            log_dump-IsSome pid buf (TableDump.table_text t) (TableDump.dump t (start buf)) (
              TableDump.dump_table-Dumped t buf filled (omega (arith, small, whole))
                (omega (arith, whole))) in
          elim verbose
            as (λ v. IsSome (log_table traverse pid v buf d (index_to_size i) (some t))) [
              | true ↦ rw (filled, l', ◌>>=◌, l) (_, refl)
              | false ↦ rw (filled, ◌>>=◌, l) (_, refl)
            ]
    ]

-- Every table was sampled with at most sixteen entries.
abbrev pub AllSampled : List AllocSizeEntry → Type 0
AllSampled entries = All (λ e. IsSampled e.stack_table) entries

pub log_tables-IsSome :
    (traverse : List (ℕ × ℕ) → List (ℕ × ℕ)) (pid : ℕ) (verbose : Bool) (buf : List ℕ)
    (d : LeakDetectorImpl) (i : ℕ) (entries : List AllocSizeEntry)
    → length buf ≡ 0x4000
    → IsShallow d
    → AllSampled entries
    → IsSome (check_tables traverse d i entries)
    → IsSome (log_tables traverse pid verbose buf d i entries)
unfolding check_tables log_tables
log_tables-IsSome traverse pid verbose buf d i [] whole shallow small checked = (_, refl)
log_tables-IsSome traverse pid verbose buf d i (entry ∷ entries) whole shallow small checked =
    let (one, run, checked') =
      IsSome-bind (check_table traverse d i entry entry.stack_table) _ checked in
    let (others, run', _) = IsSome-bind (check_tables traverse d (suc i) entries) _ checked' in
    let (lines, l) =
      log_table-IsSome traverse pid verbose buf d i entry entry.stack_table whole shallow small.0
        (one, run) in
    let (more, l') =
      log_tables-IsSome traverse pid verbose buf d (suc i) entries whole shallow small.1
        (others, run') in
    rw (l, ◌>>=◌, l') (_, refl)
