-- ===== src/LeakDetectorImpl/Soundness.antt =====
-- The invariant of the whole detector, its books and all its parts, and the calls that record.
use leak_detector.Base.{
  ℕ, ◌+◌, ◌^◌, ◌≤◌, ◌<◌, ◌≡◌, refl, sym, ap, subst, inl, inr, List, Option, none, some, arith, ◌==◌,
  ==_iff, ◌>>=◌, if◌then◌else◌, length, get_elem?-lt, int_lt, All-map, All-set, All-get_elem?,
  u32_mod, Bool-cases, Option-cases, All-replicate,
}
use leak_detector.CallStackManager
use leak_detector.CallStackManager.Interning
use leak_detector.CallStackManager.{CallStack, CallStackManager, object_at, get_call_stack}
use leak_detector.CallStackTable
use leak_detector.CallStackTable.Counters.{remove-analyzer}
use leak_detector.CallStackTable.{CallStackTable}
use leak_detector.LeakAnalyzer
use leak_detector.LeakAnalyzer.Reports
use leak_detector.LeakDetectorImpl.Accounting.{IsConsistent, track-cases}
use leak_detector.LeakDetectorImpl.Consistency.{
  allocated, allocated-IsConsistent, freed, freed-IsConsistent, init-IsConsistent,
}
use leak_detector.LeakDetectorImpl.Record.{
  Tracked, track_call_stack, untrack_call_stack, record_alloc, record_free, free_found,
}
use leak_detector.LeakDetectorImpl.Reporting.{StackPoints, AllPoint}
use leak_detector.LeakDetectorImpl.Sizes.{size_to_index-class_of}
use leak_detector.LeakDetectorImpl.State.{
  AllocInfo, AllocSizeEntry, Stats, LeakDetectorImpl, init, empty_entry, size_to_index,
  num_size_entries,
}
use leak_detector.LeakDetectorImpl.Tables.{TableAnalyzes, AllAnalyze}
use leak_detector.Unordered.Laws.{
  insert-All, erase-All, lookup-insert, lookup-erase, length-insert-le, length-erase-le,
}
use leak_detector.Unordered.{lookup}

pub record IsSound (d : LeakDetectorImpl) : Type 0 where
  pub consistent : IsConsistent d
  pub manager : Interning.IsValid d.call_stack_manager
  pub points : AllPoint d.call_stack_manager.call_stacks d.address_map
  pub analyzer : Reports.IsValid d.size_leak_analyzer
  pub analyze : AllAnalyze d.size_entries

-- The size that is recorded at an address.
abbrev pub size_of : Option AllocInfo → Option ℕ
size_of none = none
size_of (some info) = some info.size

abbrev pub size_at : ℕ → LeakDetectorImpl → Option ℕ
size_at a d = size_of (lookup a d.address_map)

abbrev pub added : Option ℕ → ℕ
added none = 0
added (some size) = 1

-- What recording one event leaves: a sound detector, with another size at one address only.
pub record Recorded (d d' : LeakDetectorImpl) (ptr : ℕ) (size : Option ℕ) : Type 0 where
  pub sound : IsSound d'
  pub sizes : (a : ℕ) → size_at a d' ≡ (if a == ptr then size else size_at a d)
  pub room : length d'.address_map ≤ length d.address_map + added size

-- Recording a call stack keeps all objects, and gives a pointer to one if it gives any.
record TrackSound (m : CallStackManager) (t : Tracked) : Type 0 where
  valid : Interning.IsValid t.manager
  kept :
      (q : ℕ) (c : CallStack)
      → object_at q m.call_stacks ≡ some c
      → object_at q t.manager.call_stacks ≡ some c
  points : StackPoints t.manager.call_stacks t.call_stack
  analyzes : TableAnalyzes t.stack_table

track_call_stack-TrackSound :
    (m : CallStackManager) (w fresh depth : ℕ) (stack : List ℕ) (s : Option CallStackTable)
    → Interning.IsValid m
    → Interning.IsFresh fresh m
    → depth ≤ length stack
    → TableAnalyzes s
    → TrackSound m (track_call_stack m w fresh depth stack s)
unfolding track_call_stack CallStackTable.add
track_call_stack-TrackSound m w fresh depth stack none v f le a = record {
  valid = v;
  kept = λ q c h. h;
  points = tt;
  analyzes = tt;
}
track_call_stack-TrackSound m w fresh depth stack (some table) v f le a =
    elim (Bool-cases (int_lt 0 depth)) [
      | inl e ↦
          let r = Interning.get_call_stack-Interned m fresh depth stack v f le in
          rw e (record { valid = r.valid; kept = r.kept; points = (_, r.points_to); analyzes = a })
      | inr e ↦ rw e (record { valid = v; kept = λ q c h. h; points = tt; analyzes = a })
    ]

kept-StackPoints :
    (objects objects' : List (ℕ × CallStack)) (s : Option ℕ)
    → ((q : ℕ) (c : CallStack) → object_at q objects ≡ some c → object_at q objects' ≡ some c)
    → StackPoints objects s
    → StackPoints objects' s
kept-StackPoints objects objects' none k h = tt
kept-StackPoints objects objects' (some q) k h = (h.0, k q h.0 h.1)

-- Recording an allocation keeps the detector sound. Its address is not live, its size is below
-- 8 GB, and the array of addresses is at least as long as the depth says.
pub record_alloc-IsSound :
    (d : LeakDetectorImpl) (fresh ptr size stack_depth : ℕ) (stack : List ℕ)
    → IsSound d
    → lookup ptr d.address_map ≡ none
    → size < 2 ^ 33
    → length d.address_map + 1 < u32_mod
    → Interning.IsFresh fresh d.call_stack_manager
    → stack_depth ≤ length stack
    → (d' : LeakDetectorImpl) × (record_alloc d fresh ptr size stack_depth stack ≡ some d')
      × Recorded d d' ptr (some size)
unfolding record_alloc
record_alloc-IsSound d fresh ptr size stack_depth stack s free lt room f le =
    let i = size_to_index size in
    let (e, he) =
      get_elem?-lt d.size_entries i
        (omega (arith, (size_to_index-class_of size lt).1, s.consistent.width)) in
    let t =
      track_call_stack d.call_stack_manager d.stats.num_allocs_with_call_stack fresh stack_depth
        stack e.stack_table in
    let info : AllocInfo = record { size = size; call_stack = t.call_stack } in
    let x =
      track_call_stack-TrackSound d.call_stack_manager d.stats.num_allocs_with_call_stack fresh
        stack_depth stack e.stack_table s.manager f le
        (All-get_elem? _ d.size_entries i e s.analyze he) in
    (
      allocated d ptr size e t,
      rw (he, ◌>>=◌),
      record {
        sound = record {
          consistent = allocated-IsConsistent d ptr size e t s.consistent free lt room he (
              track-cases d.call_stack_manager d.stats.num_allocs_with_call_stack fresh stack_depth
                stack e.stack_table);
          manager = x.valid;
          points = insert-All _ ptr _ d.address_map x.points (
              All-map _ _ (λ b h. kept-StackPoints _ _ b.1.call_stack x.kept h) d.address_map
                s.points);
          analyzer = s.analyzer;
          analyze = All-set _ d.size_entries i _ s.analyze x.analyzes;
        };
        sizes = λ a. ground (arith, lookup-insert a ptr info d.address_map);
        room = length-insert-le ptr info d.address_map;
      },
    )

untrack-TableAnalyzes :
    (call_stack : Option ℕ) (s : Option CallStackTable)
    → TableAnalyzes s
    → TableAnalyzes (untrack_call_stack call_stack s)
unfolding untrack_call_stack
untrack-TableAnalyzes none s a = a
untrack-TableAnalyzes (some q) none a = tt
untrack-TableAnalyzes (some q) (some table) a =
    subst Reports.IsValid (sym (remove-analyzer table q)) a

missing-size_at :
    (d : LeakDetectorImpl) (ptr a : ℕ)
    → lookup ptr d.address_map ≡ none
    → size_at a d ≡ (if a == ptr then none else size_at a d)
missing-size_at d ptr a miss = elim (Bool-cases (a == ptr)) [
  | inl t ↦
      let gone : lookup a d.address_map ≡ none =
        subst (λ b. lookup b d.address_map ≡ none) (sym ((==_iff a ptr).0 t)) miss in
      rw t (ap size_of gone)
  | inr f ↦ rw f refl
]

-- Recording a free, of a live address or of any other, keeps the detector sound.
pub record_free-IsSound :
    (d : LeakDetectorImpl) (ptr : ℕ)
    → IsSound d
    → length d.address_map < u32_mod
    → (d' : LeakDetectorImpl) × (record_free d ptr ≡ some d') × Recorded d d' ptr none
unfolding record_free
record_free-IsSound d ptr s room = elim (Option-cases (lookup ptr d.address_map)) [
  | inl miss ↦ (
    d,
    rw (miss, free_found),
    record { sound = s; sizes = λ a. missing-size_at d ptr a miss; room = omega arith },
  )
  | inr (info, here) ↦
      let i = size_to_index info.size in
      let (e, he) = get_elem?-lt d.size_entries i (
        omega (
          arith,
          (size_to_index-class_of info.size (s.consistent.small ptr info here)).1,
          s.consistent.width,
        )) in
      (
        freed d ptr info e,
        rw (here, free_found, he, ◌>>=◌),
        record {
          sound = record {
            consistent = freed-IsConsistent d ptr info e s.consistent room here he;
            manager = s.manager;
            points = erase-All _ ptr d.address_map s.points;
            analyzer = s.analyzer;
            analyze = All-set _ d.size_entries i _ s.analyze (
                untrack-TableAnalyzes info.call_stack e.stack_table
                  (All-get_elem? _ d.size_entries i e s.analyze he));
          };
          sizes = λ a. ground (arith, lookup-erase a ptr d.address_map s.consistent.is_map);
          room = omega (arith, length-erase-le ptr d.address_map);
        },
      )
]

-- A new detector is sound, whatever the memory held.
pub init-IsSound :
    (memory : Stats) (addr size size_threshold stack_threshold : ℕ)
    → IsSound (init memory addr size size_threshold stack_threshold)
unfolding init LeakAnalyzer.init CallStackManager.new
init-IsSound memory addr size size_threshold stack_threshold = record {
  consistent = init-IsConsistent memory addr size size_threshold stack_threshold;
  manager = record { objects = tt };
  points = tt;
  analyzer = record { ordered = tt; bounded = omega arith };
  analyze =
      All-replicate (λ (e : AllocSizeEntry). TableAnalyzes e.stack_table) num_size_entries
        empty_entry tt;
}
