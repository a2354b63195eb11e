-- ===== src/LeakDetectorImpl/Consistency.antt =====
-- `RecordAlloc` and `RecordFree`, and the books after them.
use leak_detector.Base.{
  ℕ, zero, suc, ◌+◌, ◌^◌, ◌≤◌, ◌<◌, ◌≡◌, refl, ap, subst, ◌∙◌, List, [], Option, none, some, arith,
  ◌>>=◌, length, get_elem?, set, length-set, get_elem?-lt, add32, u32_mod, replicate,
  length-replicate,
}
use leak_detector.LeakDetectorImpl.Accounting.{
  EntryCounts, IsConsistent, track-TableCounts, untrack-TableCounts, track-cases, TrackCases,
}
use leak_detector.LeakDetectorImpl.Record.{
  Tracked, track_call_stack, untrack_call_stack, count_alloc, count_free, record_alloc,
}
use leak_detector.LeakDetectorImpl.Sizes.{size_to_index-class_of}
use leak_detector.LeakDetectorImpl.State.{
  AllocSizeEntry, AllocInfo, Stats, LeakDetectorImpl, init, empty_entry, size_to_index,
  num_size_entries,
}
use leak_detector.Unordered.Laws.{
  lookup-insert, lookup-erase, insert-IsMap, erase-IsMap, total, length-insert-le,
}
use leak_detector.Unordered.{lookup, insert, erase}
use leak_detector.LeakDetectorImpl.Books.{
  entries-set, insert-live, insert-own, insert-other, erase-live, erase-own, erase-other,
  live_from-le,
}

-- The detector that `RecordAlloc` makes, where the entry of the size is known.
abbrev pub allocated : LeakDetectorImpl → ℕ → ℕ → AllocSizeEntry → Tracked → LeakDetectorImpl
allocated d ptr size entry t = record d {
  call_stack_manager = t.manager;
  stats = record (count_alloc size d.stats) { num_allocs_with_call_stack = t.num_with_call_stack };
  address_map = insert ptr (record { size = size; call_stack = t.call_stack }) d.address_map;
  size_entries =
      set d.size_entries (size_to_index size)
        (record entry { num_allocs = add32 entry.num_allocs 1; stack_table = t.stack_table });
}

pub allocated-IsConsistent :
    (d : LeakDetectorImpl) (ptr size : ℕ) (e : AllocSizeEntry) (t : Tracked)
    → IsConsistent d
    → lookup ptr d.address_map ≡ none
    → size < 2 ^ 33
    → length d.address_map + 1 < u32_mod
    → get_elem? d.size_entries (size_to_index size) ≡ some e
    → TrackCases e.stack_table t
    → IsConsistent (allocated d ptr size e t)
allocated-IsConsistent d ptr size e t c free lt room he cases =
    let m = d.address_map in
    let k = size_to_index size in
    let info : AllocInfo = record { size = size; call_stack = t.call_stack } in
    let old = c.entries k e he in
    record {
      width = length-set d.size_entries k _ ∙ c.width;
      is_map = insert-IsMap ptr info m c.is_map;
      small = λ a x h. ground (arith, lookup-insert a ptr info m, c.small a x);
      entries =
          entries-set d.size_entries k _ m (insert ptr info m)
            (omega (arith, (size_to_index-class_of size lt).1, c.width)) c.entries
            (record {
              net = ground (arith, old.net, insert-live m ptr info free k);
              table =
                  track-TableCounts k m (insert ptr info m) e.stack_table t
                    (λ p. omega (arith, live_from-le k p m)) (insert-own m ptr info free) old.table
                    cases;
            })
            (insert-other m ptr info free);
    }

pub record_alloc-IsConsistent :
    (d : LeakDetectorImpl) (fresh ptr size stack_depth : ℕ) (stack : List ℕ)
    → IsConsistent d
    → lookup ptr d.address_map ≡ none
    → size < 2 ^ 33
    → length d.address_map + 1 < u32_mod
    → (d' : LeakDetectorImpl) × (record_alloc d fresh ptr size stack_depth stack ≡ some d')
      × IsConsistent d'
      × (length d'.address_map ≤ length d.address_map + 1)
unfolding record_alloc
record_alloc-IsConsistent d fresh ptr size stack_depth stack c free lt room =
    let (e, he) =
      get_elem?-lt d.size_entries (size_to_index size)
        (omega (arith, (size_to_index-class_of size lt).1, c.width)) in
    let t =
      track_call_stack d.call_stack_manager d.stats.num_allocs_with_call_stack fresh stack_depth
        stack e.stack_table in
    (
      allocated d ptr size e t,
      rw (he, ◌>>=◌),
      allocated-IsConsistent d ptr size e t c free lt room he (
          track-cases d.call_stack_manager d.stats.num_allocs_with_call_stack fresh stack_depth
            stack e.stack_table),
      length-insert-le ptr (record { size = size; call_stack = t.call_stack }) d.address_map,
    )

abbrev pub freed : LeakDetectorImpl → ℕ → AllocInfo → AllocSizeEntry → LeakDetectorImpl
freed d ptr info entry = record d {
  stats = count_free info.size d.stats;
  address_map = erase ptr d.address_map;
  size_entries = set d.size_entries (size_to_index info.size) (record entry {
    num_frees = add32 entry.num_frees 1;
    stack_table = untrack_call_stack info.call_stack entry.stack_table;
  });
}

pub freed-IsConsistent :
    (d : LeakDetectorImpl) (ptr : ℕ) (info : AllocInfo) (e : AllocSizeEntry)
    → IsConsistent d
    → length d.address_map < u32_mod
    → lookup ptr d.address_map ≡ some info
    → get_elem? d.size_entries (size_to_index info.size) ≡ some e
    → IsConsistent (freed d ptr info e)
freed-IsConsistent d ptr info e c room here he =
    let m = d.address_map in
    let k = size_to_index info.size in
    let old = c.entries k e he in
    let lt = c.small ptr info here in
    record {
      width = length-set d.size_entries k _ ∙ c.width;
      is_map = erase-IsMap ptr m c.is_map;
      small = λ a x h. ground (arith, lookup-erase a ptr m c.is_map, c.small a x);
      entries =
          entries-set d.size_entries k _ m (erase ptr m)
            (omega (arith, (size_to_index-class_of info.size lt).1, c.width)) c.entries
            (record {
              net = ground (arith, old.net, erase-live m ptr info here k);
              table =
                  untrack-TableCounts k m (erase ptr m) info.call_stack e.stack_table
                    (λ p. omega (arith, live_from-le k p m)) (erase-own m ptr info here) old.table;
            })
            (erase-other m ptr info here);
    }

get_elem?-replicate :
    (n i : ℕ) (a e : AllocSizeEntry) → get_elem? (replicate n a) i ≡ some e → a ≡ e
get_elem?-replicate zero i a e h = cc
get_elem?-replicate (suc n) (suc i) a e h = get_elem?-replicate n i a e h
get_elem?-replicate (suc n) zero a e h = ap (entry_or a) h
  where
    entry_or : AllocSizeEntry → Option AllocSizeEntry → AllocSizeEntry
    entry_or d none = d
    entry_or d (some y) = y

empty_table-EntryCounts :
    (n i : ℕ) (e : AllocSizeEntry)
    → get_elem? (replicate n empty_entry) i ≡ some e
    → EntryCounts i [] e
unfolding total
empty_table-EntryCounts n i e h =
    subst (EntryCounts i []) (get_elem?-replicate n i empty_entry e h)
      (record { net = refl; table = λ p. refl })

-- The books of a new detector are in order, whatever the memory held.
pub init-IsConsistent :
    (memory : Stats) (addr size size_threshold stack_threshold : ℕ)
    → IsConsistent (init memory addr size size_threshold stack_threshold)
unfolding init lookup
init-IsConsistent memory addr size size_threshold stack_threshold = record {
  width = length-replicate num_size_entries empty_entry;
  is_map = tt;
  small = λ a info h. cc;
  entries = empty_table-EntryCounts num_size_entries;
}
