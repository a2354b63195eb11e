-- ===== src/CompactAddressMap/Operations.antt =====
-- `Insert` and `FindAndRemove`.
use leak_detector.Base.{
  ℕ, suc, ◌/◌, ◌%◌, List, [], ◌∷◌, Option, none, some, ltb, ◌==◌, if◌then◌else◌, length, replicate,
  add64, sub64,
}
use leak_detector.CompactAddressMap.State.{
  Stats, Entry, zero_entry, store, block_size, page_size, entry_bulk_alloc_count, CompactAddressMap,
  write, new_bytes,
}
use leak_detector.CompactAddressMap.Pages.{Place, get_page, put_page}

abbrev pub block_of : ℕ → ℕ
block_of addr = addr % page_size / block_size

abbrev pub offset_of : ℕ → ℕ
offset_of addr = addr % block_size

-- The loop of `Insert` over the entries of a block: the number of steps to the entry of an offset,
-- and the entries after the write to it.
unfoldable pub overwrite : ℕ → ℕ → Option ℕ → List Entry → Option (ℕ × List Entry)
overwrite offset size hash [] = none
overwrite offset size hash (e ∷ entries) =
    if e.offset == offset
    then some (1, store offset size hash e ∷ entries)
    else elim (overwrite offset size hash entries) [
      | none ↦ none
      | some r ↦ some (suc r.0, e ∷ r.1)
    ]

-- An entry from the free list, which gets a batch of entries if it is empty.
unfoldable pub take_free : List Entry → Stats → Entry × List Entry × Stats
take_free [] stats =
    let s = new_bytes entry_bulk_alloc_count 16 stats in
    (
      zero_entry,
      replicate 63 zero_entry,
      record s { num_entries = add64 s.num_entries entry_bulk_alloc_count },
    )
take_free (e ∷ free) stats = (e, free, stats)

abbrev pub count_steps : ℕ → Stats → Stats
count_steps n s = record s { max_num_steps = if ltb s.max_num_steps n then n else s.max_num_steps }

unfoldable pub insert_in :
    CompactAddressMap → Place → ℕ → ℕ → Option ℕ → Option (ℕ × List Entry) → CompactAddressMap
unfolding put_page overwrite take_free store
insert_in m place addr size hash (some (num_steps, entries)) =
    record (put_page m place addr (write (block_of addr) entries place.page)) {
      stats = count_steps num_steps m.stats;
      num_entries = add64 m.num_entries 1;
    }
insert_in m place addr size hash none =
    let entries = place.page (block_of addr) in
    let (entry, free, s) = take_free m.free_entries m.stats in
    let entries' = store (offset_of addr) size hash entry ∷ entries in
    record (put_page m place addr (write (block_of addr) entries' place.page)) {
      free_entries = free;
      stats = count_steps (length entries) s;
      num_entries = add64 m.num_entries 1;
    }

-- `Insert`; the size is a `uint16_t`, and `hash` is none for a null pointer.
unfoldable pub insert : CompactAddressMap → ℕ → ℕ → Option ℕ → CompactAddressMap
unfolding get_page insert_in
insert m addr size hash =
    let (place, m1) = get_page m addr in
    insert_in m1 place addr size hash
      (overwrite (offset_of addr) size hash (place.page (block_of addr)))

-- The loop of `FindAndRemove`: the first entry of an offset, and the entries without it.
unfoldable pub unlink : ℕ → List Entry → Option (Entry × List Entry)
unlink offset [] = none
unlink offset (e ∷ entries) =
    if e.offset == offset
    then some (e, entries)
    else elim (unlink offset entries) [ none ↦ none | some r ↦ some (r.0, e ∷ r.1) ]

unfoldable pub remove_in :
    CompactAddressMap → Place → ℕ → Option (Entry × List Entry) → Option Entry × CompactAddressMap
unfolding put_page unlink
remove_in m place addr none = (none, m)
remove_in m place addr (some (entry, entries)) = (
  some entry,
  record (put_page m place addr (write (block_of addr) entries place.page)) {
    free_entries = entry ∷ m.free_entries;
    num_entries = sub64 m.num_entries 1;
  },
)

-- `FindAndRemove`: `*result` if it returns true.
unfoldable pub find_and_remove : CompactAddressMap → ℕ → Option Entry × CompactAddressMap
unfolding get_page remove_in
find_and_remove m addr =
    let (place, m1) = get_page m addr in
    remove_in m1 place addr (unlink (offset_of addr) (place.page (block_of addr)))
