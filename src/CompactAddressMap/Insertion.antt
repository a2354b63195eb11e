-- ===== src/CompactAddressMap/Insertion.antt =====
-- What `Insert` changes.
use leak_detector.Base.{
  ℕ, ◌^◌, ◌<◌, ◌≡◌, sym, ap, subst, List, ◌∷◌, Option, none, some, arith, ◌==◌, if◌then◌else◌,
  add64,
}
use leak_detector.CompactAddressMap.Blocks.{
  find_entry, Lacks, AreDistinct, find_entry-Lacks, IsStored, store-IsStored, OverwriteResult,
  overwrite-OverwriteResult,
}
use leak_detector.CompactAddressMap.Paths.{GotPlace, get_page-GotPlace}
use leak_detector.CompactAddressMap.State.{Entry, Page, CompactAddressMap, store}
use leak_detector.CompactAddressMap.Pages.{Place, get_page}
use leak_detector.CompactAddressMap.Operations.{
  take_free, overwrite, insert_in, insert, block_of, offset_of,
}
use leak_detector.CompactAddressMap.Contents.{
  block_at, entry_at, IsValid, written, put_block, write-entry_at, write-IsValid,
}

-- What `Insert` does: the map has one entry more or another one, at the address, with what was
-- stored, and `size()` goes up by one.
pub record Inserted (m : CompactAddressMap) (a size : ℕ) (hash : Option ℕ) (m' : CompactAddressMap)
    : Type 0 where
  pub valid : IsValid m'
  pub entry : Entry
  pub stored : IsStored (offset_of a) size hash entry
  pub entries : (b : ℕ) → b < 2 ^ 52 → entry_at m' b ≡ (if b == a then some entry else entry_at m b)
  pub count : m'.num_entries ≡ add64 m.num_entries 1

stored_cons-finds :
    (a size : ℕ) (hash : Option ℕ) (e : Entry) (entries : List Entry) (j : ℕ)
    → find_entry j (store a size hash e ∷ entries)
      ≡ (if j == a then some (store a size hash e) else find_entry j entries)
unfolding find_entry
stored_cons-finds a size hash e entries j = ground (arith, (store-IsStored a size hash e).at_offset)

stored_cons-AreDistinct :
    (a size : ℕ) (hash : Option ℕ) (e : Entry) (entries : List Entry)
    → find_entry a entries ≡ none
    → AreDistinct entries
    → AreDistinct (store a size hash e ∷ entries)
stored_cons-AreDistinct a size hash e entries h d = (
  subst (λ (k : ℕ). Lacks k entries) (sym (store-IsStored a size hash e).at_offset)
      (find_entry-Lacks a entries h),
  d,
)

insert_in-Inserted :
    (m : CompactAddressMap) (a size : ℕ) (hash : Option ℕ) (r : Place × CompactAddressMap)
    (o : Option (ℕ × List Entry))
    → a < 2 ^ 52
    → IsValid m
    → GotPlace m a r
    → OverwriteResult (offset_of a) size hash (block_at m a) o
    → Inserted m a size hash (insert_in r.1 r.0 a size hash o)
unfolding insert_in
insert_in-Inserted m a size hash r (some (n, entries)) lt v g h =
    let e = store (offset_of a) size hash h.entry in
    let writes = put_block m a r entries g in
    record {
      valid =
          write-IsValid m (written r a entries) a entries (some e) writes h.finds
            (h.distinct (v a lt)) v;
      entry = e;
      stored = store-IsStored (offset_of a) size hash h.entry;
      entries = write-entry_at m (written r a entries) a entries (some e) writes h.finds;
      count = ap (λ n. add64 n 1) g.same_count;
    }
insert_in-Inserted m a size hash r none lt v g h =
    let old = (take_free r.1.free_entries r.1.stats).0 in
    let e = store (offset_of a) size hash old in
    let entries = e ∷ r.0.page (block_of a) in
    let block : block_at m a ≡ r.0.page (block_of a) =
      ap (λ (p : Page). p (block_of a)) (sym g.page) in
    let writes = put_block m a r entries g in
    let finds =
      subst
        (λ (es : List Entry).
          (j : ℕ) → find_entry j entries ≡ (if j == offset_of a then some e else find_entry j es))
        (sym block) (stored_cons-finds (offset_of a) size hash old (r.0.page (block_of a))) in
    record {
      valid =
          write-IsValid m (written r a entries) a entries (some e) writes finds
            (stored_cons-AreDistinct (offset_of a) size hash old (r.0.page (block_of a))
              (subst (λ (es : List Entry). find_entry (offset_of a) es ≡ none) block h)
              (subst AreDistinct block (v a lt)))
            v;
      entry = e;
      stored = store-IsStored (offset_of a) size hash old;
      entries = write-entry_at m (written r a entries) a entries (some e) writes finds;
      count = ap (λ n. add64 n 1) g.same_count;
    }

-- In a valid map, `Insert` at an address below 2 ^ 52, in a new page or an old one, of a new entry
-- or over an old one, stores the entry there and changes what is found at no other address below 2
-- ^ 52; the map stays valid, and `size()` goes up by one as a word.
pub insert-Inserted :
    (m : CompactAddressMap) (a size : ℕ) (hash : Option ℕ)
    → a < 2 ^ 52
    → IsValid m
    → Inserted m a size hash (insert m a size hash)
unfolding insert
insert-Inserted m a size hash lt v =
    let r = get_page m a in
    let g = get_page-GotPlace m a lt in
    insert_in-Inserted m a size hash r (overwrite (offset_of a) size hash (r.0.page (block_of a)))
      lt v g
      (subst
        (λ (p : Page).
          OverwriteResult (offset_of a) size hash (block_at m a)
            (overwrite (offset_of a) size hash (p (block_of a))))
        (sym g.page) (overwrite-OverwriteResult (offset_of a) size hash (block_at m a)))
