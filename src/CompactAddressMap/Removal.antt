-- ===== src/CompactAddressMap/Removal.antt =====
-- What `FindAndRemove` changes.
use leak_detector.Base.{
  ℕ, ◌^◌, ◌<◌, ◌≡◌, refl, sym, ap, subst, ◌∙◌, inl, inr, List, Option, none, some, ◌==◌, ==_iff,
  if◌then◌else◌, sub64, Bool-cases,
}
use leak_detector.CompactAddressMap.Blocks.{
  find_entry, AreDistinct, UnlinkResult, unlink-UnlinkResult,
}
use leak_detector.CompactAddressMap.Paths.{GotPlace, get_page-GotPlace}
use leak_detector.CompactAddressMap.State.{Entry, Page, CompactAddressMap}
use leak_detector.CompactAddressMap.Pages.{Place, get_page}
use leak_detector.CompactAddressMap.Operations.{
  unlink, remove_in, find_and_remove, block_of, offset_of,
}
use leak_detector.CompactAddressMap.Contents.{
  block_at, entry_at, IsValid, written, put_block, write-entry_at, write-IsValid,
}

-- What `FindAndRemove` does: it gives the entry of the address, and removes it.
pub record Removed (m : CompactAddressMap) (a : ℕ) (r : Option Entry × CompactAddressMap)
    : Type 0 where
  pub valid : IsValid r.1
  pub result : r.0 ≡ entry_at m a
  pub entries : (b : ℕ) → b < 2 ^ 52 → entry_at r.1 b ≡ (if b == a then none else entry_at m b)
  pub count : r.1.num_entries ≡ elim r.0 [ none ↦ m.num_entries | some e ↦ sub64 m.num_entries 1 ]

remove_in-Removed :
    (m : CompactAddressMap) (a : ℕ) (r : Place × CompactAddressMap)
    (o : Option (Entry × List Entry))
    → a < 2 ^ 52
    → IsValid m
    → GotPlace m a r
    → UnlinkResult (offset_of a) (block_at m a) o
    → Removed m a (remove_in r.1 r.0 a o)
unfolding remove_in
remove_in-Removed m a r none lt v g h = record {
  valid =
      λ b lt'. subst (λ (p : Page). AreDistinct (p (block_of b))) (sym (g.same b lt')) (v b lt');
  result = sym h;
  entries = λ b lt'.
      ap (λ (p : Page). find_entry (offset_of b) (p (block_of b))) (g.same b lt')
      ∙ elim (Bool-cases (b == a)) [
        | inl t ↦ rw t (subst (λ k. entry_at m k ≡ none) (sym ((==_iff b a).0 t)) h)
        | inr f ↦ rw f refl
      ];
  count = g.same_count;
}
remove_in-Removed m a r (some (e, entries)) lt v g h =
    let writes = put_block m a r entries g in
    record {
      valid = write-IsValid m (written r a entries) a entries none writes h.finds h.distinct v;
      result = sym h.was;
      entries = write-entry_at m (written r a entries) a entries none writes h.finds;
      count = ap (λ n. sub64 n 1) g.same_count;
    }

-- In a valid map, `FindAndRemove` at an address below 2 ^ 52 gives its entry, or none if there is
-- none, and leaves no entry there; it changes what is found at no other address below 2 ^ 52, the
-- map stays valid, and `size()` goes down by one as a word if there was an entry.
pub find_and_remove-Removed :
    (m : CompactAddressMap) (a : ℕ) → a < 2 ^ 52 → IsValid m → Removed m a (find_and_remove m a)
unfolding find_and_remove
find_and_remove-Removed m a lt v =
    let r = get_page m a in
    let g = get_page-GotPlace m a lt in
    remove_in-Removed m a r (unlink (offset_of a) (r.0.page (block_of a))) lt v g (
      subst
        (λ (p : Page).
          UnlinkResult (offset_of a) (block_at m a) (unlink (offset_of a) (p (block_of a))))
        (sym g.page) (unlink-UnlinkResult (offset_of a) (block_at m a) (v a lt)))
