-- ===== src/CompactAddressMap/Contents.antt =====
-- The map as what it stands for: an entry, or none, for each address.
use leak_detector.Base.{
  ℕ, ◌/◌, ◌^◌, ◌<◌, ◌≡◌, refl, sym, ap, subst, ◌∙◌, inl, inr, Bool, true, ◌&&◌, List, Option, arith,
  ◌==◌, if◌then◌else◌, Bool-cases,
}
use leak_detector.CompactAddressMap.Blocks.{find_entry, AreDistinct}
use leak_detector.CompactAddressMap.Chains.{page_at}
use leak_detector.CompactAddressMap.Paths.{GotPlace}
use leak_detector.CompactAddressMap.State.{
  Entry, Page, CompactAddressMap, write, init, page_size, cluster_size,
}
use leak_detector.CompactAddressMap.Pages.{
  Place, put_page, find_cluster, subcluster_index, page_index,
}
use leak_detector.CompactAddressMap.Operations.{block_of, offset_of}

-- The entries of the block of an address, and the entry of the address.
abbrev pub block_at : CompactAddressMap → ℕ → List Entry
block_at m a = page_at m a (block_of a)

abbrev pub entry_at : CompactAddressMap → ℕ → Option Entry
entry_at m a = find_entry (offset_of a) (block_at m a)

-- No block has two entries of one offset.
abbrev pub IsValid : CompactAddressMap → Type 0
IsValid m = (a : ℕ) → a < 2 ^ 52 → AreDistinct (block_at m a)

pub init-IsValid : IsValid init
unfolding init find_cluster
init-IsValid a lt = tt

abbrev pub same_block : ℕ → ℕ → Bool
same_block b a = b / page_size == a / page_size && block_of b == block_of a

-- In one block, addresses are equal if their offsets are.
same_address : (a b : ℕ) → (b == a) ≡ (same_block b a && offset_of b == offset_of a)
same_address a b = ground arith

page_at-same :
    (m : CompactAddressMap) (a b : ℕ)
    → (b / page_size == a / page_size) ≡ true
    → page_at m b ≡ page_at m a
page_at-same m a b t =
    let clusters : b / cluster_size ≡ a / cluster_size = ground arith in
    let subclusters : subcluster_index b ≡ subcluster_index a = ground arith in
    let pages : page_index b ≡ page_index a = ground arith in rw (clusters, subclusters, pages) refl

abbrev pub written : Place × CompactAddressMap → ℕ → List Entry → CompactAddressMap
written r a entries = put_page r.1 r.0 a (write (block_of a) entries r.0.page)

-- The blocks after a write to one of them.
pub put_block :
    (m : CompactAddressMap) (a : ℕ) (r : Place × CompactAddressMap) (entries : List Entry)
    → GotPlace m a r
    → (b : ℕ) → b < 2 ^ 52
    → block_at (written r a entries) b ≡ (if same_block b a then entries else block_at m b)
put_block m a r entries g b lt =
    ap (λ (p : Page). p (block_of b)) (g.put (write (block_of a) entries r.0.page) b lt)
    ∙ elim (Bool-cases (b / page_size == a / page_size)) [
      | inl t ↦ elim (Bool-cases (block_of b == block_of a)) [
        | inl u ↦ rw (t, u) refl
        | inr f ↦
            rw (t, f) (ap (λ (p : Page). p (block_of b)) (g.page ∙ sym (page_at-same m a b t)))
      ]
      | inr f ↦ rw f refl
    ]

same_block-block_at :
    (m : CompactAddressMap) (a b : ℕ) → same_block b a ≡ true → block_at m b ≡ block_at m a
same_block-block_at m a b t =
    let page : (b / page_size == a / page_size) ≡ true = ground arith in
    let block : block_of b ≡ block_of a = ground arith in rw (page_at-same m a b page, block) refl

-- A write to the block of an address that changes what is found at its offset only.
module _ (m m' : CompactAddressMap) (a : ℕ) (entries : List Entry) (found : Option Entry)
    (writes : (b : ℕ)
      → b < 2 ^ 52
      → block_at m' b ≡ (if same_block b a then entries else block_at m b))
    (finds : (j : ℕ)
      → find_entry j entries
        ≡ (if j == offset_of a then found else find_entry j (block_at m a))) where
  pub write-entry_at :
      (b : ℕ) → b < 2 ^ 52 → entry_at m' b ≡ (if b == a then found else entry_at m b)
  write-entry_at b lt =
      ap (find_entry (offset_of b)) (writes b lt)
      ∙ rw (same_address a b) (elim (Bool-cases (same_block b a)) [
        | inl t ↦ rw (t, same_block-block_at m a b t) (finds (offset_of b))
        | inr f ↦ rw f refl
      ])

  pub write-IsValid : AreDistinct entries → IsValid m → IsValid m'
  write-IsValid d v b lt =
      subst AreDistinct (sym (writes b lt))
        (elim (Bool-cases (same_block b a)) [ inl t ↦ rw t d | inr f ↦ rw f (v b lt) ])
