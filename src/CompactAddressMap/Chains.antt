-- ===== src/CompactAddressMap/Chains.antt =====
-- The chains of clusters: what `GetCluster` finds, and what a write to a cluster changes.
use leak_detector.Base.{
  ℕ, ◌/◌, ◌%◌, ◌^◌, ◌<◌, ◌≡◌, refl, sym, ap, subst, ◌⊎◌, inl, inr, true, false, ◌&&◌, List, [], ◌∷◌,
  Option, none, some, arith, ◌∙◌, ◌==◌, ==_iff, if◌then◌else◌, u32_mod, Bool-cases, Option-cases,
}
use leak_detector.CompactAddressMap.State.{
  Page, Subcluster, Cluster, CompactAddressMap, cluster_size, page_size,
}
use leak_detector.CompactAddressMap.Pages.{
  find_cluster, new_cluster, index_of, add_cluster, subcluster_index, page_index, get_cluster,
  replace_cluster, put_chain, put_cluster,
}

-- What is read where there is no object.
abbrev pub page_or_empty : Option Page → Page
page_or_empty none = λ block. []
page_or_empty (some page) = page

abbrev pub subcluster_or_empty : Option Subcluster → Subcluster
subcluster_or_empty none = λ index. none
subcluster_or_empty (some subcluster) = subcluster

abbrev pub cluster_or_new : ℕ → Option Cluster → Cluster
cluster_or_new id none = new_cluster id
cluster_or_new id (some c) = c

-- The page of an address in its cluster, and in the map.
abbrev pub page_in : Cluster → ℕ → Page
page_in c addr =
    page_or_empty (subcluster_or_empty (c.subclusters (subcluster_index addr)) (page_index addr))

abbrev pub cluster_at : CompactAddressMap → ℕ → Cluster
cluster_at m id = cluster_or_new id (find_cluster id (m.cluster_hash_table (index_of id)))

abbrev pub page_at : CompactAddressMap → ℕ → Page
page_at m addr = page_in (cluster_at m (addr / cluster_size)) addr

-- Two addresses are of one page if all indices on the way are the same.
pub same_page :
    (a b : ℕ)
    → (b / page_size == a / page_size) ≡ (
        b / cluster_size == a / cluster_size
        && subcluster_index b == subcluster_index a
        && page_index b == page_index a)
same_page a b = ground arith

find_cluster-id :
    (id : ℕ) (c : Cluster) (chain : List Cluster) → find_cluster id chain ≡ some c → c.id ≡ id
unfolding find_cluster
find_cluster-id id c [] h = cc
find_cluster-id id c (d ∷ chain) h = elim (Bool-cases (d.id == id)) [
  | inl t ↦ ground arith
  | inr f ↦ find_cluster-id id c chain (ground arith)
]

-- The replacement of a cluster that is there: all others are still found.
replace_cluster-found :
    (id : ℕ) (x c : Cluster) (chain : List Cluster)
    → c.id ≡ id
    → find_cluster id chain ≡ some x
    → (chain' : List Cluster) × (replace_cluster id c chain ≡ some chain')
      × ((j : ℕ) → find_cluster j chain' ≡ (if j == id then some c else find_cluster j chain))
unfolding find_cluster replace_cluster
replace_cluster-found id x c [] e h = cc
replace_cluster-found id x c (d ∷ chain) e h = elim (Bool-cases (d.id == id)) [
  | inl t ↦ (c ∷ chain, rw t, λ j. ground arith)
  | inr f ↦
      let (chain', run, found) = replace_cluster-found id x c chain e (ground arith) in
      (d ∷ chain', rw (f, run), λ j. ground (arith, found j))
]

-- A write to a cluster that is in the map.
pub put_cluster-found :
    (m : CompactAddressMap) (id : ℕ) (x c : Cluster)
    → c.id ≡ id
    → find_cluster id (m.cluster_hash_table (index_of id)) ≡ some x
    → (j : ℕ)
    → find_cluster j ((put_cluster m id c).cluster_hash_table (index_of j))
      ≡ (if j == id then some c else find_cluster j (m.cluster_hash_table (index_of j)))
unfolding put_cluster put_chain
put_cluster-found m id x c e h j =
    let (chain', run, found) =
      replace_cluster-found id x c (m.cluster_hash_table (index_of id)) e h in
    rw run (split chain' (found j) (Bool-cases (index_of j == index_of id)))
  where
    split :
        (chain' : List Cluster)
        → find_cluster j chain'
          ≡ (if j == id then some c else find_cluster j (m.cluster_hash_table (index_of id)))
        → (((index_of j == index_of id) ≡ true) ⊎ ((index_of j == index_of id) ≡ false))
        → find_cluster j
            (if index_of j == index_of id then chain' else m.cluster_hash_table (index_of j))
          ≡ (if j == id then some c else find_cluster j (m.cluster_hash_table (index_of j)))
    split chain' k (inl t) = rw (t, (==_iff (index_of j) (index_of id)).0 t) k
    split chain' k (inr f) = elim (Bool-cases (j == id)) [
      | inl u ↦
          absurd (
            ground (arith, (==_iff (index_of j) (index_of id)).1 (ap index_of ((==_iff j id).0 u))))
      | inr u ↦ rw (f, u) refl
    ]

-- What `GetCluster` does for an id of 32 bits: no cluster is changed, and that of the id is there.
pub record GotCluster (m : CompactAddressMap) (id : ℕ) (r : Cluster × CompactAddressMap)
    : Type 0 where
  pub cluster : r.0 ≡ cluster_at m id
  pub is_id : r.0.id ≡ id
  pub found : find_cluster id (r.1.cluster_hash_table (index_of id)) ≡ some r.0
  pub same : (j : ℕ) → j < u32_mod → cluster_at r.1 j ≡ cluster_at m j

new-GotCluster :
    (m : CompactAddressMap) (id : ℕ)
    → id < u32_mod
    → find_cluster id (m.cluster_hash_table (index_of id)) ≡ none
    → GotCluster m id (add_cluster m id none)
unfolding add_cluster find_cluster
new-GotCluster m id lt miss = record {
  cluster = rw miss refl;
  is_id = omega arith;
  found = ground arith;
  same = λ j lt'. other j (Bool-cases (j == id)) (Bool-cases (index_of j == index_of id));
}
  where
    own : cluster_at (add_cluster m id none).1 id ≡ cluster_at m id
    own =
        let hit : (index_of id == index_of id) ≡ true = ground arith in
        let first : (id % u32_mod == id) ≡ true = ground (arith, lt) in rw (hit, first, miss) refl

    other :
        (j : ℕ)
        → (((j == id) ≡ true) ⊎ ((j == id) ≡ false))
        → (((index_of j == index_of id) ≡ true) ⊎ ((index_of j == index_of id) ≡ false))
        → cluster_at (add_cluster m id none).1 j ≡ cluster_at m j
    other j (inl t) s =
        subst (λ k. cluster_at (add_cluster m id none).1 k ≡ cluster_at m k)
          (sym ((==_iff j id).0 t)) own
    other j (inr f) (inl s) =
        let chain : find_cluster j (m.cluster_hash_table (index_of j))
            ≡ find_cluster j (m.cluster_hash_table (index_of id)) =
          ap (λ i. find_cluster j (m.cluster_hash_table i))
            ((==_iff (index_of j) (index_of id)).0 s) in
        let apart : (id % u32_mod == j) ≡ false = ground (arith, f, lt) in
        rw (s, apart) (ap (cluster_or_new j) (sym chain))
    other j (inr f) (inr s) = rw s refl

pub get_cluster-GotCluster :
    (m : CompactAddressMap) (addr : ℕ)
    → addr < 2 ^ 52
    → GotCluster m (addr / cluster_size) (get_cluster m addr)
unfolding get_cluster add_cluster find_cluster
get_cluster-GotCluster m addr lt =
    let id = addr / cluster_size in
    elim (Option-cases (find_cluster id (m.cluster_hash_table (index_of id)))) [
      | inl miss ↦ rw miss (new-GotCluster m id (omega arith) miss)
      | inr (c, h) ↦ rw h (record {
        cluster = rw h refl;
        is_id = find_cluster-id id c (m.cluster_hash_table (index_of id)) h;
        found = h;
        same = λ j lt'. refl;
      })
    ]

-- A write to a cluster changes the pages of that cluster.
pub page_at-put_cluster :
    (m : CompactAddressMap) (id : ℕ) (x c : Cluster)
    → c.id ≡ id
    → find_cluster id (m.cluster_hash_table (index_of id)) ≡ some x
    → (b : ℕ)
    → page_at (put_cluster m id c) b ≡ (if b / cluster_size == id then page_in c b else page_at m b)
page_at-put_cluster m id x c e h b =
    ap (λ o. page_in (cluster_or_new (b / cluster_size) o) b)
      (put_cluster-found m id x c e h (b / cluster_size))
    ∙ elim (Bool-cases (b / cluster_size == id)) [ inl t ↦ rw t refl | inr f ↦ rw f refl ]
