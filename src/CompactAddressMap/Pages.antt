-- ===== src/CompactAddressMap/Pages.antt =====
-- `GetCluster`, `GetSubcluster` and `GetPage`, and the writes through the pointers that they return.
use leak_detector.Base.{
  ℕ, ◌/◌, ◌%◌, List, [], ◌∷◌, Option, none, some, ◌==◌, if◌then◌else◌, add64, u32_mod,
}
use leak_detector.CompactAddressMap.State.{
  Stats, page_size, subcluster_size, cluster_size, cluster_hash_table_size, Page, Subcluster,
  Cluster, CompactAddressMap, write, new_bytes,
}

-- The loop of `GetCluster`.
unfoldable pub find_cluster : ℕ → List Cluster → Option Cluster
find_cluster id [] = none
find_cluster id (c ∷ chain) = if c.id == id then some c else find_cluster id chain

-- A new cluster, whose field for the id is a `uint32_t`.
abbrev pub new_cluster : ℕ → Cluster
new_cluster id = record { id = id % u32_mod; subclusters = λ index. none }

abbrev pub index_of : ℕ → ℕ
index_of id = id % cluster_hash_table_size

unfoldable pub add_cluster : CompactAddressMap → ℕ → Option Cluster → Cluster × CompactAddressMap
add_cluster m id (some c) = (c, m)
add_cluster m id none =
    let s = new_bytes 1 144 m.stats in
    (
      new_cluster id,
      record m {
        cluster_hash_table =
            write (index_of id) (new_cluster id ∷ m.cluster_hash_table (index_of id))
              m.cluster_hash_table;
        stats = record s { num_clusters = add64 s.num_clusters 1 };
      },
    )

-- `GetCluster`: the cluster, and the map in which it is.
unfoldable pub get_cluster : CompactAddressMap → ℕ → Cluster × CompactAddressMap
unfolding add_cluster find_cluster
get_cluster m addr =
    let id = addr / cluster_size in
    add_cluster m id (find_cluster id (m.cluster_hash_table (index_of id)))

-- A write to the cluster that `GetCluster` returned: the first of the id or, if there is none, the
-- new one, which is the first of the chain.
unfoldable pub replace_cluster : ℕ → Cluster → List Cluster → Option (List Cluster)
replace_cluster id c [] = none
replace_cluster id c (d ∷ chain) =
    if d.id == id
    then some (c ∷ chain)
    else elim (replace_cluster id c chain) [ none ↦ none | some chain' ↦ some (d ∷ chain') ]

unfoldable pub tail_of : List Cluster → List Cluster
tail_of [] = []
tail_of (c ∷ chain) = chain

unfoldable pub put_chain : Cluster → List Cluster → Option (List Cluster) → List Cluster
unfolding tail_of
put_chain c chain none = c ∷ tail_of chain
put_chain c chain (some chain') = chain'

unfoldable pub put_cluster : CompactAddressMap → ℕ → Cluster → CompactAddressMap
unfolding put_chain replace_cluster
put_cluster m id c = record m {
  cluster_hash_table =
      write (index_of id)
        (put_chain c (m.cluster_hash_table (index_of id))
          (replace_cluster id c (m.cluster_hash_table (index_of id))))
        m.cluster_hash_table;
}

unfoldable pub add_subcluster :
    Cluster → ℕ → Stats → Option Subcluster → Subcluster × Cluster × Stats
add_subcluster c index stats (some subcluster) = (subcluster, c, stats)
add_subcluster c index stats none =
    let s = new_bytes 1 128 stats in
    let subcluster : Subcluster = λ i. none in
    (
      subcluster,
      record c { subclusters = write index (some subcluster) c.subclusters },
      record s { num_subclusters = add64 s.num_subclusters 1 },
    )

abbrev pub subcluster_index : ℕ → ℕ
subcluster_index addr = addr % cluster_size / subcluster_size

abbrev pub page_index : ℕ → ℕ
page_index addr = addr % subcluster_size / page_size

-- `GetSubcluster`: the subcluster, with the cluster and the statistics after it.
unfoldable pub get_subcluster : Cluster → ℕ → Stats → Subcluster × Cluster × Stats
unfolding add_subcluster
get_subcluster c addr stats =
    add_subcluster c (subcluster_index addr) stats (c.subclusters (subcluster_index addr))

unfoldable pub add_page : Subcluster → ℕ → Stats → Option Page → Page × Subcluster × Stats
add_page subcluster index stats (some page) = (page, subcluster, stats)
add_page subcluster index stats none =
    let s = new_bytes 1 128 stats in
    let page : Page = λ block. [] in
    (page, write index (some page) subcluster, record s { num_pages = add64 s.num_pages 1 })

-- The part of `GetPage` that finds or makes the page of a subcluster.
unfoldable pub get_page_in : Subcluster → ℕ → Stats → Page × Subcluster × Stats
unfolding add_page
get_page_in subcluster addr stats =
    add_page subcluster (page_index addr) stats (subcluster (page_index addr))

-- The cluster with another subcluster for an address, and the subcluster with another page.
abbrev pub put_subcluster : Cluster → ℕ → Subcluster → Cluster
put_subcluster c addr subcluster = record c {
  subclusters = write (subcluster_index addr) (some subcluster) c.subclusters;
}

abbrev pub put_page_in : Subcluster → ℕ → Page → Subcluster
put_page_in subcluster addr page = write (page_index addr) (some page) subcluster

-- Where the page of an address is: the objects that the pointers on the way to it point to.
pub record Place : Type 0 where
  pub cluster : Cluster
  pub subcluster : Subcluster
  pub page : Page

-- `GetPage`: the page, and the map in which it is.
unfoldable pub get_page : CompactAddressMap → ℕ → Place × CompactAddressMap
unfolding get_cluster get_subcluster get_page_in put_cluster
get_page m addr =
    let (c, m1) = get_cluster m addr in
    let (sub, c1, s1) = get_subcluster c addr m1.stats in
    let (page, sub1, s2) = get_page_in sub addr s1 in
    let cluster = put_subcluster c1 addr sub1 in
    (
      record { cluster = cluster; subcluster = sub1; page = page },
      record (put_cluster m1 (addr / cluster_size) cluster) { stats = s2 },
    )

-- A write to the page that `GetPage` returned.
unfoldable pub put_page : CompactAddressMap → Place → ℕ → Page → CompactAddressMap
unfolding put_cluster
put_page m place addr page =
    put_cluster m (addr / cluster_size)
      (put_subcluster place.cluster addr (put_page_in place.subcluster addr page))
