-- ===== src/CompactAddressMap/Paths.antt =====
-- The way to a page: what `GetPage` finds, and what a write to the page changes.
use leak_detector.Base.{
  ℕ, ◌/◌, ◌^◌, ◌<◌, ◌≡◌, refl, sym, ap, subst, ◌∙◌, inl, inr, true, ◌&&◌, Option, none, some, arith,
  ◌==◌, ==_iff, if◌then◌else◌, Bool-cases,
}
use leak_detector.CompactAddressMap.State.{
  Stats, Page, Subcluster, Cluster, CompactAddressMap, cluster_size, page_size,
}
use leak_detector.CompactAddressMap.Pages.{
  Place, find_cluster, index_of, add_cluster, add_subcluster, add_page, subcluster_index,
  page_index, get_cluster, put_cluster, get_subcluster, get_page_in, put_subcluster, put_page_in,
  get_page, put_page,
}
use leak_detector.CompactAddressMap.Chains.{
  page_or_empty, subcluster_or_empty, page_in, cluster_at, page_at, same_page, put_cluster-found,
  GotCluster, get_cluster-GotCluster, page_at-put_cluster,
}

-- What `GetSubcluster` and the rest of `GetPage` do to one cluster.
record GotSubcluster (c : Cluster) (index : ℕ) (r : Subcluster × Cluster × Stats) : Type 0 where
  is_id : r.1.id ≡ c.id
  subcluster : r.0 ≡ subcluster_or_empty (c.subclusters index)
  same : (k : ℕ) → subcluster_or_empty (r.1.subclusters k) ≡ subcluster_or_empty (c.subclusters k)

add_subcluster-GotSubcluster :
    (c : Cluster) (index : ℕ) (stats : Stats) (o : Option Subcluster)
    → c.subclusters index ≡ o
    → GotSubcluster c index (add_subcluster c index stats o)
unfolding add_subcluster
add_subcluster-GotSubcluster c index stats (some sub) h = record {
  is_id = refl;
  subcluster = rw h refl;
  same = λ k. refl;
}
add_subcluster-GotSubcluster c index stats none h = record {
  is_id = refl;
  subcluster = rw h refl;
  same = λ k. elim (Bool-cases (k == index)) [
    | inl t ↦ rw (t, (==_iff k index).0 t, h) refl
    | inr f ↦ rw f refl
  ];
}

record GotPage (sub : Subcluster) (index : ℕ) (s : Page × Subcluster × Stats) : Type 0 where
  page : s.0 ≡ page_or_empty (sub index)
  same : (k : ℕ) → page_or_empty (s.1 k) ≡ page_or_empty (sub k)

add_page-GotPage :
    (sub : Subcluster) (index : ℕ) (stats : Stats) (o : Option Page)
    → sub index ≡ o
    → GotPage sub index (add_page sub index stats o)
unfolding add_page
add_page-GotPage sub index stats (some page) h = record { page = rw h refl; same = λ k. refl }
add_page-GotPage sub index stats none h = record {
  page = rw h refl;
  same = λ k. elim (Bool-cases (k == index)) [
    | inl t ↦ rw (t, (==_iff k index).0 t, h) refl
    | inr f ↦ rw f refl
  ];
}

module _ (c : Cluster) (addr : ℕ) (r : Subcluster × Cluster × Stats) (s : Page × Subcluster × Stats)
    (g : GotSubcluster c (subcluster_index addr) r) (h : GotPage r.0 (page_index addr) s) where
  page_in-got : s.0 ≡ page_in c addr
  page_in-got = h.page ∙ ap (λ (x : Subcluster). page_or_empty (x (page_index addr))) g.subcluster

  page_in-same : (b : ℕ) → page_in (put_subcluster r.1 addr s.1) b ≡ page_in c b
  page_in-same b = elim (Bool-cases (subcluster_index b == subcluster_index addr)) [
    | inl t ↦
        rw (t, (==_iff (subcluster_index b) (subcluster_index addr)).0 t)
          (h.same (page_index b)
            ∙ ap (λ (x : Subcluster). page_or_empty (x (page_index b))) g.subcluster)
    | inr f ↦
        rw f
          (ap (λ (x : Subcluster). page_or_empty (x (page_index b))) (g.same (subcluster_index b)))
  ]

  page_in-put :
      (p : Page) (b : ℕ)
      → page_in (put_subcluster (put_subcluster r.1 addr s.1) addr (put_page_in s.1 addr p)) b ≡ (
          if subcluster_index b == subcluster_index addr && page_index b == page_index addr
          then p
          else page_in c b)
  page_in-put p b = elim (Bool-cases (subcluster_index b == subcluster_index addr)) [
    | inl t ↦ elim (Bool-cases (page_index b == page_index addr)) [
      | inl u ↦ rw (t, u) refl
      | inr f ↦
          rw (t, f)
            (subst
              (λ (k : ℕ).
                page_or_empty (s.1 (page_index b))
                ≡ page_or_empty (subcluster_or_empty (c.subclusters k) (page_index b)))
              (sym ((==_iff (subcluster_index b) (subcluster_index addr)).0 t))
              (h.same (page_index b)
                ∙ ap (λ (x : Subcluster). page_or_empty (x (page_index b))) g.subcluster))
    ]
    | inr f ↦
        rw f
          (ap (λ (x : Subcluster). page_or_empty (x (page_index b))) (g.same (subcluster_index b)))
  ]

-- What `GetPage` finds, for an address below 2 ^ 52, and what a write to the page changes.
pub record GotPlace (m : CompactAddressMap) (addr : ℕ) (r : Place × CompactAddressMap)
    : Type 0 where
  pub page : r.0.page ≡ page_at m addr
  pub same : (b : ℕ) → b < 2 ^ 52 → page_at r.1 b ≡ page_at m b
  pub put :
      (p : Page) (b : ℕ)
      → b < 2 ^ 52
      → page_at (put_page r.1 r.0 addr p) b
        ≡ (if b / page_size == addr / page_size then p else page_at m b)
  pub same_free : r.1.free_entries ≡ m.free_entries
  pub same_count : r.1.num_entries ≡ m.num_entries

get_cluster-rest :
    (m : CompactAddressMap) (id : ℕ) (o : Option Cluster)
    → ((add_cluster m id o).1.free_entries ≡ m.free_entries)
      × ((add_cluster m id o).1.num_entries ≡ m.num_entries)
unfolding add_cluster
get_cluster-rest m id none = (refl, refl)
get_cluster-rest m id (some c) = (refl, refl)

-- The page of an address after the two writes to its cluster, the second of which writes the page.
module _ (m q : CompactAddressMap) (addr : ℕ) (old cluster last : Cluster) (p : Page)
    (lt : addr < 2 ^ 52) (g : GotCluster m (addr / cluster_size) (old, q))
    (is_id : cluster.id ≡ addr / cluster_size)
    (same_pages : (b : ℕ) → page_in cluster b ≡ page_in old b) where
  own_page :
      (b : ℕ) → (b / cluster_size == addr / cluster_size) ≡ true → page_in old b ≡ page_at m b
  own_page b t =
      subst (λ (k : ℕ). page_in old b ≡ page_in (cluster_at m k) b)
        (sym ((==_iff (b / cluster_size) (addr / cluster_size)).0 t))
        (ap (λ (c : Cluster). page_in c b) g.cluster)

  first_write :
      (b : ℕ) → b < 2 ^ 52 → page_at (put_cluster q (addr / cluster_size) cluster) b ≡ page_at m b
  first_write b lt' =
      page_at-put_cluster q (addr / cluster_size) old cluster is_id g.found b
      ∙ elim (Bool-cases (b / cluster_size == addr / cluster_size)) [
        | inl t ↦ rw t (same_pages b ∙ own_page b t)
        | inr f ↦ rw f (ap (λ (c : Cluster). page_in c b) (g.same (b / cluster_size) (omega arith)))
      ]

  first_found :
      find_cluster (addr / cluster_size) (
        (put_cluster q (addr / cluster_size) cluster).cluster_hash_table
          (index_of (addr / cluster_size)))
      ≡ some cluster
  first_found =
      put_cluster-found q (addr / cluster_size) old cluster is_id g.found (addr / cluster_size)
      ∙ (let hit : (addr / cluster_size == addr / cluster_size) ≡ true = ground arith in
          rw hit refl)

  second_write :
      last.id ≡ addr / cluster_size
      → ((b : ℕ)
          → page_in last b ≡ (
              if subcluster_index b == subcluster_index addr && page_index b == page_index addr
              then p
              else page_in old b))
      → (b : ℕ) → b < 2 ^ 52
      → page_at
          (put_cluster (put_cluster q (addr / cluster_size) cluster) (addr / cluster_size) last)
          b
        ≡ (if b / page_size == addr / page_size then p else page_at m b)
  second_write last_id pages b lt' =
      page_at-put_cluster (put_cluster q (addr / cluster_size) cluster) (addr / cluster_size)
        cluster last last_id first_found b
      ∙ rw (same_page addr b) (elim (Bool-cases (b / cluster_size == addr / cluster_size)) [
        | inl t ↦ rw t (
            pages b
            ∙ ap
                (λ (x : Page).
                  if subcluster_index b == subcluster_index addr && page_index b == page_index addr
                  then p
                  else x)
                (own_page b t))
        | inr f ↦ rw f (first_write b lt')
      ])

pub get_page-GotPlace :
    (m : CompactAddressMap) (addr : ℕ) → addr < 2 ^ 52 → GotPlace m addr (get_page m addr)
unfolding get_page get_subcluster get_page_in put_page get_cluster put_cluster
get_page-GotPlace m addr lt =
    let id = addr / cluster_size in
    let q = get_cluster m addr in
    let gc = get_cluster-GotCluster m addr lt in
    let r = get_subcluster q.0 addr q.1.stats in
    let s = get_page_in r.0 addr r.2 in
    let gs =
      add_subcluster-GotSubcluster q.0 (subcluster_index addr) q.1.stats
        (q.0.subclusters (subcluster_index addr)) refl in
    let gp = add_page-GotPage r.0 (page_index addr) r.2 (r.0 (page_index addr)) refl in
    let cluster = put_subcluster r.1 addr s.1 in
    let rest = get_cluster-rest m id (find_cluster id (m.cluster_hash_table (index_of id))) in
    record {
      page = page_in-got q.0 addr r s gs gp ∙ ap (λ (c : Cluster). page_in c addr) gc.cluster;
      same = λ b lt'.
          first_write m q.1 addr q.0 cluster cluster (page_at m addr) lt gc (gs.is_id ∙ gc.is_id)
            (page_in-same q.0 addr r s gs gp) b lt';
      put = λ p b lt'.
          second_write m q.1 addr q.0 cluster (put_subcluster cluster addr (put_page_in s.1 addr p))
            p lt gc (gs.is_id ∙ gc.is_id) (page_in-same q.0 addr r s gs gp) (gs.is_id ∙ gc.is_id)
            (page_in-put q.0 addr r s gs gp p) b lt';
      same_free = rest.0;
      same_count = rest.1;
    }
