-- ===== src/CompactAddressMap/State.antt =====
-- The data of the map, the sizes of its parts, and the constructor.
use leak_detector.Base.{
  ℕ, ◌+◌, ◌*◌, ◌/◌, ◌%◌, ◌^◌, Bool, true, false, List, [], Option, none, some, ◌==◌, if◌then◌else◌,
  add64,
}

-- `CompactAddressMap::Stats`.
pub record Stats : Type 0 where
  pub heap_size : ℕ
  pub num_clusters : ℕ
  pub num_subclusters : ℕ
  pub num_pages : ℕ
  pub num_entries : ℕ
  pub max_num_steps : ℕ

pub record Entry : Type 0 where
  pub size : ℕ
  pub has_call_stack : Bool
  pub offset : ℕ
  pub call_stack_hash : ℕ

abbrev pub zero_entry : Entry
zero_entry = record { size = 0; has_call_stack = false; offset = 0; call_stack_hash = 0 }

-- `Entry::Store`. Its parameter for the size is a `uint8_t`; without a hash the old one stays.
unfoldable pub store : ℕ → ℕ → Option ℕ → Entry → Entry
store offset size none e = record e { offset = offset; size = size % 256; has_call_stack = false }
store offset size (some hash) e = record {
  offset = offset;
  size = size % 256;
  has_call_stack = true;
  call_stack_hash = hash;
}

-- The sizes of a block, a page, a subcluster and a cluster, and of the hash table.
abbrev pub block_size : ℕ
block_size = 256

abbrev pub page_size : ℕ
page_size = 16 * 256

abbrev pub subcluster_size : ℕ
subcluster_size = 16 * (16 * 256)

abbrev pub cluster_size : ℕ
cluster_size = 16 * (16 * (16 * 256))

abbrev pub cluster_hash_table_size : ℕ
cluster_hash_table_size = 2 ^ 32 / cluster_size

-- `kEntryBulkAllocCount`.
abbrev pub entry_bulk_alloc_count : ℕ
entry_bulk_alloc_count = 64

abbrev pub Page : Type 0
Page = ℕ → List Entry

abbrev pub Subcluster : Type 0
Subcluster = ℕ → Option Page

pub record Cluster : Type 0 where
  pub id : ℕ
  pub subclusters : ℕ → Option Subcluster

pub record CompactAddressMap : Type 0 where
  pub cluster_hash_table : ℕ → List Cluster
  pub free_entries : List Entry
  pub stats : Stats
  pub num_entries : ℕ

-- A write to an array.
abbrev pub write {ℓ} : {A : Type ℓ} → ℕ → A → (ℕ → A) → ℕ → A
write i v f j = if j == i then v else f j

-- What `New` adds to `heap_size`: a header of 24 bytes, and the objects.
abbrev pub new_bytes : ℕ → ℕ → Stats → Stats
new_bytes count object_size s = record s {
  heap_size = add64 s.heap_size (24 + count * object_size);
}

-- The constructor.
unfoldable pub init : CompactAddressMap
init = record {
  cluster_hash_table = λ index. [];
  free_entries = [];
  stats = new_bytes cluster_hash_table_size 8 (record {
    heap_size = 0;
    num_clusters = 0;
    num_subclusters = 0;
    num_pages = 0;
    num_entries = 0;
    max_num_steps = 0;
  });
  num_entries = 0;
}
