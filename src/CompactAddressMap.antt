-- ===== src/CompactAddressMap.antt =====
-- compact_address_map.h and compact_address_map.cc: a map from addresses to small entries, with
-- clusters, subclusters, pages and blocks of addresses. An array of fixed length is a function of
-- the index; a list that is linked through `next` is a list. `Objects` has the list of the objects that
-- the map allocates, which only its destructor reads.
pub mod State
pub mod Pages
pub mod Operations
pub mod Chains
pub mod Paths
pub mod Blocks
pub mod Contents
pub mod Insertion
pub mod Removal
pub mod RoundTrips
pub mod Objects
pub mod Linking
pub mod Ownership
pub mod Deletion
pub mod Destruction
