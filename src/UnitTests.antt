-- ===== src/UnitTests.antt =====
-- The program's own unit tests, run on the model: each is the Boolean that its expectations give.
pub mod RankedListTest
pub mod LeakAnalyzerTest
pub mod CallStackTableTest
pub mod CompactAddressMapTest
pub mod HashTest
