-- ===== src/DataStruct.antt =====
-- shared/datastruct: the queue and the tree of blocks.
pub mod Queue
pub mod MRootTree
pub mod PriorityQueue
mod Tests
