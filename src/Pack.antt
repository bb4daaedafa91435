-- ===== src/Pack.antt =====
-- The packing of actors into threads: core/src/actor_builder/{pack,slot_budget}.rs.
pub mod Budget
pub mod Edges
pub mod EvenSplit
pub mod Kruskal
pub mod Union
pub mod UnionFind
mod Tests
