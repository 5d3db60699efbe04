-- ===== src/Node.antt =====
-- core/node: how a node proves that it has its model.
pub mod Pom
