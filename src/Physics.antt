-- ===== src/Physics.antt =====
-- Physics: bodies, colliders, the quadtree, contacts and the world.
pub mod Refs
pub mod Body
pub mod Collider
pub mod QuadTree
pub mod Contact
pub mod World
