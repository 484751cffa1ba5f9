-- ===== src/Tests.antt =====
-- Concrete slabs, and the theorems applied to them.
mod Sample
mod Members
mod Items
mod Storage
mod Texts
mod Output
mod Input
