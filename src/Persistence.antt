-- ===== src/Persistence.antt =====
-- src/persistence/sqlite_assignment_store.cpp
pub mod Json
pub mod Store
