-- ===== src/Device.antt =====
-- The devices table: its operations, the columns that hold secrets, and the change of their key.
pub mod Secrets
pub mod Tables
pub mod Reading
pub mod Repo
pub mod Rotation
pub mod Life
