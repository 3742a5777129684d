-- ===== src/Note.antt =====
-- Shared notes: the edit algebra of domain/notes.py and the live editing service above it.
pub mod Edit
pub mod Slices
pub mod Converge
pub mod Live
mod Examples
