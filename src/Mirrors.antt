-- ===== src/Mirrors.antt =====
-- app/api/mirrors.py: the settings of a mirror, and what the endpoints call of GitLab.
pub mod Op
pub mod Raises
pub mod Url
pub mod Settings
pub mod Verify
pub mod Client
pub mod Update
pub mod Agreement
pub mod Applied
pub mod Calls
pub mod Tokens
pub mod Create
pub mod Deletion
pub mod Refresh
mod Tests
