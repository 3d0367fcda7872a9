-- ===== src/Uploads.antt =====
-- Guest uploads: the package's limits (app/services/package_enforcement.py), the two handlers of
-- an upload (app/main.py), and the object store as they see it.
pub mod Enforcement
pub mod Handlers
pub mod Cleanup
pub mod Quota
pub mod Confirm
pub mod Verified
pub mod Sweep
