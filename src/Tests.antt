-- ===== src/Tests.antt =====
-- Concrete requests on small databases: the theorems at work, one instance for each.
mod Data
mod Orders
mod Uploads
mod Accounts
mod Archives
mod Gallery
mod Entry
mod Worker
