-- ===== src/Lib.antt =====
-- A model of the event-memories service: hosts create events and buy packages for them, guests
-- upload photos and videos to a live event, a worker processes what was uploaded, and
-- administrators reconcile payments.
--
-- Parts, and where they are modelled:
--   * Base: lists as tables (find, put, count, sum_of, latest, earliest), texts as lists of code
--     points with Python's string methods, and the Boolean tests on native numbers.
--   * Model: the tables of app/models.py; `Db` is all of them together.
--   * Http: what a handler returns. A handler is a function of the database into a `Result`; one
--     that raises leaves the database as it was, as the request's session is closed uncommitted.
--     Http/Post has the rules by which postconditions of handlers are proved.
--   * Accounts: app/security.py, the checks at the head of the handlers in app/main.py and
--     app/admin.py, `user_status` and `user_password` (Accounts/Users), `hash_password` and
--     `verify_password` (Accounts/Hashing), and `register`, `login` and `logout` (Accounts/Entry).
--   * Events: `update_event` (app/main.py) and `event_status` (app/admin.py).
--   * Packages: app/services/packages.py, and `update_package` of app/admin.py (Packages/Edit).
--     Vault: app/services/credential_vault.py.
--   * Payments: the gateway's protocol (app/services/payments.py): Itn for notifications, Amount
--     for their amounts, Checkout for the form that starts a payment, Provider for the
--     administrator's settings (`update_payfast_settings`, app/admin.py), Sessions for the
--     providers that the environment configures.
--   * Orders: app/services/package_orders.py and the handlers on commercial orders: Host and
--     Checkout (app/main.py), Notify (`payfast_notify`, stage by stage), Admin (app/admin.py).
--     Orders/Effects is the specification: the data type `Change` lists what one request may do to
--     the orders and the events, and each handler is shown to do one of these. Orders/History is
--     the part as a whole, over any sequence of requests.
--   * Names: `slugify` and `safe_filename` (app/main.py).
--   * Uploads: app/services/package_enforcement.py and `validate_upload` (Enforcement), the
--     handlers `initiate_upload` and `confirm_upload` (Handlers), and the sweep of
--     app/services/upload_cleanup.py (Cleanup). Storage: `delete_objects`
--     (app/services/storage.py).
--   * Processing: app/services/media_processing.py, with the polling round of worker/main.py.
--   * Gallery: what guests and hosts see of uploads, and `delete_media`; Covers: the cover of an
--     event (both app/main.py).
--   * Archives: app/services/archive.py, and a host's requests on archives in app/main.py
--     (Archives/Downloads).
--   * Worker: worker/main.py. Its loop is the data type `Runs`: any number of rounds, each with
--     what it receives from the queue and the readings of its clock.
--   * Reports: the figures of app/admin_analytics.py and app/admin_system.py. Branding:
--     app/branding.py and the form of app/admin.py for it. Audit: app/admin_audit_middleware.py
--     and `record_admin_activity` (app/admin_activity.py).
--   * Tests: instances of the theorems on small databases.
--
-- How the parts meet: the handlers of Orders read packages through Packages and credentials
-- through Vault; the notification uses Payments; uploads read the package of their event, which
-- orders assign; the worker works on the rows that uploads confirm and on the archives that hosts
-- ask for, and sweeps both tables; galleries, downloads and archives read what it has made.
--
-- Parameters, which stand for what is not in the repository: SHA-256, MD5, percent encoding, the
-- reading and printing of UUIDs, dates, floats, JSON and decimals, PBKDF2, the Fernet cipher, the
-- gateway's answer to a POST, Redis's counter, the answers of the object store, and the tools of
-- the worker (object store, Pillow, ffmpeg). Random ids and tokens are arguments of the handlers.
--
-- Conventions and bounds: one instant stands for every call of the clock within a request. A row
-- lock on the event serializes the commercial requests, so a history is a sequence of whole
-- requests, and a row that is read anew under the lock is the row that was read. Case mapping of
-- texts is that of ASCII. The texts of errors and pages, log lines and the jobs that are enqueued
-- (best effort in the source) are left out. Rows of the audit trail are added without a test of
-- their id, which is random. `batches` runs on fuel, one unit for each key, and a request takes a
-- key at least, so all keys are sent; `run_pending_media` takes its number of rounds, which is
-- three in the worker, as an argument.
--
-- The search for a free name in an archive runs on fuel, one unit more than there are used names.
-- A form's number or text that only a page shows is left out; a link that the object store signs is
-- a redirect to its key.
--
-- Not modelled: pages that only list or show rows, groupings and bars of the analytics, the headers
-- and cookies of answers, the start of the service, migrations, templates and static files. They
-- hold no state of their own that a property here rests on.
pub mod Base
pub mod Model
pub mod Gallery
pub mod Covers
pub mod Http
pub mod Accounts
pub mod Packages
pub mod Vault
pub mod Payments
pub mod Orders
pub mod Names
pub mod Uploads
pub mod Storage
pub mod Processing
pub mod Events
pub mod Archives
pub mod Branding
pub mod Audit
pub mod Worker
pub mod Reports
pub mod Tests
