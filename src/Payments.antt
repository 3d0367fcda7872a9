-- ===== src/Payments.antt =====
-- Payfast (app/services/payments.py): the gateway's functions that the program calls, the amount
-- of a notification, and the provider's row.
pub mod Amount
pub mod Itn
pub mod Checkout
pub mod Provider
pub mod Sessions
pub mod Secrets
