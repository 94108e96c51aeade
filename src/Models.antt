-- ===== src/Models.antt =====
-- models.py
pub mod Payloads
pub mod Urls
pub mod Validate
pub mod Checks
pub mod Fields
pub mod Accepted
pub mod Event
