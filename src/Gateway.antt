-- ===== src/Gateway.antt =====
-- The program as a whole: what any task or request of src/horizon.rs, src/expiry.rs, src/webhook.rs,
-- src/retention.rs and src/api may do to one payment intent. `Lifecycle` is the abstract machine,
-- and the other modules show that the tables follow it.
pub mod Lifecycle
pub mod Lookup
pub mod Recorded
pub mod Statements
pub mod Expiries
pub mod Opening
pub mod Creating
pub mod Settling
pub mod Paying
pub mod Others
pub mod Keyed
pub mod Tasks
pub mod Streamed
pub mod Run
pub mod Lives
pub mod Restart
