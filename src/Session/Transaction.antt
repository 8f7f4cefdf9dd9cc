-- ===== src/Session/Transaction.antt =====
-- How the commands begin, change and end a transaction.
pub mod Endings
pub mod Beginnings
pub mod Starttls
pub mod Recipient
