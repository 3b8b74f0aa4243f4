-- ===== src/MailboxStatus.antt =====
-- src/mailfallback/services/mailbox_status.py: the one answer to "is this mailbox OK?" (`Resolve`,
-- over the facts of `Facts`), how one run ended (`Outcome`), and the sign-in copy (`SignIn`).
pub mod Kinds
pub mod SignIn
pub mod Facts
pub mod Resolve
pub mod Outcome
pub mod Tones
mod Tests
