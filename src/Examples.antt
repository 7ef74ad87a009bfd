-- ===== src/Examples.antt =====
-- The theorems on concrete runs of the program, and tests of the definitions.
mod Sync
mod Durable
mod Accounts
mod Ascii
mod Mail
mod Retry
mod Paging
mod Nonce
mod Routes
mod Domain
mod Sent
mod Letters
mod Inbound
mod Batch
mod Keys
mod Digits
mod Identifiers
mod Provisioned
mod Submitted
