-- ===== src/Examples.antt =====
-- The definitions run on concrete inputs, and the theorems at concrete inputs.
mod Numbers
mod Troves
mod Stakes
mod States
mod Stores
mod Texts
mod Reads
mod Notifications
mod Validations
mod Decimals
mod Indexes
mod Indexer
mod Polls
mod Batches
mod Actions
