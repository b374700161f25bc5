-- ===== src/LiquityStore.antt =====
-- packages/lib-base/src/LiquityStore.ts
pub mod State
pub mod Reduce
pub mod Variable
pub mod Changes
pub mod Derive
pub mod Store
pub mod Listeners
