-- ===== src/Tests.antt =====
-- The theorems at concrete inputs, and runs of the model.
mod Claims
mod Accounts
mod Names
mod Admissions
mod Requests
mod Pools
mod Reclaims
mod Operators
mod Scans
mod Mounts
