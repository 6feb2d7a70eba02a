-- ===== src/Examples.antt =====
-- The theorems at concrete data.
mod Data
mod Listings
mod Folders
mod Directories
mod Memory
mod Pruning
mod Chains
mod Parsing
mod Runs
mod Storage
mod Restoring
mod Histories
mod Machines
mod Proxies
mod Tracking
mod Terminals
