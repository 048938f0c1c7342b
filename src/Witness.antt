-- ===== src/Witness.antt =====
-- The theorems at concrete inputs, and the data they take.
mod Indexes
mod Configs
mod Urls
mod Writes
mod Walks
mod Walking
mod Scanning
mod Listings
mod Contests
mod Crews
mod Gets
mod Stored
mod Revisits
mod Pools
mod Removals
