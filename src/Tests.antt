-- ===== src/Tests.antt =====
-- The theorems at concrete data.
mod Numbers
mod Data
mod Memory
mod Amounts
mod Worker
mod Campaign
mod Budget
mod Events
mod Routes
mod Channels
mod Targeting
mod Requests
mod Spenders
mod Client
mod Slots
mod Messages
mod Analytics
mod Listing
