-- ===== src/Travels/Tests.antt =====
-- The theorems at concrete inputs.
mod Carried
mod Order
mod Event
mod Announcement
mod Registration
