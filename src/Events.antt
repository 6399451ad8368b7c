-- ===== src/Events.antt =====
-- miniupnpd/upnpevents.c: the events that are sent to subscribers, in the build with IPv6.
pub mod Cells
pub mod Present
pub mod Pending
pub mod Callback
pub mod Notify
pub mod Lists
pub mod Fds
pub mod Calls
pub mod Outcome
mod Tests
mod CallTests
