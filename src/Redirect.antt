-- ===== src/Redirect.antt =====
-- miniupnpd/upnpredirect.c: the redirections, over a firewall back end.
pub mod LeaseFile
pub mod Firewall
pub mod Facade
pub mod Order
pub mod Reload
pub mod Sweep
pub mod InList
mod Tests
