-- ===== src/Sdn.antt =====
-- miniupnpd/sdn: the firewall back end of the SDN build, which asks the ONOS controller.
pub mod Json
pub mod Http
pub mod Onos
pub mod Fields
pub mod Descs
pub mod Rules
pub mod Lookup
pub mod Ranges
mod Tests
