-- ===== src/Transport.antt =====
-- python/hcicontroller/hci_transport.py: packets between the host and a controller.
pub mod Packet
pub mod Serial
pub mod Usb
