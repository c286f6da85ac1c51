-- ===== src/Smp.antt =====
-- python/hcicontroller/smp_central.py: LE Secure Connections pairing, both sides.
pub mod Pdu
pub mod Toolbox
pub mod Central
pub mod Responder
pub mod Session
pub mod Toy
