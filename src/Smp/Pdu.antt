-- ===== src/Smp/Pdu.antt =====
-- The opcodes of SMP PDUs (Vol 3 Part H 3.3), as python/hcicontroller/smp_central.py names them.
use hci_controller.Base.{ℕ}

abbrev pub request : ℕ
request = 0x01

abbrev pub response : ℕ
response = 0x02

abbrev pub confirm : ℕ
confirm = 0x03

abbrev pub random : ℕ
random = 0x04

abbrev pub failed : ℕ
failed = 0x05

abbrev pub public_key : ℕ
public_key = 0x0C

abbrev pub dhkey_check : ℕ
dhkey_check = 0x0D
