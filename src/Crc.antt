-- ===== src/Crc.antt =====
-- The two checksums of the firmware: `crc16` of src/logHandler.cpp, which guards what is kept in
-- the EEPROM, and `crc` of src/modbus_handler/modbus_crc.h, which guards the frames on the bus.
pub mod Shift
pub mod Ccitt
pub mod Modbus
pub mod Fold
mod Tests
