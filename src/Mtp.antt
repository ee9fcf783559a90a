-- ===== src/Mtp.antt =====
-- The vocabulary of the `mtp-rs` crate that the sources name. What the sources do not name of an
-- enumeration is the parameter `Other`.
pub data UsbSpeed : Type 0 where
  low full high super super_plus other_speed : UsbSpeed

pub data MtpError (Other : Type 0) : Type 0 where
  disconnected cancelled no_device exclusive_access permission_denied device_reset : MtpError Other
  other : Other → MtpError Other
