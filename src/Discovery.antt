-- ===== src/Discovery.antt =====
-- Devices and storages as listed, and the choice of a device: crates/mtpx-core/src/discovery.rs.
pub mod Select
use mtpx.Base.{ℕ, Option, none, some, nat_ord, list_ord}
use mtpx.Std.Text.{Str}
use mtpx.Std.Numbers.{parse_usize}
use mtpx.Mtp.{UsbSpeed}

pub record DeviceSummary : Type 0 where
  pub serial : Option Str
  pub label : Str
  pub vendor_id : ℕ
  pub product_id : ℕ
  pub location_id : ℕ
  pub speed : Option UsbSpeed

pub record StorageSummary : Type 0 where
  pub index : ℕ
  pub name : Str
  pub free : ℕ
  pub total : ℕ

pub record ExclusiveHolder : Type 0 where
  pub pid : ℕ
  pub name : Str

pub data DeviceSelector : Type 0 where
  only : DeviceSelector
  serial : Str → DeviceSelector
  index : ℕ → DeviceSelector

-- `From<&str>`: digits select by index
unfoldable pub selector_from : Str → DeviceSelector
unfolding parse_usize
selector_from value = elim (parse_usize value) [ none ↦ serial value | some n ↦ index n ]
