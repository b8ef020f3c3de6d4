-- ===== src/Linux/Enumeration.antt =====
-- The list of devices against the events of their arrivals.
use bksd.Base.{◌≡◌, refl, ap, false, Option, none, some, List, [], ◌∷◌, arith, ok}
use bksd.Base.Options.{◌>>=◌, filter_map}
use bksd.Hardware.{BlockDevice, HardwareEvent, device_added, device_removed}
use bksd.Linux.{
  LinuxAdapterConfig, UdevDevice, Kernel, Adapter, extract_event_data, process_event_data,
  list_device, list_devices, add_type,
}

abbrev pub device_of : HardwareEvent → Option BlockDevice
device_of (device_added device) = some device
device_of (device_removed uuid) = none

module _ (K : Kernel) (config : LinuxAdapterConfig) (a : Adapter K) where
  -- The device that its arrival would report, with what is mounted now.
  abbrev pub arrival : UdevDevice → Option BlockDevice
  arrival device = do
    event ← extract_event_data add_type device
    reported ← (process_event_data K config event a).0
    device_of reported

  filter_map-cong :
      (f g : UdevDevice → Option BlockDevice) (devices : List UdevDevice)
      → ((device : UdevDevice) → f device ≡ g device)
      → filter_map f devices ≡ filter_map g devices
  filter_map-cong f g [] same = refl
  filter_map-cong f g (device ∷ devices) same = cc (same device, filter_map-cong f g devices same)

  list_device-arrival :
      (device : UdevDevice)
      → config.auto_mount ≡ false
      → list_device K a.kernel device ≡ arrival device
  unfolding list_device extract_event_data process_event_data
  list_device-arrival device manual = ground arith

  -- Without automatic mounts the adapter lists exactly the devices whose arrival it would report, in
  -- the order of the enumeration, and with the same records.
  pub list_devices-arrival :
      (devices : List UdevDevice)
      → config.auto_mount ≡ false
      → list_devices K (ok devices) a.kernel ≡ ok (filter_map arrival devices)
  unfolding list_devices
  list_devices-arrival devices manual =
      ap ok (filter_map-cong _ _ devices λ device. list_device-arrival device manual)
