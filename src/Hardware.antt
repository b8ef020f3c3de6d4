-- ===== src/Hardware.antt =====
-- src/core/hardware.rs: devices, the events of an adapter, and the file systems that are backed up.
use bksd.Base.{ℕ, String, Option, none, some, ◌≡◌, refl, ◌==◌, list_eq, nat_eq, ◌||◌, if◌then◌else◌}
use bksd.Base.Parse.{codes, to_lowercase, lower_code}
use bksd.Storage.{FilePath}

pub record BlockDevice : Type 0 where
  pub uuid : String
  pub label : String
  pub path : FilePath
  pub mount_point : FilePath
  pub capacity : ℕ
  pub filesystem : String

pub data HardwareEvent : Type 0 where
  device_added : BlockDevice → HardwareEvent
  device_removed : String → HardwareEvent

pub data SupportedFilesystem : Type 0 where
  ext4 exfat vfat ntfs btrfs : SupportedFilesystem

unfoldable pub from_str : String → Option SupportedFilesystem
unfolding lower_code
from_str s =
    let name = to_lowercase s in
    if name == codes "ext4"
    then some ext4
    else if name == codes "exfat"
    then some exfat
    else if name == codes "vfat" || name == codes "fat32" || name == codes "fat16"
    then some vfat
    else if name == codes "ntfs"
    then some ntfs
    else if name == codes "btrfs"
    then some btrfs
    else none

unfoldable pub as_str : SupportedFilesystem → String
as_str ext4 = "ext4"
as_str exfat = "exfat"
as_str vfat = "vfat"
as_str ntfs = "ntfs"
as_str btrfs = "btrfs"

pub from_str-as_str : (fs : SupportedFilesystem) → from_str (as_str fs) ≡ some fs
unfolding from_str as_str
from_str-as_str ext4 = refl
from_str-as_str exfat = refl
from_str-as_str vfat = refl
from_str-as_str ntfs = refl
from_str-as_str btrfs = refl

from_str_runs : from_str "FAT32" ≡ some vfat
unfolding from_str
from_str_runs = refl
