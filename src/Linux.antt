-- ===== src/Linux.antt =====
-- src/adapters/linux.rs: which devices are reported, mounted and unmounted. The kernel, with udev and
-- the calls of the `nix` crate, is a parameter.
pub mod Watching
pub mod Table
pub mod Enumeration
pub mod Tracking
pub mod Release
pub use bksd.Kernel.{
  UdevDevice, EventType, add_type, remove_type, other_type, MountFlag, noexec, nosuid, Kernel,
}
use bksd.Base.{
  ℕ, String, ◌<>◌, Bool, true, false, not, ◌&&◌, Option, none, some, List, [], ◌∷◌, ◌*◌, ◌%◌,
  Result, ok, err, ◌==◌, string_eq, is_some, unwrap_or, u64_mod, if◌then◌else◌, ◌≡◌, refl,
}
use bksd.Base.Dict
use bksd.Base.Dict.{Dict}
use bksd.Base.Options.{◌>>=◌, filter_map}
use bksd.Base.Parse.{codes, split_whitespace, trim, parse_below, is_digit}
use bksd.Storage.{FilePath, show_path}
use bksd.Storage.Paths.{join_text}
use bksd.Hardware.{
  BlockDevice, HardwareEvent, SupportedFilesystem, device_added, device_removed, ext4, exfat, vfat,
  ntfs, btrfs, from_str, as_str,
}
use Prim.Native.Char.{code}
use Prim.Native.String.{[] as end_of_text, ◌∷◌ as ◌∷ˢ◌}

pub record LinuxAdapterConfig : Type 0 where
  pub mount_base : FilePath
  pub auto_mount : Bool

pub data UdevEventData : Type 0 where
  -- uuid, label, devnode, fs_type
  add : String → String → FilePath → String → UdevEventData
  remove : String → UdevEventData

abbrev pub is_partition : Option String → Bool
is_partition none = false
is_partition (some devtype) = devtype == "partition"

-- Neither a partition nor a device with a file system.
abbrev pub is_skipped : UdevDevice → Bool
is_skipped device = not (is_partition device.devtype) && not (is_some device.fs_type)

abbrev pub extract_added : UdevDevice → Option UdevEventData
extract_added device = do
  fs_type ← device.fs_type
  _ ← from_str fs_type
  uuid ← device.fs_uuid
  devnode ← device.devnode
  some (add uuid (unwrap_or device.fs_label uuid) devnode fs_type)

unfoldable pub extract_event_data : EventType → UdevDevice → Option UdevEventData
extract_event_data add_type device = if is_skipped device then none else extract_added device
extract_event_data remove_type device = device.fs_uuid >>= λ uuid. some (remove uuid)
extract_event_data other_type device = none

abbrev mount_in_line : String → List String → Option FilePath → Option FilePath
mount_in_line device (name ∷ point ∷ rest) otherwise =
    if name == device then some (join_text [] point) else otherwise
mount_in_line device _ otherwise = otherwise

-- The mount point of the first line for the device.
unfoldable pub find_mount : String → List String → Option FilePath
find_mount device [] = none
find_mount device (line ∷ lines) =
    mount_in_line device (split_whitespace line) (find_mount device lines)

abbrev pub file_name : FilePath → Option String
file_name [] = none
file_name (c ∷ []) = if c == ".." then none else some c
file_name (c ∷ d ∷ path) = file_name (d ∷ path)

-- `take_while` over characters that are not numeric; the kernel's names are ASCII.
unfoldable pub base_device : String → String
base_device end_of_text = end_of_text
base_device (c ∷ˢ name) =
    let rest = base_device name in if is_digit (code c) then end_of_text else c ∷ˢ rest

unfoldable pub size_path : String → FilePath
size_path device_name =
    if base_device device_name == device_name
    then "sys" ∷ "block" ∷ device_name ∷ "size" ∷ []
    else "sys" ∷ "block" ∷ base_device device_name ∷ device_name ∷ "size" ∷ []

-- The options of a mount: those file systems have no owners of their own.
unfoldable pub mount_options : SupportedFilesystem → Option String
mount_options vfat = some "utf8,uid=0,gid=0,umask=022"
mount_options exfat = some "utf8,uid=0,gid=0,umask=022"
mount_options ntfs = some "uid=0,gid=0,umask=022"
mount_options _ = none

-- What `with_context` shows of an error.
abbrev with_context : {A : Type 0} → String → Result String A → Result String A
with_context context (ok a) = ok a
with_context context (err e) = err context

module _ (K : Kernel) where
  unfoldable pub get_mount_point : FilePath → K.State → Option FilePath
  get_mount_point device_path k = K.proc_mounts k >>= find_mount (show_path device_path)

  unfoldable pub get_device_capacity : FilePath → K.State → Option ℕ
  get_device_capacity device_path k = do
    device_name ← file_name device_path
    size ← K.read_to_string (size_path device_name) k
    sectors ← parse_below u64_mod (trim (codes size))
    some (sectors * 512 % u64_mod)

  -- `?` on a call that changes the state.
  abbrev pub then_call :
      {A B : Type 0}
      → Result String A × K.State
      → (A → K.State → Result String B × K.State)
      → Result String B × K.State
  then_call (ok a, k) f = f a k
  then_call (err e, k) f = (err e, k)

  abbrev pub in_context :
      {A : Type 0} → String → Result String A × K.State → Result String A × K.State
  in_context context (r, k) = (with_context context r, k)

  unfoldable pub mount_device :
      LinuxAdapterConfig
      → FilePath
      → String
      → SupportedFilesystem
      → K.State
      → Result String FilePath × K.State
  mount_device config device_path uuid fs k =
      let mount_point = join_text config.mount_base uuid in
      then_call
        (in_context ("Failed to create mount point: " <> show_path mount_point)
          (K.create_dir_all mount_point k))
        λ _ k₁.
          then_call
            (in_context
              ("Failed to mount " <> (show_path device_path <> (" to " <> show_path mount_point)))
              (K.mount device_path mount_point (as_str fs) (noexec ∷ nosuid ∷ []) (mount_options fs)
                k₁))
            λ _ k₂. (ok mount_point, k₂)

  abbrev synced : Result String (Unit {0}) → Result String (Unit {0})
  synced (ok _) = ok tt
  synced (err e) = err ("syncfs failed: " <> e)

  unfoldable pub sync_filesystem : FilePath → K.State → Result String (Unit {0}) × K.State
  sync_filesystem mount_point k = elim (K.open_dir mount_point k) [
    | err e ↦ (err ("Failed to open mount point: " <> show_path mount_point), k)
    | ok _ ↦ (synced (K.syncfs mount_point k).0, (K.syncfs mount_point k).1)
  ]

  -- `MountState`, and the state of the system.
  pub record Adapter : Type 0 where
    pub mounted_by_us : Dict String FilePath
    pub kernel : K.State

  abbrev pub block_device :
      String → String → FilePath → SupportedFilesystem → FilePath → K.State → BlockDevice
  block_device uuid label devnode fs mount_point k = record {
    uuid = uuid;
    label = label;
    path = devnode;
    mount_point = mount_point;
    capacity = unwrap_or (get_device_capacity devnode k) 0;
    filesystem = as_str fs;
  }

  abbrev pub report :
      String
      → String
      → FilePath
      → SupportedFilesystem
      → FilePath
      → Adapter
      → Option HardwareEvent × Adapter
  report uuid label devnode fs mount_point a =
      (some (device_added (block_device uuid label devnode fs mount_point a.kernel)), a)

  -- Behind `mount_device`.
  abbrev pub mounted :
      String
      → String
      → FilePath
      → SupportedFilesystem
      → Adapter
      → Result String FilePath × K.State
      → Option HardwareEvent × Adapter
  mounted uuid label devnode fs a (err e, k) = (none, record a { kernel = k })
  mounted uuid label devnode fs a (ok mount_point, k) =
      report uuid label devnode fs mount_point
        (record { mounted_by_us = Dict.insert uuid mount_point a.mounted_by_us; kernel = k })

  abbrev pub process_found :
      LinuxAdapterConfig
      → String
      → String
      → FilePath
      → SupportedFilesystem
      → Adapter
      → Option FilePath
      → Option HardwareEvent × Adapter
  process_found config uuid label devnode fs a (some existing) =
      report uuid label devnode fs existing a
  process_found config uuid label devnode fs a none =
      if config.auto_mount
      then mounted uuid label devnode fs a (mount_device config devnode uuid fs a.kernel)
      else (none, a)

  abbrev pub process_supported :
      LinuxAdapterConfig
      → String
      → String
      → FilePath
      → Adapter
      → Option SupportedFilesystem
      → Option HardwareEvent × Adapter
  process_supported config uuid label devnode a none = (none, a)
  process_supported config uuid label devnode a (some fs) =
      process_found config uuid label devnode fs a (get_mount_point devnode a.kernel)

  unfoldable pub process_event_data :
      LinuxAdapterConfig → UdevEventData → Adapter → Option HardwareEvent × Adapter
  process_event_data config (add uuid label devnode fs_type) a =
      process_supported config uuid label devnode a (from_str fs_type)
  process_event_data config (remove uuid) a =
      (some (device_removed uuid), record a { mounted_by_us = Dict.erase uuid a.mounted_by_us })

  -- One device of the enumeration.
  unfoldable pub list_device : K.State → UdevDevice → Option BlockDevice
  list_device k device = if is_skipped device then none else do
    fs_type ← device.fs_type
    fs ← from_str fs_type
    uuid ← device.fs_uuid
    devnode ← device.devnode
    mount_point ← get_mount_point devnode k
    some (block_device uuid (unwrap_or device.fs_label uuid) devnode fs mount_point k)

  -- `devices` is what the enumerator scans, unless it fails.
  unfoldable pub list_devices :
      Result String (List UdevDevice) → K.State → Result String (List BlockDevice)
  list_devices (err e) k = err e
  list_devices (ok devices) k = ok (filter_map (list_device k) devices)

  -- Behind `umount2` of a device that we mounted.
  abbrev pub unmounted :
      BlockDevice
      → Adapter
      → Result String (Unit {0}) × K.State
      → Result String (Unit {0}) × Adapter
  unmounted device a (err e, k) =
      (err ("Failed to unmount " <> show_path device.mount_point), record a { kernel = k })
  unmounted device a (ok _, k) = (
    ok tt,
    record {
      mounted_by_us = Dict.erase device.uuid a.mounted_by_us;
      kernel = (K.remove_dir device.mount_point k).1;
    },
  )

  abbrev pub after_sync :
      BlockDevice
      → Adapter
      → Result String (Unit {0}) × K.State
      → Result String (Unit {0}) × Adapter
  after_sync device a (err e, k) = (err e, record a { kernel = k })
  after_sync device a (ok _, k) =
      if is_some (Dict.lookup device.uuid a.mounted_by_us)
      then unmounted device (record a { kernel = k }) (K.umount2 device.mount_point k)
      else (ok tt, record a { kernel = k })

  unfoldable pub cleanup_device : BlockDevice → Adapter → Result String (Unit {0}) × Adapter
  cleanup_device device a = after_sync device a (sync_filesystem device.mount_point a.kernel)

size_path_runs : size_path "sdb1" ≡ "sys" ∷ "block" ∷ "sdb" ∷ "sdb1" ∷ "size" ∷ []
unfolding size_path base_device is_digit
size_path_runs = refl
