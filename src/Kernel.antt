-- ===== src/Kernel.antt =====
-- What src/adapters/linux.rs asks of the system: the devices of udev, and the calls of the `nix` crate
-- and of std::fs. The answers are a parameter.
use bksd.Base.{String, Option, List, Result}
use bksd.Storage.{FilePath}

-- The properties of a device that are texts, and its node.
pub record UdevDevice : Type 0 where
  pub devtype : Option String
  pub fs_type : Option String
  pub fs_uuid : Option String
  pub fs_label : Option String
  pub devnode : Option FilePath

-- `other_type` stands for the types that the code does not name.
pub data EventType : Type 0 where
  add_type remove_type other_type : EventType

pub data MountFlag : Type 0 where
  noexec nosuid : MountFlag

-- What the adapter asks of the system. A call that changes its state returns it, in a failure too.
pub record Kernel : Type 1 where
  pub State : Type 0
  -- The lines of /proc/mounts up to the first that cannot be read, if it can be opened.
  pub proc_mounts : State → Option (List String)
  pub read_to_string : FilePath → State → Option String
  pub create_dir_all : FilePath → State → Result String (Unit {0}) × State
  pub remove_dir : FilePath → State → Result String (Unit {0}) × State
  -- device, mount point, file system, flags, options; also the failure of the blocking task
  pub mount :
      FilePath
      → FilePath
      → String
      → List MountFlag
      → Option String
      → State
      → Result String (Unit {0}) × State
  -- with MNT_DETACH
  pub umount2 : FilePath → State → Result String (Unit {0}) × State
  pub open_dir : FilePath → State → Result String (Unit {0})
  pub syncfs : FilePath → State → Result String (Unit {0}) × State
