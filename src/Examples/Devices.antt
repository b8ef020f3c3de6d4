-- ===== src/Examples/Devices.antt =====
-- A machine whose calls succeed, and a card that is plugged in and cleaned up.
use bksd.Base.{
  ◌≡◌, refl, ◌<>◌, true, false, none, some, List, [], ◌∷◌, ok, map, string_eq, nat_eq, list_eq,
  arith, ==_iff, String,
}
use bksd.Storage.{show_path, show_relative}
use bksd.Storage.Paths.{join_text, components}
use bksd.Base.Parse.{words_from, is_whitespace, is_digit, parse_below, parse_digits, lower_code}
use bksd.Hardware.{BlockDevice, device_added, from_str, as_str}
use bksd.Linux.{
  Kernel, Adapter, LinuxAdapterConfig, UdevDevice, add, remove, process_event_data, cleanup_device,
  mount_device, get_mount_point, find_mount, get_device_capacity, size_path, base_device,
  sync_filesystem, mount_options, list_devices,
}
use bksd.Linux.Table.{MountTable, HasMounts, detach, is_within}
use bksd.Linux.Watching.{Step, event, cleanup, after_steps}
use bksd.Linux.Tracking.{IsTracking, own_point, after_steps-IsTracking}
use bksd.Linux.Release.{cleanup_device-process_event_data, cleanup_device-IsCleanUp, IsCleanUp}
use bksd.Linux.Enumeration.{list_devices-arrival, arrival}
use bksd.Base.Options.{filter_map}
use bksd.Base.Dict

abbrev machine : Kernel
machine = record {
  State = MountTable;
  proc_mounts = λ t. some (map (λ m. m.0 <> (" " <> (show_path m.1 <> " ext4 rw 0 0"))) t);
  read_to_string = λ p t. some "100\n";
  create_dir_all = λ p t. (ok tt, t);
  remove_dir = λ p t. (ok tt, t);
  mount = λ device p fs flags options t. (ok tt, (show_path device, p) ∷ t);
  umount2 = λ p t. (ok tt, detach p t);
  open_dir = λ p t. ok tt;
  syncfs = λ p t. (ok tt, t);
}

abbrev machine_mounts : HasMounts machine (λ t. t)
machine_mounts = record {
  create_keeps = λ p k. refl;
  remove_keeps = λ p k. refl;
  sync_keeps = λ p k. refl;
  mount_adds = λ device p fs flags options k. refl;
  umount_detaches = λ p k. refl;
}

abbrev config : LinuxAdapterConfig
config = record { mount_base = "run" ∷ "bksd" ∷ []; auto_mount = true }

abbrev card : BlockDevice
card = record {
  uuid = "A1";
  label = "SD";
  path = "dev" ∷ "sdb1" ∷ [];
  mount_point = "run" ∷ "bksd" ∷ "A1" ∷ [];
  capacity = 51200;
  filesystem = "ext4";
}

abbrev root_mount : MountTable
root_mount = ("/dev/sda1", []) ∷ []

abbrev arrived : Adapter machine
arrived = record {
  mounted_by_us = ("A1", card.mount_point) ∷ [];
  kernel = ("/dev/sdb1", card.mount_point) ∷ root_mount;
}

abbrev plain : Adapter machine
plain = record { mounted_by_us = []; kernel = root_mount }

arrival_runs :
    process_event_data machine config (add "A1" "SD" card.path "EXT4") plain
    ≡ (some (device_added card), arrived)
unfolding process_event_data mount_device get_mount_point find_mount words_from is_whitespace
    get_device_capacity size_path base_device is_digit parse_below parse_digits from_str lower_code
    show_path show_relative join_text components mount_options Dict.insert as_str
arrival_runs = refl

cleanup_runs : cleanup_device machine card arrived ≡ (ok tt, plain)
unfolding cleanup_device sync_filesystem detach Dict.lookup Dict.erase
cleanup_runs = refl

not_tracked : Dict.lookup "A1" plain.mounted_by_us ≡ none
unfolding Dict.lookup
not_tracked = refl

cleanup_device-process_event_data_example : (root_mount ≡ root_mount) × (plain.mounted_by_us ≡ [])
cleanup_device-process_event_data_example =
    cleanup_device-process_event_data machine (λ t. t) machine_mounts config "A1" plain not_tracked
      "SD" "EXT4" card.path card arrived plain arrival_runs cleanup_runs

-- An image on the card is mounted below it.
abbrev nested : Adapter machine
nested = record {
  mounted_by_us = ("A1", card.mount_point) ∷ [];
  kernel =
      ("/dev/loop0", "run" ∷ "bksd" ∷ "A1" ∷ "image" ∷ [])
      ∷ ("/dev/sdb1", card.mount_point)
      ∷ root_mount;
}

nested_runs : cleanup_device machine card nested ≡ (ok tt, plain)
unfolding cleanup_device sync_filesystem detach is_within Dict.lookup Dict.erase
nested_runs = refl

cleanup_device-IsCleanUp_example :
    let r = cleanup_device machine card nested in
    IsCleanUp machine
      (λ t. t)
      machine_mounts
      card
      nested
      (Dict.lookup "A1" nested.mounted_by_us)
      r.0
      r.1
cleanup_device-IsCleanUp_example =
    cleanup_device-IsCleanUp machine (λ t. t) machine_mounts card nested

A1_is_name : join_text config.mount_base "A1" ≡ card.mount_point
unfolding join_text components
A1_is_name = refl

abbrev steps : List (Step machine config)
steps =
    cleanup card
    ∷ event (add "A1" "SD" card.path "ext4") false
    ∷ event (remove "A1") false
    ∷ event (add "A1" "SD" card.path "ext4") false
    ∷ []

only_card :
    (other : String)
    → is_within card.mount_point (own_point machine (λ t. t) machine_mounts config other) ≡ true
    → other ≡ card.uuid
unfolding is_within
only_card other e = ground (arith, ==_iff "A1" other)

after_steps-IsTracking_example :
    IsTracking machine
      (λ t. t)
      machine_mounts
      config
      (after_steps machine config root_mount steps).adapter
after_steps-IsTracking_example =
    after_steps-IsTracking machine (λ t. t) machine_mounts config root_mount steps
      (only_card, (A1_is_name, (tt, (A1_is_name, tt))))

abbrev reader : UdevDevice
reader = record {
  devtype = some "partition";
  fs_type = some "ext4";
  fs_uuid = some "R0";
  fs_label = none;
  devnode = some ("dev" ∷ "sda1" ∷ []);
}

list_devices-arrival_example :
    list_devices machine (ok (reader ∷ [])) root_mount
    ≡ ok (filter_map (arrival machine (record config { auto_mount = false }) plain) (reader ∷ []))
list_devices-arrival_example =
    list_devices-arrival machine (record config { auto_mount = false }) plain (reader ∷ []) refl
