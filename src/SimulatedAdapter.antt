-- ===== src/SimulatedAdapter.antt =====
-- src/adapters/simulated.rs, and the lines that control it in src/adapters/mod.rs.
use bksd.Base.{
  ℕ, ◌*◌, ◌%◌, String, ◌<>◌, Bool, Option, none, some, List, [], ◌∷◌, ◌==◌, string_eq,
  if◌then◌else◌, u64_mod, ◌≡◌, refl,
}
use bksd.Base.Options.{filter_map}
use bksd.Base.Parse.{split_whitespace, words_from, is_whitespace}
use bksd.Storage.Paths.{join_text}
use bksd.Hardware.{BlockDevice, HardwareEvent, device_added, device_removed}

pub data SimulatedCommand : Type 0 where
  inject_add : BlockDevice → SimulatedCommand
  inject_remove : String → SimulatedCommand

unfoldable pub add_device : String → ℕ → SimulatedCommand
add_device uuid size_gb = inject_add (record {
  uuid = uuid;
  label = "TEST_DEVICE_" <> uuid;
  path = join_text [] ("/tmp/test_" <> uuid);
  mount_point = join_text [] ("/tmp/mnt_" <> uuid);
  capacity = size_gb * 1024 * 1024 * 1024 % u64_mod;
  filesystem = "ext4";
})

abbrev pub remove_device : String → SimulatedCommand
remove_device uuid = inject_remove uuid

-- What the words of a line ask for; other lines are warned of.
unfoldable pub command_of : List String → Option SimulatedCommand
command_of (name ∷ []) =
    if name == "add"
    then some (add_device "123" 64)
    else if name == "rm"
    then some (remove_device "123")
    else none
command_of (name ∷ uuid ∷ []) =
    if name == "add"
    then some (add_device uuid 64)
    else if name == "rm"
    then some (remove_device uuid)
    else none
command_of _ = none

abbrev pub commands_of : List String → List SimulatedCommand
commands_of lines = filter_map (λ line. command_of (split_whitespace line)) lines

abbrev event_of : SimulatedCommand → HardwareEvent
event_of (inject_add device) = device_added device
event_of (inject_remove uuid) = device_removed uuid

-- The bridge: the events that are sent, until the receiver is gone.
unfoldable pub bridge : List (SimulatedCommand × Bool) → List HardwareEvent
bridge [] = []
bridge ((command, gone) ∷ commands) =
    let rest = bridge commands in if gone then [] else event_of command ∷ rest

command_of_runs : commands_of (" rm 7" ∷ "ls" ∷ []) ≡ remove_device "7" ∷ []
unfolding command_of words_from is_whitespace
command_of_runs = refl
