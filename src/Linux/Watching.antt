-- ===== src/Linux/Watching.antt =====
-- The two loops of src/adapters/linux.rs: the thread that polls udev, and the task that turns its
-- events into events of the daemon, with the clean-up that the daemon asks for in between.
use bksd.Base.{
  String, ◌<>◌, Bool, true, false, Option, none, some, List, [], ◌∷◌, ◌++◌, Result, ok, err,
  if◌then◌else◌,
}
use bksd.Hardware.{BlockDevice, HardwareEvent}
use bksd.Linux.{
  LinuxAdapterConfig, UdevDevice, EventType, UdevEventData, Kernel, Adapter, extract_event_data,
  process_event_data, cleanup_device,
}

pub data Poll : Type 0 where
  -- nothing within half a second, or a signal
  timed_out interrupted : Poll
  -- what the socket then yields
  readable : Option (EventType × UdevDevice) → Poll
  poll_error : String → Poll

-- A round of the monitor: whether it was cancelled before, the poll, and whether the receiver of the
-- channel is gone.
pub record Round : Type 0 where
  pub cancelled : Bool
  pub poll : Poll
  pub receiver_gone : Bool

-- What the monitor has sent, and how it has ended, unless it is still running.
pub record Monitored : Type 0 where
  pub sent : List UdevEventData
  pub ended : Option (Result String (Unit {0}))

abbrev send_first : UdevEventData → Monitored → Monitored
send_first event m = record m { sent = event ∷ m.sent }

abbrev stopped : Result String (Unit {0}) → Monitored
stopped r = record { sent = []; ended = some r }

abbrev forward_extracted : Option UdevEventData → Bool → Monitored → Monitored
forward_extracted none gone rest = rest
forward_extracted (some event) gone rest = if gone then stopped (ok tt) else send_first event rest

abbrev polled : Poll → Bool → Monitored → Monitored
polled timed_out gone rest = rest
polled interrupted gone rest = rest
polled (readable none) gone rest = rest
polled (readable (some (type, device))) gone rest =
    forward_extracted (extract_event_data type device) gone rest
polled (poll_error e) gone rest = stopped (err ("poll error: " <> e))

unfoldable pub run_udev_monitor_blocking : List Round → Monitored
run_udev_monitor_blocking [] = record { sent = []; ended = none }
run_udev_monitor_blocking (round ∷ rounds) =
    let rest = run_udev_monitor_blocking rounds in
    if round.cancelled then stopped (ok tt) else polled round.poll round.receiver_gone rest

module _ (K : Kernel) (config : LinuxAdapterConfig) where
  -- The adapter with its task: `listening` until the loop breaks.
  pub record Watcher : Type 0 where
    pub adapter : Adapter K
    pub listening : Bool
    pub cancelled : Bool
    pub sent : List HardwareEvent

  -- `event` is one that the task receives, with whether the daemon's receiver is gone by then.
  pub data Step : Type 0 where
    event : UdevEventData → Bool → Step
    cleanup : BlockDevice → Step
    stop : Step

  abbrev pub forward : Bool → Watcher → Option HardwareEvent × Adapter K → Watcher
  forward gone w (none, a) = record w { adapter = a }
  forward gone w (some e, a) =
      if gone
      then record w { adapter = a; listening = false }
      else record w { adapter = a; sent = w.sent ++ e ∷ [] }

  unfoldable pub receive_event : UdevEventData → Bool → Watcher → Watcher
  receive_event data_ gone w =
      if w.listening
      then if w.cancelled
        then record w { listening = false }
        else forward gone w (process_event_data K config data_ w.adapter)
      else w

  unfoldable pub take_step : Step → Watcher → Watcher
  take_step (event data_ gone) w = receive_event data_ gone w
  take_step (cleanup device) w = record w { adapter = (cleanup_device K device w.adapter).1 }
  take_step stop w = record w { cancelled = true }

  abbrev pub start : K.State → Watcher
  start k = record {
    adapter = record { mounted_by_us = []; kernel = k };
    listening = true;
    cancelled = false;
    sent = [];
  }

  -- The newest step stands first.
  unfoldable pub after_steps : K.State → List Step → Watcher
  after_steps k [] = start k
  after_steps k (step ∷ steps) = take_step step (after_steps k steps)
