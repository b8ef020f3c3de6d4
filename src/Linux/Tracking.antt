-- ===== src/Linux/Tracking.antt =====
-- The devices that the adapter has recorded as mounted by itself.
use bksd.Base.{
  ◌≡◌, refl, ◌∙◌, String, Bool, true, false, Option, none, some, List, [], ◌∷◌, Result, ok, err,
  All, arith, Bool-cases, inl, inr, string_eq, is_some, if◌then◌else◌,
}
use bksd.Base.Dict
use bksd.Base.Dict.{Dict, NodupKeys, All-insert}
use bksd.Storage.{FilePath, join, show_path}
use bksd.Storage.Paths.{join_text}
use bksd.Hardware.{BlockDevice, HardwareEvent, SupportedFilesystem, as_str, from_str}
use bksd.Linux.{
  LinuxAdapterConfig, UdevEventData, Kernel, Adapter, add, remove, mount_device, then_call,
  in_context, mount_options, noexec, nosuid, mounted, process_found, process_supported,
  process_event_data, unmounted, after_sync, sync_filesystem, cleanup_device, get_mount_point,
}
use bksd.Linux.Table.{
  MountTable, HasMounts, is_within, is_mounted, after_mount, after_umount, is_mounted-detach,
  is_mounted-first, is_mounted-cons,
}
use bksd.Linux.Watching.{
  Watcher, Step, event, cleanup, stop, forward, receive_event, take_step, after_steps,
}

module _ (K : Kernel) (table : K.State → MountTable) (laws : HasMounts K table) where
  pub sync_filesystem-table :
      (point : FilePath) (k : K.State) → table (sync_filesystem K point k).1 ≡ table k
  unfolding sync_filesystem
  sync_filesystem-table point k = ground (arith, laws.sync_keeps point k)

module _ (K : Kernel) (table : K.State → MountTable) (laws : HasMounts K table)
    (config : LinuxAdapterConfig) where
  abbrev pub own_point : String → FilePath
  own_point uuid = join config.mount_base (uuid ∷ [])

  -- What `mount_device` has done, by its result.
  abbrev pub IsMountOf : FilePath → String → K.State → Result String FilePath × K.State → Type 0
  IsMountOf devnode uuid k (ok point, k') =
      (point ≡ join_text config.mount_base uuid) × (table k' ≡ (show_path devnode, point) ∷ table k)
  IsMountOf devnode uuid k (err e, k') = table k' ≡ table k

  pub mount_device-IsMountOf :
      (devnode : FilePath) (uuid : String) (fs : SupportedFilesystem) (k : K.State)
      → IsMountOf devnode uuid k (mount_device K config devnode uuid fs k)
  unfolding mount_device
  mount_device-IsMountOf devnode uuid fs k =
      created _ _ (K.create_dir_all point k) (laws.create_keeps point k)
    where
      point : FilePath
      point = join_text config.mount_base uuid

      done :
          (context : String) (k₁ : K.State) (c : Result String (Unit {0}) × K.State)
          → table k₁ ≡ table k
          → table c.1 ≡ after_mount devnode point c.0 (table k₁)
          → IsMountOf devnode uuid k (then_call K (in_context K context c) λ _ k₂. (ok point, k₂))
      done context k₁ (ok _, k₂) e h = (refl, rw (← e) h)
      done context k₁ (err x, k₂) e h = h ∙ e

      created :
          (context later : String) (c : Result String (Unit {0}) × K.State)
          → table c.1 ≡ table k
          → IsMountOf devnode uuid k (
              then_call K (in_context K context c) λ _ k₁.
                then_call K
                  (in_context K later (
                    K.mount devnode point (as_str fs) (noexec ∷ nosuid ∷ []) (mount_options fs) k₁))
                  λ _ k₂. (ok point, k₂))
      created context later (ok _, k₁) e =
          done later k₁ _ e (laws.mount_adds devnode point (as_str fs) _ (mount_options fs) k₁)
      created context later (err x, k₁) e = e

  -- A tracked device is mounted below the base folder, at the name of its identifier.
  abbrev pub IsTracked : K.State → String × FilePath → Type 0
  IsTracked k (uuid, point) = (point ≡ own_point uuid) × (is_mounted point (table k) ≡ true)

  pub record IsTracking (a : Adapter K) : Type 0 where
    pub one_each : NodupKeys a.mounted_by_us
    pub all_mounted : All (IsTracked a.kernel) a.mounted_by_us

  -- The identifiers name files, and a device that is cleaned up is not at or above the mount point of
  -- another.
  abbrev pub IsNamed : Step K config → Type 0
  IsNamed (event (add uuid label devnode fs_type) gone) =
      join_text config.mount_base uuid ≡ own_point uuid
  IsNamed (event (remove uuid) gone) = Unit
  IsNamed (cleanup device) =
      (other : String) → is_within device.mount_point (own_point other) ≡ true → other ≡ device.uuid
  IsNamed stop = Unit

  still :
      (k k' : K.State) (d : Dict String FilePath)
      → ((p : FilePath) → is_mounted p (table k) ≡ true → is_mounted p (table k') ≡ true)
      → All (IsTracked k) d
      → All (IsTracked k') d
  still k k' [] keeps h = tt
  still k k' ((uuid, point) ∷ d) keeps h = ((h.0.0, keeps point h.0.1), still k k' d keeps h.1)

  process_event_data-IsTracking :
      (data_ : UdevEventData) (gone : Bool) (a : Adapter K)
      → IsNamed (event data_ gone)
      → IsTracking a
      → IsTracking (process_event_data K config data_ a).1
  unfolding process_event_data
  process_event_data-IsTracking (remove uuid) gone a named h = record {
    one_each = Dict.erase-NodupKeys uuid a.mounted_by_us h.one_each;
    all_mounted = Dict.All-erase (IsTracked a.kernel) uuid a.mounted_by_us h.all_mounted;
  }
  process_event_data-IsTracking (add uuid label devnode fs_type) gone a named h =
      supported (from_str fs_type)
    where
      after :
          (fs : SupportedFilesystem) (m : Result String FilePath × K.State)
          → IsMountOf devnode uuid a.kernel m
          → IsTracking (mounted K uuid label devnode fs a m).1
      after fs (ok point, k) e = record {
        one_each = Dict.insert-NodupKeys uuid point a.mounted_by_us h.one_each;
        all_mounted =
            All-insert (IsTracked k) uuid point a.mounted_by_us
              (e.0 ∙ named, rw e.1 (is_mounted-first (show_path devnode) point (table a.kernel)))
              (still a.kernel k a.mounted_by_us
                (λ p q. rw e.1 (is_mounted-cons (show_path devnode) point p (table a.kernel) q))
                h.all_mounted);
      }
      after fs (err x, k) e = record {
        one_each = h.one_each;
        all_mounted = still a.kernel k a.mounted_by_us (λ p q. rw e q) h.all_mounted;
      }

      either :
          (b : Bool) (x y : Option HardwareEvent × Adapter K)
          → IsTracking x.1
          → IsTracking y.1
          → IsTracking (if b then x else y).1
      either true x y hx hy = hx
      either false x y hx hy = hy

      found :
          (fs : SupportedFilesystem) (o : Option FilePath)
          → IsTracking (process_found K config uuid label devnode fs a o).1
      found fs (some existing) = h
      found fs none =
          either config.auto_mount _ _
            (after fs _ (mount_device-IsMountOf devnode uuid fs a.kernel)) h

      supported :
          (o : Option SupportedFilesystem)
          → IsTracking (process_supported K config uuid label devnode a o).1
      supported none = h
      supported (some fs) = found fs (get_mount_point K devnode a.kernel)

  unmounted-IsTracking :
      (device : BlockDevice) (a : Adapter K) (c : Result String (Unit {0}) × K.State)
      → IsNamed (cleanup device)
      → IsTracking a
      → table c.1 ≡ after_umount device.mount_point c.0 (table a.kernel)
      → IsTracking (unmounted K device a c).1
  unmounted-IsTracking device a (err x, k) named h e = record {
    one_each = h.one_each;
    all_mounted = still a.kernel k a.mounted_by_us (λ p q. rw e q) h.all_mounted;
  }
  unmounted-IsTracking device a (ok _, k) named h e = record {
    one_each = Dict.erase-NodupKeys device.uuid a.mounted_by_us h.one_each;
    all_mounted =
        Dict.All-erase_others (IsTracked a.kernel) (IsTracked _) device.uuid a.mounted_by_us
          (λ other p ne t. (
            t.0,
            rw (laws.remove_keeps device.mount_point k ∙ e) (
                is_mounted-detach p device.mount_point (table a.kernel)
                  (elim (Bool-cases (is_within device.mount_point p)) [
                    | inl inside ↦ absurd (ne (named other (rw t.0 at inside)))
                    | inr outside ↦ outside
                  ])
                  t.1),
          ))
          h.one_each h.all_mounted;
  }

  after_sync-IsTracking :
      (device : BlockDevice) (a : Adapter K) (c : Result String (Unit {0}) × K.State)
      → IsNamed (cleanup device)
      → IsTracking a
      → table c.1 ≡ table a.kernel
      → IsTracking (after_sync K device a c).1
  after_sync-IsTracking device a (r, k) named h e = by_result r
    where
      a' : Adapter K
      a' = record a { kernel = k }

      h' : IsTracking a'
      h' = record {
        one_each = h.one_each;
        all_mounted = still a.kernel k a.mounted_by_us (λ p q. rw e q) h.all_mounted;
      }

      either :
          (b : Bool) (x y : Result String (Unit {0}) × Adapter K)
          → IsTracking x.1
          → IsTracking y.1
          → IsTracking (if b then x else y).1
      either true x y hx hy = hx
      either false x y hx hy = hy

      by_result : (r : Result String (Unit {0})) → IsTracking (after_sync K device a (r, k)).1
      by_result (err x) = h'
      by_result (ok _) =
          either (is_some (Dict.lookup device.uuid a.mounted_by_us)) _ _
            (unmounted-IsTracking device a' _ named h' (laws.umount_detaches device.mount_point k))
            h'

  forward-IsTracking :
      (gone : Bool) (w : Watcher K config) (r : Option HardwareEvent × Adapter K)
      → IsTracking r.1
      → IsTracking (forward K config gone w r).adapter
  forward-IsTracking gone w (none, a) h = h
  forward-IsTracking true w (some e, a) h = h
  forward-IsTracking false w (some e, a) h = h

  take_step-IsTracking :
      (step : Step K config) (w : Watcher K config)
      → IsNamed step
      → IsTracking w.adapter
      → IsTracking (take_step K config step w).adapter
  unfolding take_step receive_event cleanup_device
  take_step-IsTracking (event data_ gone) w named h =
      either w.listening _ w
        (either w.cancelled (record w { listening = false }) _ h
          (forward-IsTracking gone w _
            (process_event_data-IsTracking data_ gone w.adapter named h)))
        h
    where
      either :
          (b : Bool) (x y : Watcher K config)
          → IsTracking x.adapter
          → IsTracking y.adapter
          → IsTracking (if b then x else y).adapter
      either true x y hx hy = hx
      either false x y hx hy = hy
  take_step-IsTracking (cleanup device) w named h =
      after_sync-IsTracking device w.adapter _ named h
        (sync_filesystem-table K table laws device.mount_point w.adapter.kernel)
  take_step-IsTracking stop w named h = h

  -- After any events, clean-ups and stops, each in any order and with any failures, every device that
  -- the adapter still counts as its own is mounted, at the name of its identifier below the base
  -- folder, and it is counted once. The identifiers are file names, and no device is cleaned up at
  -- the mount point of another or above it.
  pub after_steps-IsTracking :
      (k : K.State) (steps : List (Step K config))
      → All IsNamed steps
      → IsTracking (after_steps K config k steps).adapter
  unfolding after_steps
  after_steps-IsTracking k [] named = record { one_each = tt; all_mounted = tt }
  after_steps-IsTracking k (step ∷ steps) named =
      take_step-IsTracking step (after_steps K config k steps) named.0
        (after_steps-IsTracking k steps named.1)
