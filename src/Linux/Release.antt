-- ===== src/Linux/Release.antt =====
-- What the clean-up of a device undoes, and what it leaves alone.
use bksd.Base.{
  ◌≡◌, refl, ap, ◌∙◌, String, Bool, true, false, Option, none, some, ◌∷◌, Result, ok, err,
  string_eq, if◌then◌else◌, subst,
}
use bksd.Base.Dict
use bksd.Base.Dict.{NodupKeys}
use bksd.Storage.{FilePath, show_path}
use bksd.Hardware.{BlockDevice, HardwareEvent, SupportedFilesystem, device_added, from_str}
use bksd.Linux.{
  LinuxAdapterConfig, Kernel, Adapter, add, mounted, process_found, process_supported,
  process_event_data, unmounted, after_sync, sync_filesystem, cleanup_device, get_mount_point,
  block_device,
}
use bksd.Linux.Table.{MountTable, HasMounts, after_umount, detach-first, detach}
use bksd.Linux.Tracking.{IsMountOf, mount_device-IsMountOf, sync_filesystem-table}

module _ (K : Kernel) (table : K.State → MountTable) (laws : HasMounts K table) where
  -- What a clean-up does to the table and to the record of our mounts, by its result and by whether
  -- we have mounted the device. A failure leaves both.
  abbrev pub IsCleanUp :
      BlockDevice → Adapter K → Option FilePath → Result String (Unit {0}) → Adapter K → Type 0
  IsCleanUp device a tracked (err e) a' =
      (table a'.kernel ≡ table a.kernel) × (a'.mounted_by_us ≡ a.mounted_by_us)
  IsCleanUp device a none (ok _) a' =
      (table a'.kernel ≡ table a.kernel) × (a'.mounted_by_us ≡ a.mounted_by_us)
  IsCleanUp device a (some point) (ok _) a' =
      (table a'.kernel ≡ detach device.mount_point (table a.kernel))
      × (a'.mounted_by_us ≡ Dict.erase device.uuid a.mounted_by_us)

  unmounted-IsCleanUp :
      (device : BlockDevice) (a : Adapter K) (k : K.State) (point : FilePath)
      (c : Result String (Unit {0}) × K.State)
      → table k ≡ table a.kernel
      → table c.1 ≡ after_umount device.mount_point c.0 (table k)
      → let r = unmounted K device (record a { kernel = k }) c in
        IsCleanUp device a (some point) r.0 r.1
  unmounted-IsCleanUp device a k point (err e, k') same h = (h ∙ same, refl)
  unmounted-IsCleanUp device a k point (ok _, k') same h =
      (laws.remove_keeps device.mount_point k' ∙ (h ∙ ap (detach device.mount_point) same), refl)

  -- A clean-up that fails changes neither the mounts nor the record of our mounts. One that succeeds
  -- takes away the topmost mount at the device's mount point with all mounts below it, and the record
  -- of the device, if the device is recorded as mounted by us; otherwise it leaves both alone.
  pub cleanup_device-IsCleanUp :
      (device : BlockDevice) (a : Adapter K)
      → let r = cleanup_device K device a in
        IsCleanUp device a (Dict.lookup device.uuid a.mounted_by_us) r.0 r.1
  unfolding cleanup_device
  cleanup_device-IsCleanUp device a =
      synced (sync_filesystem K device.mount_point a.kernel)
        (sync_filesystem-table K table laws device.mount_point a.kernel)
        (Dict.lookup device.uuid a.mounted_by_us) refl
    where
      synced :
          (c : Result String (Unit {0}) × K.State)
          → table c.1 ≡ table a.kernel
          → (tracked : Option FilePath) → Dict.lookup device.uuid a.mounted_by_us ≡ tracked
          → let r = after_sync K device a c in IsCleanUp device a tracked r.0 r.1
      synced (err e, k) same tracked e' = (same, refl)
      synced (ok _, k) same none e = rw e (same, refl)
      synced (ok _, k) same (some point) e = rw e (
          unmounted-IsCleanUp device a k point (K.umount2 device.mount_point k) same
            (laws.umount_detaches device.mount_point k))

  module _ (config : LinuxAdapterConfig) (uuid : String) (a : Adapter K)
      (new : Dict.lookup uuid a.mounted_by_us ≡ none) where
    -- The mounts and the record of our mounts are those of `a` again.
    abbrev IsRestored : Result String (Unit {0}) → Adapter K → Type 0
    IsRestored (err e) a'' = Unit
    IsRestored (ok _) a'' =
        (table a''.kernel ≡ table a.kernel) × (a''.mounted_by_us ≡ a.mounted_by_us)

    abbrev IsUndone : Option HardwareEvent × Adapter K → Type 0
    IsUndone (some (device_added device), a') =
        let r = cleanup_device K device a' in IsRestored r.0 r.1
    IsUndone _ = Unit

    untracked :
        (device : BlockDevice) (o : Option FilePath) (r : Result String (Unit {0}))
        (a'' : Adapter K)
        → o ≡ none
        → IsCleanUp device a o r a''
        → IsRestored r a''
    untracked device o (err e) a'' h c = tt
    untracked device none (ok _) a'' h c = c
    untracked device (some point) (ok _) a'' h c = absurd (cc h)

    tracked :
        (device : BlockDevice) (k : K.State) (node : String) (o : Option FilePath)
        (r : Result String (Unit {0})) (a'' : Adapter K)
        → device.uuid ≡ uuid
        → table k ≡ (node, device.mount_point) ∷ table a.kernel
        → o ≡ some device.mount_point
        → IsCleanUp device
            (record {
              mounted_by_us = Dict.insert uuid device.mount_point a.mounted_by_us;
              kernel = k;
            })
            o
            r
            a''
        → IsRestored r a''
    tracked device k node o (err e) a'' same t h c = tt
    tracked device k node none (ok _) a'' same t h c = absurd (cc h)
    tracked device k node (some point) (ok _) a'' same t h c = (
      c.0
          ∙ (ap (detach device.mount_point) t
              ∙ detach-first node device.mount_point (table a.kernel)),
      c.1
          ∙ (ap (λ id. Dict.erase id (Dict.insert uuid device.mount_point a.mounted_by_us)) same
              ∙ Dict.erase-insert_new uuid device.mount_point a.mounted_by_us new),
    )

    mounted-IsUndone :
        (label : String) (devnode : FilePath) (fs : SupportedFilesystem)
        (m : Result String FilePath × K.State)
        → IsMountOf K table laws config devnode uuid a.kernel m
        → IsUndone (mounted K uuid label devnode fs a m)
    mounted-IsUndone label devnode fs (err e, k) h = tt
    mounted-IsUndone label devnode fs (ok point, k) h =
        let device = block_device K uuid label devnode fs point k in
        tracked device k (show_path devnode) _ _ _ refl h.1
          (Dict.lookup-insert_self uuid point a.mounted_by_us) (cleanup_device-IsCleanUp device _)

    either :
        (b : Bool) (x y : Option HardwareEvent × Adapter K)
        → IsUndone x
        → IsUndone y
        → IsUndone (if b then x else y)
    either true x y hx hy = hx
    either false x y hx hy = hy

    process-IsUndone :
        (label : String) (devnode : FilePath) (o : Option SupportedFilesystem)
        → IsUndone (process_supported K config uuid label devnode a o)
    process-IsUndone label devnode none = tt
    process-IsUndone label devnode (some fs) = found (get_mount_point K devnode a.kernel)
      where
        found : (o : Option FilePath) → IsUndone (process_found K config uuid label devnode fs a o)
        found none =
            either config.auto_mount _ _
              (mounted-IsUndone label devnode fs _
                (mount_device-IsMountOf K table laws config devnode uuid fs a.kernel))
              tt
        found (some existing) =
            let device = block_device K uuid label devnode fs existing a.kernel in
            untracked device _ _ _ new (cleanup_device-IsCleanUp device a)

    -- The arrival of a device that is not yet recorded as mounted by us, and then a clean-up of the
    -- reported device that succeeds, leave the mounts and the record of our mounts as they were
    -- before: a device that we mounted is unmounted, and one that was mounted already stays so.
    pub cleanup_device-process_event_data :
        (label fs_type : String) (devnode : FilePath) (device : BlockDevice) (a' a'' : Adapter K)
        → process_event_data K config (add uuid label devnode fs_type) a
          ≡ (some (device_added device), a')
        → cleanup_device K device a' ≡ (ok tt, a'')
        → (table a''.kernel ≡ table a.kernel) × (a''.mounted_by_us ≡ a.mounted_by_us)
    unfolding process_event_data
    cleanup_device-process_event_data label fs_type devnode device a' a'' arrived cleaned =
        subst (λ (r : Result String (Unit {0}) × Adapter K). IsRestored r.0 r.1) cleaned
          (subst IsUndone arrived (process-IsUndone label devnode (from_str fs_type)))
