-- ===== src/Linux/Table.antt =====
-- The table of mounts, newest first, and what the adapter relies on of the calls that change it.
use bksd.Base.{
  String, ◌≡◌, Bool, true, false, List, [], ◌∷◌, ◌||◌, Result, ok, err, ◌==◌, ==_self, refl, ◌&&◌,
  list_eq, string_eq, if◌then◌else◌, arith,
}
use bksd.Storage.{FilePath, show_path}
use bksd.Linux.{Kernel, MountFlag}
use bksd.Base.{Option, list_beq_iff}

abbrev pub MountTable : Type 0
MountTable = List (String × FilePath)

-- A path is the point or stands below it.
unfoldable pub is_within : FilePath → FilePath → Bool
is_within [] path = true
is_within (c ∷ point) [] = false
is_within (c ∷ point) (d ∷ path) = c == d && is_within point path

-- MNT_DETACH: the topmost mount at a point is taken away with all mounts below it. These are newer
-- than it; an older mount below the point belongs to what the mount at the point has covered.
unfoldable pub detach : FilePath → MountTable → MountTable
detach point [] = []
detach point ((device, p) ∷ t) =
    let rest = detach point t in
    if p == point then t else if is_within point p then rest else (device, p) ∷ rest

unfoldable pub is_mounted : FilePath → MountTable → Bool
is_mounted point [] = false
is_mounted point ((device, p) ∷ t) = p == point || is_mounted point t

abbrev pub after_mount : FilePath → FilePath → Result String (Unit {0}) → MountTable → MountTable
after_mount device point (ok _) t = (show_path device, point) ∷ t
after_mount device point (err e) t = t

abbrev pub after_umount : FilePath → Result String (Unit {0}) → MountTable → MountTable
after_umount point (ok _) t = detach point t
after_umount point (err e) t = t

-- A mount that succeeds is added, a lazy unmount that succeeds takes the topmost mount away with those
-- below it, and nothing else changes the table, as mount(2) and umount(2) say. There are no bind
-- mounts and no propagation between namespaces.
pub record HasMounts (K : Kernel) (table : K.State → MountTable) : Type 0 where
  pub create_keeps : (p : FilePath) (k : K.State) → table (K.create_dir_all p k).1 ≡ table k
  pub remove_keeps : (p : FilePath) (k : K.State) → table (K.remove_dir p k).1 ≡ table k
  pub sync_keeps : (p : FilePath) (k : K.State) → table (K.syncfs p k).1 ≡ table k
  pub mount_adds :
      (device p : FilePath) (fs : String) (flags : List MountFlag) (options : Option String)
      (k : K.State)
      → table (K.mount device p fs flags options k).1
        ≡ after_mount device p (K.mount device p fs flags options k).0 (table k)
  pub umount_detaches :
      (p : FilePath) (k : K.State)
      → table (K.umount2 p k).1 ≡ after_umount p (K.umount2 p k).0 (table k)

pub is_within_self : (p : FilePath) → is_within p p ≡ true
unfolding is_within
is_within_self [] = refl
is_within_self (c ∷ p) = ground (arith, ==_self c, is_within_self p)

-- A mount that does not stand at the point or below it stays.
pub is_mounted-detach :
    (p point : FilePath) (t : MountTable)
    → is_within point p ≡ false
    → is_mounted p t ≡ true
    → is_mounted p (detach point t) ≡ true
unfolding is_mounted detach
is_mounted-detach p point [] outside h = h
is_mounted-detach p point ((d, q) ∷ t) outside h = ground (
  arith,
  list_beq_iff q point,
  list_beq_iff q p,
  is_within_self p,
  is_mounted-detach p point t outside,
)

pub detach-first :
    (device : String) (point : FilePath) (t : MountTable) → detach point ((device, point) ∷ t) ≡ t
unfolding detach
detach-first device point t = ground (arith, list_beq_iff point point)

pub is_mounted-first :
    (device : String) (point : FilePath) (t : MountTable)
    → is_mounted point ((device, point) ∷ t) ≡ true
unfolding is_mounted
is_mounted-first device point t = ground (arith, list_beq_iff point point)

pub is_mounted-cons :
    (device : String) (point p : FilePath) (t : MountTable)
    → is_mounted p t ≡ true
    → is_mounted p ((device, point) ∷ t) ≡ true
unfolding is_mounted
is_mounted-cons device point p t h = ground arith
