-- ===== src/Examples/World.antt =====
-- A small device, a machine without errors, and concrete instances of the parameters: a hasher that
-- keeps its bytes, fixed-point numbers with two places, and a reader that gives a file in one piece.
use bksd.Base.{
  ℕ, ◌+◌, ◌*◌, ◌/◌, ◌≤◌, ◌<◌, min, ◌≡◌, refl, ap, true, none, some, [], ◌∷◌, ◌++◌, append-nil,
  append_assoc, ok, if◌then◌else◌, ◌==◌, string_eq, list_eq, ltb, leb, leb→le, arith,
}
use native.Mathlib.Nat.{le-div_iff_mul-le, div-mul-le_self, mul-div_cancel_left}
use bksd.Storage.{FilePath, Bytes, Disk, other_kind}
use bksd.Storage.Host.{Host, Blake3, IsStreaming, Float, IsIeee}
use bksd.Transfer.{TransferRequest}
use bksd.NativeCopy.Scan.{Listing, Entries, Node}
use bksd.NativeCopy.Scan.Names.{HasUniqueNames}
use bksd.NativeCopy.File.Content.{read_all}
use bksd.Verifier.{Reader}
use bksd.Verifier.Files.{IsFaithful}

abbrev pub plain_hash : Blake3
plain_hash = record { Hasher = Bytes; new = []; update = λ h bytes. h ++ bytes; finalize = λ h. h }

pub plain_hash-IsStreaming : IsStreaming plain_hash
plain_hash-IsStreaming = record {
  update-nil = append-nil;
  update-append = λ h xs ys. append_assoc h xs ys;
}

-- Numbers in hundredths.
abbrev pub fixed_point : Float
fixed_point = record {
  F64 = ℕ;
  zero_f64 = 0;
  one = 100;
  hundred = 10000;
  of_u64 = λ n. n * 100;
  div = λ a b. a * 100 / b;
  mul = λ a b. a * b / 100;
  lt = ltb;
  le = leb;
  ceil = λ a. (a + 99) / 100 * 100;
  to_u64 = λ a. a / 100;
  to_u8 = λ a. min 255 (a / 100);
}

le→leb : (a b : ℕ) → a ≤ b → leb a b ≡ true
le→leb a b h = ground arith

div-le_right : (a b k : ℕ) → 0 < k → a ≤ b → a / k ≤ b / k
div-le_right a b k pos h = (le-div_iff_mul-le pos).1 (omega (arith, div-mul-le_self a k, h))

pub fixed_point-IsIeee : IsIeee fixed_point
fixed_point-IsIeee = record {
  of_u64-le = λ a b h. le→leb (a * 100) (b * 100) (omega arith);
  div-le = λ x y n pos h.
      le→leb (x * 100 / (n * 100)) (y * 100 / (n * 100))
        (div-le_right (x * 100) (y * 100) (n * 100) (omega arith) (omega (arith, leb→le x y h)));
  div_self = λ n pos. mul-div_cancel_left 100 (omega arith);
  mul-le = λ x y h. le→leb (x * 10000 / 100) (y * 10000 / 100) (omega (arith, leb→le x y h));
  one-mul = refl;
  to_u8-le = λ x y h. omega (arith, leb→le x y h);
  to_u8-hundred = refl;
}

abbrev pub whole_reader : Reader
whole_reader = record {
  open_error = λ path. none;
  reads = λ path content. ok content ∷ ok [] ∷ [];
  no_file = record { kind = other_kind; raw_os_error = none; message = "no file" };
}

abbrev pub usb : FilePath
usb = "mnt" ∷ "usb" ∷ []

abbrev pub backup : FilePath
backup = "srv" ∷ "usb" ∷ "now" ∷ []

-- a.txt, a link, and d with b.txt.
abbrev pub device : Listing
device = Listing.listed (
    Entries.entry "a.txt" (Node.file 3) (
      Entries.entry "link" Node.symlink (
        Entries.entry "d"
          (Node.dir (Listing.listed (Entries.entry "b.txt" (Node.file 2) Entries.nil)))
          Entries.nil)))

abbrev pub host : Host
host = record {
  dir_metadata = λ path. ok 493;
  metadata = λ path. ok 420;
  open_file = λ path.
      if path == ("mnt" ∷ "usb" ∷ "a.txt" ∷ [])
      then ok (ok (1 ∷ 2 ∷ 3 ∷ []) ∷ ok [] ∷ [])
      else ok (ok (4 ∷ []) ∷ ok (5 ∷ []) ∷ ok [] ∷ []);
  times = λ path. ok (record { atime = 1; mtime = 2 });
  create_dir_all = λ path. none;
  set_dir_permissions = λ path. none;
  create = λ path. none;
  write = λ path n. none;
  flush = λ path. none;
  into_inner = λ path. none;
  sync_all = λ path. none;
  set_permissions = λ path. none;
  set_file_times = λ path. none;
  chown = λ path. none;
  user_from_name = λ name. ok (some 1000);
  group_from_name = λ name. ok (some 1000);
}

abbrev pub empty_disk : Disk
empty_disk = record { files = []; dirs = [] }

abbrev pub elapsed : FilePath → ℕ
elapsed path = 250

abbrev pub request : TransferRequest
request = record { job_id = "job-1"; source = usb; destination = backup; owner = none }

read_whole : (content : Bytes) → read_all (ok content ∷ ok [] ∷ []) ≡ ok content
unfolding read_all
read_whole [] = refl
read_whole (b ∷ bs) = ap ok (append-nil (b ∷ bs))

pub whole_reader-IsFaithful : IsFaithful whole_reader
whole_reader-IsFaithful = record {
  opens = λ path. refl;
  reads_all = λ path content. read_whole content;
}

pub device-HasUniqueNames : HasUniqueNames device
device-HasUniqueNames = (refl, tt, (refl, tt, (refl, (refl, tt, tt), tt)))
