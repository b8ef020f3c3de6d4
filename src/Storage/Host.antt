-- ===== src/Storage/Host.antt =====
-- What the code calls and does not implement: the machine's answers to its system calls, the BLAKE3
-- hasher, and the floating-point numbers.
use bksd.Base.{ℕ, ◌≤◌, ◌<◌, ◌≡◌, String, Bool, true, Option, List, [], ◌++◌, Result}
use bksd.Storage.{FilePath, IoError, Bytes, FileTimes}

-- The answers of the system during one transfer. A call that only reads gives its result; of a call
-- that writes only its error is given, and its effect on the disk is in the model.
pub record Host : Type 0 where
  -- `fs::metadata` of a source directory and of a source file: the permissions.
  pub dir_metadata : FilePath → Result IoError ℕ
  pub metadata : FilePath → Result IoError ℕ
  -- `File::open`, with the results of the calls of `read` that follow.
  pub open_file : FilePath → Result IoError (List (Result IoError Bytes))
  -- The second `fs::metadata` of a source file, for its times.
  pub times : FilePath → Result IoError FileTimes
  pub create_dir_all : FilePath → Option IoError
  pub set_dir_permissions : FilePath → Option IoError
  pub create : FilePath → Option IoError
  -- `write_all` at an offset of the file.
  pub write : FilePath → ℕ → Option IoError
  pub flush : FilePath → Option IoError
  pub into_inner : FilePath → Option IoError
  pub sync_all : FilePath → Option IoError
  pub set_permissions : FilePath → Option IoError
  pub set_file_times : FilePath → Option IoError
  pub chown : FilePath → Option IoError
  -- `User::from_name` and `Group::from_name`: an error's text, or the number if there is one.
  pub user_from_name : String → Result String (Option ℕ)
  pub group_from_name : String → Result String (Option ℕ)

-- `blake3::Hasher`; `finalize` gives the 32 bytes of `as_bytes`.
pub record Blake3 : Type 1 where
  pub Hasher : Type 0
  pub new : Hasher
  pub update : Hasher → Bytes → Hasher
  pub finalize : Hasher → Bytes

-- A hasher that is fed in pieces has seen their concatenation.
pub record IsStreaming (B : Blake3) : Type 0 where
  pub update-nil : (h : B.Hasher) → B.update h [] ≡ h
  pub update-append :
      (h : B.Hasher) (xs ys : Bytes) → B.update (B.update h xs) ys ≡ B.update h (xs ++ ys)

abbrev pub hash_of : (B : Blake3) → Bytes → Bytes
hash_of B bytes = B.finalize (B.update B.new bytes)

-- `f64`: the constants and operations that the code uses.
pub record Float : Type 1 where
  pub F64 : Type 0
  pub zero_f64 : F64
  pub one : F64
  pub hundred : F64
  -- `n as f64`
  pub of_u64 : ℕ → F64
  pub div : F64 → F64 → F64
  pub mul : F64 → F64 → F64
  pub lt : F64 → F64 → Bool
  pub le : F64 → F64 → Bool
  pub ceil : F64 → F64
  -- `x as u64` and `x as u8`, which saturate
  pub to_u64 : F64 → ℕ
  pub to_u8 : F64 → ℕ

-- What IEEE 754 and the casts give for numbers that come from `u64`: rounding is monotone, and
-- the quotient of a number by itself is exact.
pub record IsIeee (F : Float) : Type 0 where
  pub of_u64-le : (a b : ℕ) → a ≤ b → F.le (F.of_u64 a) (F.of_u64 b) ≡ true
  pub div-le :
      (x y : F.F64) (n : ℕ)
      → 0 < n
      → F.le x y ≡ true
      → F.le (F.div x (F.of_u64 n)) (F.div y (F.of_u64 n)) ≡ true
  pub div_self : (n : ℕ) → 0 < n → F.div (F.of_u64 n) (F.of_u64 n) ≡ F.one
  pub mul-le : (x y : F.F64) → F.le x y ≡ true → F.le (F.mul x F.hundred) (F.mul y F.hundred) ≡ true
  pub one-mul : F.mul F.one F.hundred ≡ F.hundred
  pub to_u8-le : (x y : F.F64) → F.le x y ≡ true → F.to_u8 x ≤ F.to_u8 y
  pub to_u8-hundred : F.to_u8 F.hundred ≡ 100
