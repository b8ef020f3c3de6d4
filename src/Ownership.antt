-- ===== src/Ownership.antt =====
-- src/core/ownership.rs: whose the files of a backup shall be. Log messages are left out.
use bksd.Base.{ℕ, String, ◌==◌, string_eq, Option, none, some, if◌then◌else◌}
use bksd.Storage.{FilePath, OwnerIds}
use bksd.Transfer.{FileOwner}

-- A `User` of the system, as far as the code reads it.
pub record Account : Type 0 where
  pub name : String
  pub gid : ℕ

-- The environment and the system's tables of users and groups. A lookup is `none` where it fails or
-- finds nothing, which the code does not tell apart.
pub record Accounts : Type 0 where
  pub sudo_user : Option String
  pub user_from_name : String → Option Account
  pub user_from_uid : ℕ → Option Account
  pub group_from_gid : ℕ → Option String
  pub metadata : FilePath → Option OwnerIds

infixl 10 ◌>>=◌
abbrev ◌>>=◌ : {A B : Type 0} → Option A → (A → Option B) → Option B
none >>= f = none
some a >>= f = f a

module _ (accounts : Accounts) where
  -- A user by name, with the primary group.
  abbrev named_owner : String → Option FileOwner
  named_owner sudo_user = do
    user ← accounts.user_from_name sudo_user
    group ← accounts.group_from_gid user.gid
    some (record { user = sudo_user; group = group })

  unfoldable pub get_owner_from_sudo_user : Option FileOwner
  get_owner_from_sudo_user = do
    sudo_user ← accounts.sudo_user
    if sudo_user == "" then none else named_owner sudo_user

  unfoldable pub get_owner_from_path : FilePath → Option FileOwner
  get_owner_from_path path = do
    metadata ← accounts.metadata path
    user ← accounts.user_from_uid metadata.uid
    group ← accounts.group_from_gid metadata.gid
    some (record { user = user.name; group = group })

  abbrev or_else : Option FileOwner → Option FileOwner → Option FileOwner
  or_else (some owner) other = some owner
  or_else none other = other

  unfoldable pub get_backup_owner : FilePath → Option FileOwner
  get_backup_owner backup_dir = or_else get_owner_from_sudo_user (get_owner_from_path backup_dir)
