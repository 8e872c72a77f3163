-- ===== src/Metadata.antt =====
-- types/metadata.rs: permissions, platform metadata (of a Linux build, where a default is needed),
-- and the metadata of an entry. A time is a number.
pub mod Permissions
use shadowfs.Base.{ℕ, Option, none, some, Bool, false}
use Permissions.{FilePermissions}

pub data FileType : Type 0 where
  file directory symlink : FileType

pub data PlatformMetadata : Type 0 where
  windows : ℕ → Option ℕ → PlatformMetadata
  mac_os : ℕ → ℕ → PlatformMetadata
  linux : ℕ → ℕ → PlatformMetadata

abbrev pub default_platform : PlatformMetadata
default_platform = linux 0 1

pub record FileMetadata : Type 0 where
  pub size : ℕ
  pub created : ℕ
  pub modified : ℕ
  pub accessed : ℕ
  pub permissions : FilePermissions
  pub file_type : FileType
  pub platform_specific : PlatformMetadata
