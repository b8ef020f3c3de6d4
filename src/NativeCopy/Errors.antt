-- ===== src/NativeCopy/Errors.antt =====
-- Which I/O errors of src/core/transfer_engine/native_copy.rs count as a device that was pulled out.
use bksd.Base.{ℕ, Bool, true, false, ◌||◌, Option, none, some, ◌==◌, nat_eq}
use bksd.Storage.{
  ErrorKind, not_found, permission_denied, broken_pipe, connection_reset, connection_aborted,
  not_connected, other_kind, IoError,
}

-- The Linux numbers of EIO, ENODEV, ENXIO, ENOMEDIUM and EMEDIUMTYPE.
unfoldable pub is_device_error_code : ℕ → Bool
is_device_error_code code = code == 5 || code == 19 || code == 6 || code == 123 || code == 124

-- The catch-all arm of the match on the error's kind.
is_device_removed_errno : Option ℕ → Bool
unfolding is_device_error_code
is_device_removed_errno none = false
is_device_removed_errno (some os_error) = is_device_error_code os_error

is_device_removed_kind : ErrorKind → Option ℕ → Bool
unfolding is_device_removed_errno
is_device_removed_kind not_found errno = true
is_device_removed_kind permission_denied errno = false
is_device_removed_kind broken_pipe errno = true
is_device_removed_kind connection_reset errno = true
is_device_removed_kind connection_aborted errno = true
is_device_removed_kind not_connected errno = true
is_device_removed_kind other_kind errno = is_device_removed_errno errno

unfoldable pub is_device_removed_error : IoError → Bool
unfolding is_device_removed_kind
is_device_removed_error error = is_device_removed_kind error.kind error.raw_os_error
