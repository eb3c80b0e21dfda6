-- ===== src/Permission.antt =====
-- fineftp-server/include/fineftp/permissions.h. A `Permission` is the bit pattern of a 32-bit `int`,
-- so `operator~` flips 32 bits.
use Prim.Native.Nat.{bit_and, bit_or, bit_xor}
use fineftp_server.Base.{ℕ, Bool, ◌==◌}

abbrev pub Permission : Type 0
Permission = ℕ

abbrev pub file_read : Permission
file_read = 1

abbrev pub file_write : Permission
file_write = 2

abbrev pub file_append : Permission
file_append = 4

abbrev pub file_delete : Permission
file_delete = 8

abbrev pub file_rename : Permission
file_rename = 16

abbrev pub dir_list : Permission
dir_list = 32

abbrev pub dir_create : Permission
dir_create = 64

abbrev pub dir_delete : Permission
dir_delete = 128

abbrev pub dir_rename : Permission
dir_rename = 256

unfoldable pub permission_and : Permission → Permission → Permission
permission_and a b = bit_and a b

unfoldable pub permission_or : Permission → Permission → Permission
permission_or a b = bit_or a b

unfoldable pub permission_xor : Permission → Permission → Permission
permission_xor a b = bit_xor a b

unfoldable pub permission_not : Permission → Permission
permission_not a = bit_xor a 0xffff_ffff

abbrev pub none : Permission
none = 0

abbrev pub all : Permission
all = 511

abbrev pub read_only : Permission
read_only = 33

-- `static_cast<int>(a & b) == 0`, the test by which the handlers refuse.
unfoldable pub denies : Permission → Permission → Bool
unfolding permission_and
denies a b = permission_and a b == 0
