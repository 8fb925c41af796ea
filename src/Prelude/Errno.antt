-- ===== src/Prelude/Errno.antt =====
-- include/errno.h: the errno values that the modelled code returns.
use Prim.Native.Nat.{ℕ}

abbrev pub enoent : ℕ
enoent = 2

abbrev pub esrch : ℕ
esrch = 3

abbrev pub enxio : ℕ
enxio = 6

abbrev pub ebadf : ℕ
ebadf = 9

abbrev pub eagain : ℕ
eagain = 11

abbrev pub enomem : ℕ
enomem = 12

abbrev pub enodev : ℕ
enodev = 19

abbrev pub enotdir : ℕ
enotdir = 20

abbrev pub einval : ℕ
einval = 22

abbrev pub emfile : ℕ
emfile = 24

abbrev pub enospc : ℕ
enospc = 28

abbrev pub enosys : ℕ
enosys = 35

abbrev pub enoexec : ℕ
enoexec = 8

abbrev pub erofs : ℕ
erofs = 30
