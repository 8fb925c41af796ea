-- ===== src/Libc/Errno.antt =====
-- include/errno.h: the names of the errno values, whose numbers go from 1 to 35 without a gap.
use levos.Prelude.{ℕ, zero, suc, List, [], ◌∷◌, get_or}
use levos.Prelude.Text.{codes}
use levos.Prelude.Int.{ℤ, pos, negsuc}

-- The cases of the switch, in the order of their numbers.
abbrev errno_names : List (List ℕ)
errno_names =
    codes "EPERM"
    ∷ codes "ENOENT"
    ∷ codes "ESRCH"
    ∷ codes "EINTR"
    ∷ codes "EIO"
    ∷ codes "ENXIO"
    ∷ codes "E2BIG"
    ∷ codes "ENOEXEC"
    ∷ codes "EBADF"
    ∷ codes "ECHILD"
    ∷ codes "EAGAIN"
    ∷ codes "ENOMEM"
    ∷ codes "EACCES"
    ∷ codes "EFAULT"
    ∷ codes "ENOTBLK"
    ∷ codes "EBUSY"
    ∷ codes "EEXIST"
    ∷ codes "EXDEV"
    ∷ codes "ENODEV"
    ∷ codes "ENOTDIR"
    ∷ codes "EISDIR"
    ∷ codes "EINVAL"
    ∷ codes "ENFILE"
    ∷ codes "EMFILE"
    ∷ codes "ENOTTY"
    ∷ codes "ETXTBSY"
    ∷ codes "EFBIG"
    ∷ codes "ENOSPC"
    ∷ codes "ESPIPE"
    ∷ codes "EROFS"
    ∷ codes "EMLINK"
    ∷ codes "EPIPE"
    ∷ codes "EDOM"
    ∷ codes "ERANGE"
    ∷ codes "ENOSYS"
    ∷ []

-- The text of an errno that is not negative.
name_of : ℕ → List ℕ
name_of zero = codes "SUCCESS"
name_of (suc n) = get_or errno_names n (codes "UNKNOWN")

unfoldable pub errno_to_string : ℤ → List ℕ
unfolding name_of
errno_to_string (pos n) = name_of n
errno_to_string (negsuc n) = name_of (suc n)
