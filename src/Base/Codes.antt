-- ===== src/Base/Codes.antt =====
-- The `int` that the C functions return: a count or handle of zero or more, or a negated errno.
use Prim.Native.Nat.{ℕ, zero, suc}
use mathlib.Core.Bool.{Bool, true, false}

-- `failure` is a plain -1. `other` is any code that only a driver or a service gives.
pub data Errno : Type 0 where
  eio enoent enomem ebusy eexist enodev einval emfile erofs espipe epipe enospc : Errno
  conn_lost failure : Errno
  other : ℕ → Errno

pub data Code : Type 0 where
  ok : ℕ → Code
  err : Errno → Code

-- `result >= 0`
abbrev pub is_ok : Code → Bool
is_ok (ok n) = true
is_ok (err e) = false

-- `result == 0`
abbrev pub is_zero : Code → Bool
is_zero (ok n) = elim n [ zero ↦ true | suc k ↦ false ]
is_zero (err e) = false
