-- ===== src/Error.antt =====
-- hoarder-common/src/error.rs: the error type of the crates, and the errno values that the
-- connection handler tells apart.
pub mod Files
pub mod Network
use hoarder.Base.{
  ℕ, ◌++◌, ℤ, pos, int_eq, neg_i32, Build, Outcome, ◌>>=◌, done, Bool, false, List, [], ◌∷◌, ◌||◌,
}

pub data HoarderError : Type 0 where
  push_error mem_alloc_fail buffer_alloc_fail : HoarderError
  io_error : ℤ → HoarderError

-- `Result<T, HoarderError>`
pub data Result {ℓ} (A : Type ℓ) : Type ℓ where
  ok : A → Result A
  err : HoarderError → Result A

pub record Errno : Type 0 where
  pub raw : ℤ

-- `impl From<i32> for HoarderError` and `impl From<Errno> for HoarderError`
abbrev pub error_from_i32 : ℤ → HoarderError
error_from_i32 v = io_error v

abbrev pub error_from_errno : Errno → HoarderError
error_from_errno e = io_error e.raw

abbrev pub into_i32 : Errno → ℤ
into_i32 e = e.raw

-- The value of a failed system call is negative; its errno is the number without the sign.
unfoldable pub from_raw_syscall_error : Build → ℤ → Outcome Errno
from_raw_syscall_error build v = do raw ← neg_i32 build v; done (record { raw = raw })

-- `Display`: the text of an error, given how `i32` is displayed.
unfoldable pub display : (ℤ → List ℕ) → HoarderError → List ℕ
-- "failed to push entry to queue"
display show push_error =
    102 ∷ 97 ∷ 105 ∷ 108 ∷ 101 ∷ 100 ∷ 32 ∷ 116 ∷ 111 ∷ 32 ∷ 112 ∷ 117 ∷ 115 ∷ 104 ∷ 32 ∷ 101 ∷ 110
    ∷ 116 ∷ 114 ∷ 121 ∷ 32 ∷ 116 ∷ 111 ∷ 32 ∷ 113 ∷ 117 ∷ 101 ∷ 117 ∷ 101 ∷ []
-- "failed to allocate memory"
display show mem_alloc_fail =
    102 ∷ 97 ∷ 105 ∷ 108 ∷ 101 ∷ 100 ∷ 32 ∷ 116 ∷ 111 ∷ 32 ∷ 97 ∷ 108 ∷ 108 ∷ 111 ∷ 99 ∷ 97 ∷ 116
    ∷ 101 ∷ 32 ∷ 109 ∷ 101 ∷ 109 ∷ 111 ∷ 114 ∷ 121 ∷ []
-- "failed to allocate buffer"
display show buffer_alloc_fail =
    102 ∷ 97 ∷ 105 ∷ 108 ∷ 101 ∷ 100 ∷ 32 ∷ 116 ∷ 111 ∷ 32 ∷ 97 ∷ 108 ∷ 108 ∷ 111 ∷ 99 ∷ 97 ∷ 116
    ∷ 101 ∷ 32 ∷ 98 ∷ 117 ∷ 102 ∷ 102 ∷ 101 ∷ 114 ∷ []
-- "os error: "
display show (io_error e) = (111 ∷ 115 ∷ 32 ∷ 101 ∷ 114 ∷ 114 ∷ 111 ∷ 114 ∷ 58 ∷ 32 ∷ []) ++ show e

-- `Errno::last` and `Errno::set`, on libc's cell of the thread.
abbrev pub last : ℤ → Errno
last cell = record { raw = cell }

abbrev pub set : ℤ → Errno → ℤ
set cell e = e.raw

abbrev pub errno : ℤ → Errno
errno v = record { raw = v }

abbrev pub eintr : Errno
eintr = errno (pos 4)

abbrev pub eio : Errno
eio = errno (pos 5)

abbrev pub ebadf : Errno
ebadf = errno (pos 9)

abbrev pub eagain : Errno
eagain = errno (pos 11)

abbrev pub enomem : Errno
enomem = errno (pos 12)

abbrev pub efault : Errno
efault = errno (pos 14)

abbrev pub einval : Errno
einval = errno (pos 22)

abbrev pub enotsock : Errno
enotsock = errno (pos 88)

abbrev pub eopnotsupp : Errno
eopnotsupp = errno (pos 95)

abbrev pub eafnosupport : Errno
eafnosupport = errno (pos 97)

abbrev pub enetdown : Errno
enetdown = errno (pos 100)

abbrev pub enetunreach : Errno
enetunreach = errno (pos 101)

abbrev pub enetreset : Errno
enetreset = errno (pos 102)

abbrev pub econnaborted : Errno
econnaborted = errno (pos 103)

abbrev pub econnreset : Errno
econnreset = errno (pos 104)

abbrev pub enobufs : Errno
enobufs = errno (pos 105)

abbrev pub enotconn : Errno
enotconn = errno (pos 107)

abbrev pub eshutdown : Errno
eshutdown = errno (pos 108)

abbrev pub etimedout : Errno
etimedout = errno (pos 110)

-- Whether a pattern `e1 | e2 | ...` of errno constants matches.
unfoldable pub is_one_of : Errno → List Errno → Bool
is_one_of e [] = false
is_one_of e (x ∷ xs) = int_eq e.raw x.raw || is_one_of e xs
