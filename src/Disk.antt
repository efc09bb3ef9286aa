-- ===== src/Disk.antt =====
-- What the storage layer asks of the operating system, whose code is not in the repository: the
-- outcome of the n-th call is a parameter, and `IsDisk` is what POSIX documents of a read that works.
-- src/storage/fs_util.h wraps these calls in loops that go on after a partial transfer.
use somnium_db.Prelude.{ℕ, ◌≡◌, Bool, Option, some, take, drop, Bytes}

pub record Disk : Type 0 where
  -- `pwrite_all(fd, data, off)`: the result, and the file after it
  pub pwrite_all : ℕ → Bytes → Bytes → ℕ → Bool × Bytes
  -- `pread_all(fd, len, off)`: the bytes read, or false
  pub pread_all : ℕ → Bytes → ℕ → ℕ → Option Bytes

pub record IsDisk (d : Disk) : Type 0 where
  -- A read that works returns what stands at the offset.
  pub reads :
      (n : ℕ) (file bytes : Bytes) (len off : ℕ)
      → d.pread_all n file len off ≡ some bytes
      → bytes ≡ take len (drop off file)
