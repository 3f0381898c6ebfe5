-- ===== src/User/Fd.antt =====
-- File descriptors, user/lib/fd.c. The page of a descriptor is its number; what the page tables say
-- of it, and the page tables of its data, are fields of the state. The devices are parameters: the
-- functions of a `struct Dev`.
pub mod Alloc
pub mod Device
pub mod Read
pub mod Tests
use mos_volca_shell.Base.{
  ℕ, zero, suc, ◌+◌, ◌-◌, ◌*◌, ◌/◌, ◌%◌, ◌^◌, Bool, false, not, ◌||◌, List, [], ◌∷◌, ◌==◌, leb,
  if◌then◌else◌, update, Run, ok, err, panic, Cmd, ◌>>=◌, ◌>>◌, pure, fail, modify, and_then, inval,
  max_open,
}

-- MAXFD
abbrev pub max_fd : ℕ
max_fd = 32

-- `struct Fd`
pub record Fd : Type 0 where
  pub fd_dev_id : ℕ
  pub fd_offset : ℕ
  pub fd_omode : ℕ

-- The descriptors of an environment: whether the page of each is mapped, and what it holds, with
-- the state `rest` of everything else.
pub record Table (S : Type 0) : Type 0 where
  pub used : ℕ → Bool
  pub fd : ℕ → Fd
  pub rest : S

-- The functions of a device that are called here. A result is an error code, which is negative, or the
-- word of an `int`: that of a number of bytes, if it is below 2^31, and else a negative one too.
pub record Dev (S : Type 0) : Type 0 where
  pub dev_id : ℕ
  pub dev_read : ℕ → ℕ → ℕ → ℕ → Cmd (Table S) ℕ
  pub dev_write : ℕ → ℕ → ℕ → ℕ → Cmd (Table S) ℕ
  pub dev_close : ℕ → Cmd (Table S) (Unit {0})

-- FILEBASE, FDTABLE, INDEX2FD and INDEX2DATA
abbrev pub filebase : ℕ
filebase = 0x60000000

abbrev pub pdmap : ℕ
pdmap = 4 * 1024 * 1024

abbrev pub fdtable : ℕ
fdtable = filebase - pdmap

abbrev pub by2pg : ℕ
by2pg = 4096

unfoldable pub num2fd : ℕ → ℕ
num2fd fd = fd * by2pg + fdtable

unfoldable pub fd2num : ℕ → ℕ
fd2num va = (va - fdtable) / by2pg

unfoldable pub index2data : ℕ → ℕ
index2data i = filebase + i * pdmap

unfoldable pub fd2data : ℕ → ℕ
unfolding index2data fd2num
fd2data va = index2data (fd2num va)

-- O_RDONLY, O_WRONLY and O_ACCMODE
abbrev pub access_mode : ℕ → ℕ
access_mode omode = omode % 4

module _ {S : Type 0} where
  -- The loop of `dev_lookup` over `devtab`.
  unfoldable pub dev_lookup : List (Dev S) → ℕ → Cmd (Table S) (Dev S)
  dev_lookup [] id s = err inval s
  dev_lookup (d ∷ devtab) id s =
      let rest = dev_lookup devtab id s in if d.dev_id == id then ok d s else rest

  -- The loop of `fd_alloc` from `fdno` on, with `n` rounds left. A descriptor whose page table is
  -- missing is not mapped either.
  unfoldable pub fd_scan : ℕ → ℕ → Cmd (Table S) ℕ
  fd_scan zero fdno s = err max_open s
  fd_scan (suc n) fdno s =
      let rest = fd_scan n (fdno + 1) s in if not (s.used fdno) then ok fdno s else rest

  -- The loop stops in front of the last descriptor.
  unfoldable pub fd_alloc : Cmd (Table S) ℕ
  unfolding fd_scan
  fd_alloc s = fd_scan (max_fd - 1) 0 s

  unfoldable pub fd_close : ℕ → Cmd (Table S) (Unit {0})
  fd_close fd s = ok tt (record s { used = update s.used fd false })

  unfoldable pub fd_lookup : ℕ → Cmd (Table S) ℕ
  fd_lookup fdnum s =
      if leb max_fd fdnum then err inval s else if s.used fdnum then ok fdnum s else err inval s

  -- `fd_lookup` and then `dev_lookup`
  unfoldable pub device_of : List (Dev S) → ℕ → Cmd (Table S) (Dev S)
  unfolding fd_lookup dev_lookup
  device_of devtab fdnum = do fd ← fd_lookup fdnum; (λ s. dev_lookup devtab ((s.fd fd).fd_dev_id) s)

  -- Whatever the device returns, the descriptor is closed, and its result is that of `close`.
  unfoldable pub close_fd : ℕ → Run (Table S) (Unit {0}) → Run (Table S) (Unit {0})
  unfolding fd_close
  close_fd fd (ok u s) = fd_close fd s
  close_fd fd (err e s) = and_then (fd_close fd s) (λ u. fail e)
  close_fd fd panic = panic

  unfoldable pub close : List (Dev S) → ℕ → Cmd (Table S) (Unit {0})
  unfolding device_of close_fd
  close devtab fdnum = do
    dev ← device_of devtab fdnum
    (λ s. close_fd fdnum (dev.dev_close fdnum s))

  unfoldable pub whatever : Run (Table S) (Unit {0}) → Run (Table S) (Unit {0})
  whatever (ok u s) = ok tt s
  whatever (err e s) = ok tt s
  whatever panic = panic

  -- The loop of `close_all` from `i` on.
  unfoldable pub close_from : List (Dev S) → ℕ → ℕ → Cmd (Table S) (Unit {0})
  unfolding close whatever
  close_from devtab zero i = pure tt
  close_from devtab (suc n) i = (λ s. whatever (close devtab i s)) >> close_from devtab n (i + 1)

  unfoldable pub close_all : List (Dev S) → Cmd (Table S) (Unit {0})
  unfolding close_from
  close_all devtab = close_from devtab max_fd 0

  -- `fd->fd_offset += r`
  abbrev pub add_offset : ℕ → ℕ → Table S → Table S
  add_offset fd r s = record s {
    fd = update s.fd fd (record (s.fd fd) { fd_offset = ((s.fd fd).fd_offset + r) % 2 ^ 32 });
  }

  -- The offset grows by what was read or written, if that is more than nothing as an `int`.
  unfoldable pub moved_by : ℕ → Run (Table S) ℕ → Run (Table S) ℕ
  moved_by fd (ok r s) = ok r (if (r == 0) || leb (2 ^ 31) r then s else add_offset fd r s)
  moved_by fd (err e s) = err e s
  moved_by fd panic = panic

  unfoldable pub read : List (Dev S) → ℕ → ℕ → ℕ → Cmd (Table S) ℕ
  unfolding device_of moved_by
  read devtab fdnum buf n = do
    dev ← device_of devtab fdnum
    (λ s.
        if access_mode ((s.fd fdnum).fd_omode) == 1
        then err inval s
        else moved_by fdnum (dev.dev_read fdnum buf n ((s.fd fdnum).fd_offset) s))

  unfoldable pub write : List (Dev S) → ℕ → ℕ → ℕ → Cmd (Table S) ℕ
  unfolding device_of moved_by
  write devtab fdnum buf n = do
    dev ← device_of devtab fdnum
    (λ s.
        if access_mode ((s.fd fdnum).fd_omode) == 0
        then err inval s
        else moved_by fdnum (dev.dev_write fdnum buf n ((s.fd fdnum).fd_offset) s))

  -- The loop of `readn`, with `tot` bytes read and at most `k` rounds left.
  unfoldable pub readn_from : List (Dev S) → ℕ → ℕ → ℕ → ℕ → ℕ → Cmd (Table S) ℕ
  unfolding read
  readn_from devtab zero fdnum buf n tot = pure tot
  readn_from devtab (suc k) fdnum buf n tot = if leb n tot then pure tot else (do
    m ← read devtab fdnum (buf + tot) (n - tot)
    if leb (2 ^ 31) m
        then pure m
        else if m == 0
        then pure tot
        else readn_from devtab k fdnum buf n (tot + m))

  -- A round reads a byte at least, so `n` rounds and one to stop are enough.
  unfoldable pub readn : List (Dev S) → ℕ → ℕ → ℕ → Cmd (Table S) ℕ
  unfolding readn_from
  readn devtab fdnum buf n = readn_from devtab (n + 1) fdnum buf n 0

  unfoldable pub seek : ℕ → ℕ → Cmd (Table S) (Unit {0})
  unfolding fd_lookup
  seek fdnum offset = do
    fd ← fd_lookup fdnum
    modify (λ s. record s { fd = update s.fd fd (record (s.fd fd) { fd_offset = offset }) })
