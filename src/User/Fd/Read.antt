-- ===== src/User/Fd/Read.antt =====
-- `read` and `readn` of user/lib/fd.c on a descriptor whose device gives the bytes of a file, as
-- many of them at a time as it likes.
use mos_volca_shell.Base.{
  ℕ, zero, suc, ◌+◌, ◌-◌, ◌%◌, ◌^◌, ◌≤◌, ◌<◌, true, false, Bool-cases, inl, inr, List, ◌==◌, ==_iff,
  ==-refl, leb, ltb, ap, if◌then◌else◌, update, ◌≡◌, refl, sym, subst, ◌∙◌, arith, ok,
}
use mos_volca_shell.Text.Memory.{is_within}
use mos_volca_shell.User.Fd.{
  Fd, Table, Dev, max_fd, access_mode, dev_lookup, fd_lookup, device_of, moved_by, add_offset, read,
  readn_from, readn,
}

-- What is left of a file of `size` bytes at `off`, but no more than `n` of it.
abbrev pub amount : ℕ → ℕ → ℕ → ℕ
amount n size off = if leb n (size - off) then n else size - off

-- The device's function moved no descriptor and put `r` bytes, from `off` on, at `buf`; `byte`
-- reads the caller's memory.
pub record Served {S : Type 0} (byte : S → ℕ → ℕ) (content : ℕ → ℕ) (buf off r : ℕ) (s t : Table S)
    : Type 0 where
  pub same_used : t.used ≡ s.used
  pub same_fd : t.fd ≡ s.fd
  pub bytes :
      (x : ℕ)
      → byte t.rest x ≡ (if is_within buf r x then content (off + (x - buf)) else byte s.rest x)

-- A device that gives the bytes of the file behind the descriptor `fdnum` to buffers between `lo`
-- and `hi`, as long as the rest of the state is as `Holds` says, which its reads keep. It may give
-- fewer bytes than it is asked for, but not none when it is asked for some and there are some.
unfoldable pub FileDev :
    {S : Type 0} → (S → ℕ → ℕ) → (ℕ → ℕ) → ℕ → ℕ → ℕ → (S → Type 0) → Dev S → ℕ → Type 0
FileDev {S = S} byte content size lo hi Holds dev fdnum =
    (buf n off : ℕ) (s : Table S)
    → lo ≤ buf
    → buf + n ≤ hi
    → off + n < 2 ^ 32
    → Holds s.rest
    → (r : ℕ) × (t : Table S) × (dev.dev_read fdnum buf n off s ≡ ok r t)
      × (r ≤ n)
      × (r ≤ size - off)
      × (0 < n → off < size → 0 < r)
      × Served byte content buf off r s t
      × Holds t.rest

-- A read of `r` bytes to `buf`: the offset has moved over them, and nothing else has changed.
pub record ReadTo {S : Type 0} (byte : S → ℕ → ℕ) (content : ℕ → ℕ) (fdnum buf r : ℕ)
    (s t : Table S) : Type 0 where
  pub same_used : t.used ≡ s.used
  pub entries :
      (i : ℕ)
      → t.fd i
        ≡ update s.fd fdnum (record (s.fd fdnum) { fd_offset = (s.fd fdnum).fd_offset + r }) i
  pub bytes :
      (x : ℕ)
      → byte t.rest x ≡ (
          if is_within buf r x then content ((s.fd fdnum).fd_offset + (x - buf)) else byte s.rest x)

-- A buffer of `n` bytes between `lo` and `hi`, whose length is an `int`.
pub record Room (lo hi buf n : ℕ) : Type 0 where
  pub above : lo ≤ buf
  pub below : buf + n ≤ hi
  pub int : n < 2 ^ 31

-- The descriptor is in use, open for reading, and its device is `dev`.
pub record Readable {S : Type 0} (devtab : List (Dev S)) (dev : Dev S) (fdnum : ℕ) (s : Table S)
    : Type 0 where
  pub in_range : leb max_fd fdnum ≡ false
  pub in_use : s.used fdnum ≡ true
  pub device : (t : Table S) → dev_lookup devtab ((s.fd fdnum).fd_dev_id) t ≡ ok dev t
  pub mode : (access_mode ((s.fd fdnum).fd_omode) == 1) ≡ false

module _ {S : Type 0} (byte : S → ℕ → ℕ) (content : ℕ → ℕ) (size lo hi : ℕ) (Holds : S → Type 0)
    (devtab : List (Dev S)) (dev : Dev S) (fdnum : ℕ)
    (gives : FileDev byte content size lo hi Holds dev fdnum) where
  abbrev To : ℕ → ℕ → Table S → Table S → Type 0
  To buf r s t = ReadTo byte content fdnum buf r s t

  abbrev offset : Table S → ℕ
  offset s = (s.fd fdnum).fd_offset

  zero_more : (n : ℕ) → n + 0 ≡ n
  zero_more n = omega arith

  more : (n a b : ℕ) → n + a + b ≡ n + (a + b)
  more n a b = omega arith

  unmoved :
      (g : ℕ → Fd) (i : ℕ)
      → g i ≡ update g fdnum (record (g fdnum) { fd_offset = (g fdnum).fd_offset + 0 }) i
  unmoved g i = elim (Bool-cases (i == fdnum)) [
    | inl e ↦ rw (e, (==_iff i fdnum).0 e, zero_more ((g fdnum).fd_offset)) refl
    | inr ne ↦ rw ne refl
  ]

  -- The descriptors after the offset of one has grown.
  grown :
      (g : ℕ → Fd) (r : ℕ)
      → (g fdnum).fd_offset + r < 2 ^ 32
      → (i : ℕ)
      → update g fdnum (record (g fdnum) { fd_offset = ((g fdnum).fd_offset + r) % 2 ^ 32 }) i
        ≡ update g fdnum (record (g fdnum) { fd_offset = (g fdnum).fd_offset + r }) i
  grown g r lt i =
      let small : ((g fdnum).fd_offset + r) % 2 ^ 32 ≡ (g fdnum).fd_offset + r =
        omega (arith, lt) in
      rw small refl

  -- A number of bytes is not negative.
  positive : (r : ℕ) → r < 2 ^ 31 → leb (2 ^ 31) r ≡ false
  positive r lt = ground (arith, lt)

  moved-ReadTo :
      (buf r : ℕ) (s t : Table S)
      → offset s + r < 2 ^ 32
      → r < 2 ^ 31
      → Served byte content buf (offset s) r s t
      → (u : Table S) × (moved_by fdnum (ok r t) ≡ ok r u) × To buf r s u × (u.rest ≡ t.rest)
  unfolding moved_by
  moved-ReadTo buf r s t lt int d = elim (Bool-cases (r == 0)) [
    | inl z ↦ (
      t,
      rw z refl,
      record {
        same_used = d.same_used;
        entries = λ i. rw (d.same_fd, (==_iff r 0).0 z) (unmoved s.fd i);
        bytes = d.bytes;
      },
      refl,
    )
    | inr nz ↦ (
      add_offset fdnum r t,
      rw (nz, positive r int) refl,
      record {
        same_used = d.same_used;
        entries = λ i. rw d.same_fd (grown s.fd r lt i);
        bytes = d.bytes;
      },
      refl,
    )
  ]

  -- One `read`.
  read-ReadTo :
      (buf n : ℕ) (s : Table S)
      → Readable devtab dev fdnum s
      → Room lo hi buf n
      → Holds s.rest
      → offset s + n < 2 ^ 32
      → (r : ℕ) × (t : Table S) × (read devtab fdnum buf n s ≡ ok r t)
        × (r ≤ n)
        × (r ≤ size - offset s)
        × (0 < n → offset s < size → 0 < r)
        × To buf r s t
        × Holds t.rest
  unfolding read device_of fd_lookup FileDev
  read-ReadTo buf n s ready room holds lt =
      let (r, t, run, le, le', more, d, kept) =
        gives buf n (offset s) s room.above room.below lt holds in
      let (u, run', to, same) =
        moved-ReadTo buf r s t (omega (arith, lt, le)) (omega (arith, le, room.int)) d in
      (
        r,
        u,
        rw (ready.in_range, ready.in_use, ready.device s, ready.mode, run) run',
        le,
        le',
        more,
        to,
        subst Holds (sym same) kept,
      )

  entry :
      (buf r : ℕ) (s t : Table S)
      → To buf r s t
      → t.fd fdnum ≡ record (s.fd fdnum) { fd_offset = offset s + r }
  entry buf r s t to = rw (to.entries fdnum, ==-refl fdnum) refl

  moved : (buf r : ℕ) (s t : Table S) → To buf r s t → offset t ≡ offset s + r
  moved buf r s t to = ap (λ f. f.fd_offset) (entry buf r s t to)

  Readable-after :
      (buf r : ℕ) (s t : Table S)
      → To buf r s t
      → Readable devtab dev fdnum s
      → Readable devtab dev fdnum t
  Readable-after buf r s t to ready =
      let e = entry buf r s t to in
      record {
        in_range = ready.in_range;
        in_use = rw to.same_used ready.in_use;
        device = rw e ready.device;
        mode = rw e ready.mode;
      }

  entry_twice :
      (g h : ℕ → Fd) (a b : ℕ)
      → ((i : ℕ)
          → h i ≡ update g fdnum (record (g fdnum) { fd_offset = (g fdnum).fd_offset + a }) i)
      → (i : ℕ)
      → update h fdnum (record (h fdnum) { fd_offset = (h fdnum).fd_offset + b }) i
        ≡ update g fdnum (record (g fdnum) { fd_offset = (g fdnum).fd_offset + (a + b) }) i
  entry_twice g h a b same i = elim (Bool-cases (i == fdnum)) [
    | inl e ↦ rw (e, same fdnum, ==-refl fdnum, more ((g fdnum).fd_offset) a b) refl
    | inr ne ↦ rw (ne, same i, ne) refl
  ]

  -- The bytes at `x` after both reads.
  glued :
      (buf a b o x old v : ℕ)
      → v ≡ (if is_within buf a x then content (o + (x - buf)) else old)
      → (if is_within (buf + a) b x then content (o + a + (x - (buf + a))) else v)
        ≡ (if is_within buf (a + b) x then content (o + (x - buf)) else old)
  glued buf a b o x old v e = grind arith

  two_reads :
      (buf a b : ℕ) (s t u : Table S) → To buf a s t → To (buf + a) b t u → To buf (a + b) s u
  two_reads buf a b s t u first second =
      let e = entry buf a s t first in
      record {
        same_used = second.same_used ∙ first.same_used;
        entries = λ i. second.entries i ∙ entry_twice s.fd t.fd a b first.entries i;
        bytes = λ x. second.bytes x ∙ rw e (glued buf a b (offset s) x _ _ (first.bytes x));
      }

  -- How the loop goes on after a read of `r` bytes.
  abbrev GoesOn : ℕ → ℕ → ℕ → ℕ → Table S → Type 0
  GoesOn k buf n tot s =
      (t : Table S) × (readn_from devtab k fdnum buf n tot s
        ≡ ok (tot + amount (n - tot) size (offset s)) t)
      × To (buf + tot) (amount (n - tot) size (offset s)) s t

  done_amount : (n tot o : ℕ) → n ≤ tot → amount (n - tot) size o ≡ 0
  done_amount n tot o le = ground arith

  end_amount :
      (r n o : ℕ) → (r == 0) ≡ true → 0 < n → (0 < n → o < size → 0 < r) → amount n size o ≡ 0
  end_amount r n o z some rest = elim (Bool-cases (ltb o size)) [
    | inl lt ↦ (let lt' : 0 < r = rest some (ground (arith, lt)) in absurd (ground (arith, lt', z)))
    | inr ge ↦ ground (arith, some, ge)
  ]

  next_amount :
      (r n tot o : ℕ)
      → r ≤ n - tot
      → r ≤ size - o
      → r + amount (n - (tot + r)) size (o + r) ≡ amount (n - tot) size o
  next_amount r n tot o le le' = ground arith

  nothing : (buf : ℕ) (s : Table S) → To buf 0 s s
  nothing buf s = record { same_used = refl; entries = unmoved s.fd; bytes = λ x. ground arith }

  bound :
      (r n tot o o' : ℕ)
      → o' ≡ o + r
      → o + (n - tot) < 2 ^ 32
      → r ≤ n - tot
      → o' + (n - (tot + r)) < 2 ^ 32
  bound r n tot o o' e lt le = omega (arith, e, lt, le)

  zero_plus : (n : ℕ) → 0 + n ≡ n
  zero_plus n = omega arith

  none_done : (n : ℕ) → n - 0 ≡ n
  none_done n = omega arith

  -- The loop stops at a read of no bytes.
  stopped :
      (k buf n tot r : ℕ) (s t : Table S)
      → leb n tot ≡ false
      → read devtab fdnum (buf + tot) (n - tot) s ≡ ok r t
      → leb (2 ^ 31) r ≡ false
      → (r == 0) ≡ true
      → amount (n - tot) size (offset s) ≡ 0
      → To (buf + tot) r s t
      → GoesOn (suc k) buf n tot s
  unfolding readn_from
  stopped k buf n tot r s t gt run int z e to =
      rw (gt, run, int, z, e, zero_more tot) (t, refl, rw (← (==_iff r 0).0 z) to)

  -- It goes on after a read of some.
  went_on :
      (k buf n tot r : ℕ) (s t : Table S)
      → leb n tot ≡ false
      → read devtab fdnum (buf + tot) (n - tot) s ≡ ok r t
      → leb (2 ^ 31) r ≡ false
      → (r == 0) ≡ false
      → r ≤ n - tot
      → r ≤ size - offset s
      → To (buf + tot) r s t
      → GoesOn k buf n (tot + r) t
      → GoesOn (suc k) buf n tot s
  unfolding readn_from
  went_on k buf n tot r s t gt run int nz le le' to (u, run', to') =
      let b : ℕ = amount (n - (tot + r)) size (offset t) in
      let e : offset t ≡ offset s + r = moved (buf + tot) r s t to in
      let sum : r + b ≡ amount (n - tot) size (offset s) =
        rw e (next_amount r n tot (offset s) le le') in
      let both : To (buf + tot) (r + b) s u =
        two_reads (buf + tot) r b s t u to (rw (more buf tot r) to') in
      rw (gt, run, int, nz, ← sum, ← more tot r b) (u, run', both)

  -- What is left of the buffer.
  Room-left :
      (buf n tot : ℕ) → leb n tot ≡ false → Room lo hi buf n → Room lo hi (buf + tot) (n - tot)
  Room-left buf n tot gt room = record {
    above = omega (arith, room.above);
    below = ground (arith, gt, room.below);
    int = omega (arith, room.int);
  }

  readn_from-ReadTo :
      (k buf n tot : ℕ) (s : Table S)
      → n - tot < k
      → Readable devtab dev fdnum s
      → Room lo hi buf n
      → Holds s.rest
      → offset s + (n - tot) < 2 ^ 32
      → GoesOn k buf n tot s
  unfolding readn_from
  readn_from-ReadTo zero buf n tot s enough ready room holds lt = absurd (omega (arith, enough))
  readn_from-ReadTo (suc k) buf n tot s enough ready room holds lt = elim (Bool-cases (leb n tot)) [
    | inl le ↦
        rw (le, done_amount n tot (offset s) (ground (arith, le)), zero_more tot)
          (s, refl, nothing (buf + tot) s)
    | inr gt ↦
        (let (r, t, run, le, le', some, to, kept) =
            read-ReadTo (buf + tot) (n - tot) s ready (Room-left buf n tot gt room) holds lt in
          let int : leb (2 ^ 31) r ≡ false = positive r (omega (arith, le, room.int)) in
          elim (Bool-cases (r == 0)) [
            | inl z ↦
                stopped k buf n tot r s t gt run int z
                  (end_amount r (n - tot) (offset s) z (ground (arith, gt)) some) to
            | inr nz ↦ went_on k buf n tot r s t gt run int nz le le' to (
                readn_from-ReadTo k buf n (tot + r) t (ground (arith, enough, gt, le, nz))
                  (Readable-after (buf + tot) r s t to ready) room kept
                  (bound r n tot (offset s) (offset t) (moved (buf + tot) r s t to) lt le))
          ])
  ]

  -- The loop from the start.
  from_start :
      (k buf n : ℕ) (s : Table S)
      → GoesOn k buf n 0 s
      → (t : Table S) × (readn_from devtab k fdnum buf n 0 s ≡ ok (amount n size (offset s)) t)
        × To buf (amount n size (offset s)) s t
  from_start k buf n s (t, run, to) =
      let all : n - 0 ≡ n = none_done n in
      (
        t,
        run ∙ ap (λ a. ok a t) (rw all (zero_plus (amount n size (offset s)))),
        rw (← all, ← zero_more buf) to,
      )

  -- On a descriptor that is open for reading, whose device gives the bytes of the file behind it
  -- to buffers in some region (as many at a time as it likes, but some while there are some) and
  -- leaves that file as it is, with a buffer in the region, `n` below 2^31, and the offset and
  -- `n` below 2^32 together, `readn` succeeds: it returns `n`, or what the file has left at the
  -- offset where that is less; these bytes of the file, from the offset on, are at `buf`, the
  -- offset has moved over them, and no other byte and descriptor has changed.
  pub readn-reads :
      (buf n : ℕ) (s : Table S)
      → Readable devtab dev fdnum s
      → Room lo hi buf n
      → Holds s.rest
      → offset s + n < 2 ^ 32
      → (t : Table S) × (readn devtab fdnum buf n s ≡ ok (amount n size (offset s)) t)
        × ReadTo byte content fdnum buf (amount n size (offset s)) s t
  unfolding readn
  readn-reads buf n s ready room holds lt =
      from_start (n + 1) buf n s
        (readn_from-ReadTo (n + 1) buf n 0 s (omega arith) ready room holds (rw (none_done n) lt))
