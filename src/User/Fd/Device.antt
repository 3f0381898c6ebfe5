-- ===== src/User/Fd/Device.antt =====
-- `file_read` of user/lib/file.c: `readn` on a file. The content of a file is mapped at the data
-- address of its descriptor.
use mos_volca_shell.Base.{
  ℕ, ◌+◌, ◌-◌, ◌%◌, ◌^◌, ◌≤◌, ◌<◌, Bool-cases, false, inl, inr, ◌⊎◌, ltb, if◌then◌else◌, ◌≡◌, refl,
  ◌∙◌, ap, arith, ok, Cmd,
}
use mos_volca_shell.Text.Memory.{Bytes, is_within, IsForward, memcpy, memcpy-copied}
use mos_volca_shell.User.Fd.{Table, Dev, num2fd, fd2data}
use mos_volca_shell.User.Fd.Read.{FileDev, Served}

-- The memory of a program, and `f_file.f_size` of the `struct Filefd` of each descriptor.
pub record Program : Type 0 where
  pub memory : Bytes
  pub size_of : ℕ → ℕ

abbrev pub byte : Program → ℕ → ℕ
byte m x = m.memory x

abbrev pub data_of : ℕ → ℕ
data_of fd = fd2data (num2fd fd)

-- The copy of `n` bytes at the end of `file_read`.
unfoldable pub copy_out : ℕ → ℕ → ℕ → ℕ → Cmd (Table Program) ℕ
unfolding memcpy
copy_out fd buf n offset s = ok n (record s {
  rest = record (s.rest) { memory = memcpy buf (data_of fd + offset) n (s.rest.memory) };
})

unfoldable pub file_read : ℕ → ℕ → ℕ → ℕ → Cmd (Table Program) ℕ
unfolding copy_out
file_read fd buf n offset s =
    if ltb (s.rest.size_of fd) offset
    then ok 0 s
    else if ltb (s.rest.size_of fd) ((offset + n) % 2 ^ 32)
    then copy_out fd buf (s.rest.size_of fd - offset) offset s
    else copy_out fd buf n offset s

-- The file behind the descriptor has `size` bytes, and they are mapped.
pub record HoldsFile (content : ℕ → ℕ) (size fdnum : ℕ) (m : Program) : Type 0 where
  pub same_size : m.size_of fdnum ≡ size
  pub mapped : (x : ℕ) → x < size → m.memory (data_of fdnum + x) ≡ content x

module _ (content : ℕ → ℕ) (size lo hi fdnum : ℕ)
    (apart : (hi ≤ data_of fdnum) ⊎ (data_of fdnum + size ≤ lo)) where
  abbrev Holds : Program → Type 0
  Holds m = HoldsFile content size fdnum m

  abbrev Result : ℕ → ℕ → ℕ → Table Program → Type 0
  Result buf n off s =
      (r : ℕ) × (t : Table Program) × (file_read fdnum buf n off s ≡ ok r t)
      × (r ≤ n)
      × (r ≤ size - off)
      × (0 < n → off < size → 0 < r)
      × Served byte content buf off r s t
      × Holds t.rest

  -- The copy does not reach into the file.
  not_within :
      (buf r x : ℕ)
      → lo ≤ buf
      → buf + r ≤ hi
      → x < size
      → is_within buf r (data_of fdnum + x) ≡ false
  not_within buf r x above below lt = elim apart [
    | inl before ↦ ground (arith, above, below, before)
    | inr behind ↦ ground (arith, above, below, behind, lt)
  ]

  forward :
      (buf off r : ℕ)
      → lo ≤ buf
      → buf + r ≤ hi
      → off + r ≤ size
      → IsForward buf (data_of fdnum + off) r
  forward buf off r above below fits = elim apart [
    | inl before ↦ inl (omega (arith, below, before))
    | inr behind ↦ inr (omega (arith, above, behind, fits))
  ]

  -- The bytes of the file at `x` after the copy.
  copied_byte :
      (buf off r x : ℕ) (m : Program)
      → off + r ≤ size
      → Holds m
      → (if is_within buf r x then m.memory (data_of fdnum + off + (x - buf)) else m.memory x)
        ≡ (if is_within buf r x then content (off + (x - buf)) else m.memory x)
  copied_byte buf off r x m fits holds = elim (Bool-cases (is_within buf r x)) [
    | inl inside ↦
        let place : data_of fdnum + off + (x - buf) ≡ data_of fdnum + (off + (x - buf)) =
          omega arith in
        rw inside
          (ap m.memory place ∙ holds.mapped (off + (x - buf)) (ground (arith, inside, fits)))
    | inr outside ↦ rw outside refl
  ]

  copied_out :
      (buf off r : ℕ) (s : Table Program)
      → lo ≤ buf
      → buf + r ≤ hi
      → off + r ≤ size
      → Holds s.rest
      → (t : Table Program) × (copy_out fdnum buf r off s ≡ ok r t)
        × Served byte content buf off r s t
        × Holds t.rest
  unfolding copy_out
  copied_out buf off r s above below fits holds = (
    _,
    refl,
    record {
      same_used = refl;
      same_fd = refl;
      bytes = λ x.
          memcpy-copied buf (data_of fdnum + off) r (s.rest.memory)
            (forward buf off r above below fits) x
          ∙ copied_byte buf off r x s.rest fits holds;
    },
    record {
      same_size = holds.same_size;
      mapped = λ x lt.
          memcpy-copied buf (data_of fdnum + off) r (s.rest.memory)
            (forward buf off r above below fits) (data_of fdnum + x)
          ∙ rw (not_within buf r x above below lt) (holds.mapped x lt);
    },
  )

  file_read-Result :
      (buf n off : ℕ) (s : Table Program)
      → lo ≤ buf
      → buf + n ≤ hi
      → off + n < 2 ^ 32
      → Holds s.rest
      → Result buf n off s
  unfolding file_read
  file_read-Result buf n off s above below small holds =
      let sum : (off + n) % 2 ^ 32 ≡ off + n = omega (arith, small) in
      elim (Bool-cases (ltb size off)) [
        | inl past ↦ (
          0,
          s,
          rw (holds.same_size, past) refl,
          omega arith,
          omega arith,
          λ some left. absurd (ground (arith, past, left)),
          record { same_used = refl; same_fd = refl; bytes = λ x. ground arith },
          holds,
        )
        | inr there ↦ elim (Bool-cases (ltb size (off + n))) [
          | inl over ↦
              let (t, run, served, kept) =
                copied_out buf off (size - off) s above (ground (arith, over, there, below))
                  (ground (arith, there)) holds in
              (
                size - off,
                t,
                rw (holds.same_size, there, sum, over) run,
                ground (arith, over),
                omega arith,
                λ some left. omega (arith, left),
                served,
                kept,
              )
          | inr fits ↦
              let (t, run, served, kept) =
                copied_out buf off n s above below (ground (arith, fits)) holds in
              (
                n,
                t,
                rw (holds.same_size, there, sum, fits) run,
                omega arith,
                ground (arith, fits),
                λ some left. some,
                served,
                kept,
              )
        ]
      ]

  pub file_read-FileDev :
      (dev : Dev Program)
      → dev.dev_read ≡ file_read
      → FileDev byte content size lo hi (HoldsFile content size fdnum) dev fdnum
  unfolding FileDev
  file_read-FileDev dev same buf n off s above below small holds =
      rw same (file_read-Result buf n off s above below small holds)
