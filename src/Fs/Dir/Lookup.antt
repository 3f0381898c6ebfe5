-- ===== src/Fs/Dir/Lookup.antt =====
-- `dir_lookup` of fs/fs.c finds the first entry of a directory that has the name.
use mos_volca_shell.Base.{
  ℕ, zero, suc, ◌+◌, ◌*◌, ◌/◌, ◌<◌, ◌≤◌, Bool, Option, none, some, List, [], ◌∷◌, ◌++◌, ◌==◌,
  if◌then◌else◌, Run, ok, err, Cmd, not_found, ◌≡◌, ◌∙◌, refl, sym, ap, arith, Bool-cases, inl, inr,
  some-injective, none-ne-some, and_then,
}
use mos_volca_shell.Text.{Str, strcmp}
use mos_volca_shell.Fs.Block.{Fs}
use mos_volca_shell.Fs.File.{Ptr, by2blk, read_word, write_word, f_size, file_get_block}
use mos_volca_shell.Fs.Dir.{
  file2blk, is_equal, f_name, f_dir, address, find_entry, found_entry, lookup_blocks, dir_lookup,
  find_free, read_byte, or_go_on, alloc_in_blocks, dir_alloc_file,
}

-- `n` blocks of the directory from `i` on are there and in the cache: getting one of them is
-- reading its number.
abbrev pub IsReadable : Ptr → Fs → (ℕ → ℕ) → ℕ → ℕ → Type 0
IsReadable dir s blk i n = (k : ℕ) → i ≤ k → k < i + n → file_get_block dir k s ≡ ok (blk k) s

-- The entries of a block from `j` on, and those of the blocks from `i` on.
unfoldable pub entries_of : ℕ → ℕ → ℕ → List Ptr
entries_of zero j b = []
entries_of (suc n) j b = (b, j * 64) ∷ entries_of n (j + 1) b

abbrev pub dir_entries : ℕ → ℕ → (ℕ → ℕ) → List Ptr
dir_entries zero i blk = []
dir_entries (suc n) i blk = entries_of file2blk 0 (blk i) ++ dir_entries n (i + 1) blk

abbrev pub first_with : (Ptr → Bool) → List Ptr → Option Ptr
first_with test [] = none
first_with test (f ∷ fs) = if test f then some f else first_with test fs

abbrev pub has_name : Str → Fs → Ptr → Bool
has_name name s f = is_equal (strcmp (f_name f s) name)

abbrev pub is_free_entry : Fs → Ptr → Bool
is_free_entry s f = read_byte f 0 s == 0

-- What `dir_lookup` does with the entry: it notes the directory in it.
abbrev pub noted : Ptr → Fs → Option Ptr → Run Fs Ptr
noted dir s none = err not_found s
noted dir s (some f) = ok f (write_word (f_dir f) (address dir) s)

abbrev or_else : Option Ptr → Option Ptr → Option Ptr
or_else none b = b
or_else (some f) b = some f

first_with-append :
    (test : Ptr → Bool) (xs ys : List Ptr)
    → first_with test (xs ++ ys) ≡ or_else (first_with test xs) (first_with test ys)
first_with-append test [] ys = refl
first_with-append test (x ∷ xs) ys = elim (Bool-cases (test x)) [
  | inl e ↦ rw e refl
  | inr e ↦ rw e (first_with-append test xs ys)
]

find_entry-first :
    (n j b : ℕ) (name : Str) (s : Fs)
    → find_entry n j b name s ≡ first_with (has_name name s) (entries_of n j b)
unfolding find_entry entries_of
find_entry-first zero j b name s = refl
find_entry-first (suc n) j b name s =
    ap (λ rest. if has_name name s (b, j * 64) then some (b, j * 64) else rest)
      (find_entry-first n (j + 1) b name s)

find_free-first :
    (n j b : ℕ) (s : Fs) → find_free n j b s ≡ first_with (is_free_entry s) (entries_of n j b)
unfolding find_free entries_of
find_free-first zero j b s = refl
find_free-first (suc n) j b s =
    ap (λ rest. if is_free_entry s (b, j * 64) then some (b, j * 64) else rest)
      (find_free-first n (j + 1) b s)

found_entry-noted :
    (dir : Ptr) (s : Fs) (o rest : Option Ptr) (go_on : Cmd Fs Ptr)
    → go_on s ≡ noted dir s rest
    → found_entry dir o go_on s ≡ noted dir s (or_else o rest)
unfolding found_entry
found_entry-noted dir s none rest go_on e = e
found_entry-noted dir s (some f) rest go_on e = refl

IsReadable-rest :
    (dir : Ptr) (s : Fs) (blk : ℕ → ℕ) (i n : ℕ)
    → IsReadable dir s blk i (suc n)
    → IsReadable dir s blk (i + 1) n
IsReadable-rest dir s blk i n h k lo hi = h k (omega (arith, lo)) (omega (arith, hi))

lookup_step :
    (n i b : ℕ) (dir : Ptr) (name : Str) (s : Fs)
    → file_get_block dir i s ≡ ok b s
    → lookup_blocks (suc n) i dir name s
      ≡ found_entry dir (find_entry file2blk 0 b name s) (lookup_blocks n (i + 1) dir name) s
unfolding lookup_blocks
lookup_step n i b dir name s e =
    ap
      (λ r. and_then r (λ blk t.
        found_entry dir (find_entry file2blk 0 blk name t) (lookup_blocks n (i + 1) dir name) t))
      e

lookup_blocks-first :
    (n i : ℕ) (dir : Ptr) (name : Str) (s : Fs) (blk : ℕ → ℕ)
    → IsReadable dir s blk i n
    → lookup_blocks n i dir name s
      ≡ noted dir s (first_with (has_name name s) (dir_entries n i blk))
unfolding lookup_blocks
lookup_blocks-first zero i dir name s blk h = refl
lookup_blocks-first (suc n) i dir name s blk h =
    let here : List Ptr = entries_of file2blk 0 (blk i) in
    let behind : List Ptr = dir_entries n (i + 1) blk in
    lookup_step n i (blk i) dir name s (h i (omega arith) (omega arith))
    ∙ ap (λ o. found_entry dir o (lookup_blocks n (i + 1) dir name) s)
        (find_entry-first file2blk 0 (blk i) name s)
    ∙ found_entry-noted dir s (first_with (has_name name s) here)
        (first_with (has_name name s) behind) (lookup_blocks n (i + 1) dir name)
        (lookup_blocks-first n (i + 1) dir name s blk (IsReadable-rest dir s blk i n h))
    ∙ sym (ap (noted dir s) (first_with-append (has_name name s) here behind))

-- In a directory whose blocks can be read without a change of the state, `dir_lookup` returns the
-- first entry with the name, in the order of the blocks and in each, and writes no more than its
-- `f_dir`; it answers E_NOT_FOUND when no entry has the name, and then changes nothing.
pub dir_lookup-first :
    (dir : Ptr) (name : Str) (s : Fs) (blk : ℕ → ℕ)
    → IsReadable dir s blk 0 (read_word (f_size dir) s / by2blk)
    → dir_lookup dir name s
      ≡ noted dir s
          (first_with (has_name name s) (dir_entries (read_word (f_size dir) s / by2blk) 0 blk))
unfolding dir_lookup
dir_lookup-first dir name s blk h =
    lookup_blocks-first (read_word (f_size dir) s / by2blk) 0 dir name s blk h

or_go_on-first :
    (f : Ptr) (s : Fs) (o rest : Option Ptr) (go_on : Cmd Fs Ptr)
    → or_else o rest ≡ some f
    → (rest ≡ some f → go_on s ≡ ok f s)
    → or_go_on o go_on s ≡ ok f s
unfolding or_go_on
or_go_on-first f s none rest go_on e h = h e
or_go_on-first f s (some g) rest go_on e h = ap (λ p. ok p s) (some-injective g f e)

alloc_step :
    (n i b : ℕ) (dir : Ptr) (s : Fs)
    → file_get_block dir i s ≡ ok b s
    → alloc_in_blocks (suc n) i dir s
      ≡ or_go_on (find_free file2blk 0 b s) (alloc_in_blocks n (i + 1) dir) s
unfolding alloc_in_blocks
alloc_step n i b dir s e =
    ap
      (λ r.
        and_then r
          (λ blk t. or_go_on (find_free file2blk 0 blk t) (alloc_in_blocks n (i + 1) dir) t))
      e

alloc_in_blocks-first :
    (n i : ℕ) (dir f : Ptr) (s : Fs) (blk : ℕ → ℕ)
    → IsReadable dir s blk i n
    → first_with (is_free_entry s) (dir_entries n i blk) ≡ some f
    → alloc_in_blocks n i dir s ≡ ok f s
unfolding alloc_in_blocks
alloc_in_blocks-first zero i dir f s blk h e = absurd (none-ne-some f e)
alloc_in_blocks-first (suc n) i dir f s blk h e =
    let here : List Ptr = entries_of file2blk 0 (blk i) in
    let behind : List Ptr = dir_entries n (i + 1) blk in
    alloc_step n i (blk i) dir s (h i (omega arith) (omega arith))
    ∙ ap (λ o. or_go_on o (alloc_in_blocks n (i + 1) dir) s) (find_free-first file2blk 0 (blk i) s)
    ∙ or_go_on-first f s (first_with (is_free_entry s) here) (first_with (is_free_entry s) behind)
        (alloc_in_blocks n (i + 1) dir) (sym (first_with-append (is_free_entry s) here behind) ∙ e)
        (alloc_in_blocks-first n (i + 1) dir f s blk (IsReadable-rest dir s blk i n h))

pub dir_alloc_file-first :
    (dir f : Ptr) (s : Fs) (blk : ℕ → ℕ)
    → IsReadable dir s blk 0 (read_word (f_size dir) s / by2blk)
    → first_with (is_free_entry s) (dir_entries (read_word (f_size dir) s / by2blk) 0 blk) ≡ some f
    → dir_alloc_file dir s ≡ ok f s
unfolding dir_alloc_file
dir_alloc_file-first dir f s blk h e =
    alloc_in_blocks-first (read_word (f_size dir) s / by2blk) 0 dir f s blk h e
