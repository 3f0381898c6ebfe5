-- ===== src/User/History/All.antt =====
-- `history_get_all` of user/lib/history.c reads back what `history_write` wrote.
use mos_volca_shell.Base.{
  ℕ, zero, suc, ◌+◌, ◌^◌, ◌<◌, ◌≤◌, true, false, Option, none, some, List, [], ◌∷◌, ◌++◌, ◌==◌, leb,
  length, ◌≡◌, ◌⊎◌, ◌∙◌, refl, sym, ap, subst, arith, inl, inr, ==-ne, append-nil, append_assoc,
  cons-ne-nil,
}
use mos_volca_shell.Text.{Str, first_byte}
use mos_volca_shell.User.History.{
  History, Junk, max_file_size, write_at, read_at, int_bytes, history_init, write_entry,
  max_cmd_len, read_down_entry, history_write, get_from, history_get_all, note_last,
}
use mos_volca_shell.User.History.File.{
  Has, strlen-length, write_at-Has, write_at-keeps, read_at-Has, read_int-Has,
}

-- An entry of the file: the command between two copies of its length.
record EntryAt (h : History) (o : ℕ) (c : Str) : Type 0 where
  front : Has h o (int_bytes (length c))
  text : Has h (o + 4) c
  back : Has h (o + 4 + length c) (int_bytes (length c))

-- The entries of the commands, one behind the other, up to `end`.
Listed : History → ℕ → List Str → ℕ → Type 0
Listed h o [] end = o ≡ end
Listed h o (c ∷ cs) end = EntryAt h o c × Listed h (o + length c + 8) cs end

-- Commands of at least one byte that fit in a row with their NUL; how many bytes their entries take.
abbrev pub AreCommands : List Str → Type 0
AreCommands [] = Unit {0}
AreCommands (c ∷ cs) = ((first_byte c == 0) ≡ false) × (length c < max_cmd_len) × AreCommands cs

abbrev pub total_size : List Str → ℕ
total_size [] = 0
total_size (c ∷ cs) = length c + 8 + total_size cs

abbrev pub or_none : Option History → (History → Option History) → Option History
or_none none k = none
or_none (some h) k = k h

-- The calls of `history_write` for the commands, in order.
abbrev pub write_all : List Str → History → Option History
write_all [] h = some h
write_all (c ∷ cs) h = or_none (history_write true c h) (λ n. write_all cs n)

command_length : (c : Str) → (first_byte c == 0) ≡ false → (length c == 0) ≡ false
command_length [] e = e
command_length (c ∷ s) e = ==-ne (length (c ∷ s)) 0 (omega arith)

Listed-le : (h : History) (o end : ℕ) (cs : List Str) → Listed h o cs end → o ≤ end
unfolding Listed
Listed-le h o end [] l = omega (arith, l)
Listed-le h o end (c ∷ cs) l = omega (arith, Listed-le h (o + length c + 8) end cs l.1)

Listed-write :
    (p : ℕ) (s : Str) (h : History) (o end : ℕ) (cs : List Str)
    → Listed h o cs end
    → end ≤ p
    → p + length s ≤ max_file_size
    → Listed (write_at p s h) o cs end
unfolding Listed int_bytes
Listed-write p s h o end [] l le fits = l
Listed-write p s h o end (c ∷ cs) l le fits =
    let below : o + length c + 8 ≤ p =
      omega (arith, Listed-le h (o + length c + 8) end cs (l.1), le) in
    (
      record {
        front =
            write_at-keeps p o s (int_bytes (length c)) h (l.0.front) (inl (omega (arith, below)))
              fits;
        text = write_at-keeps p (o + 4) s c h (l.0.text) (inl (omega (arith, below))) fits;
        back =
            write_at-keeps p (o + 4 + length c) s (int_bytes (length c)) h (l.0.back)
              (inl (omega (arith, below))) fits;
      },
      Listed-write p s h (o + length c + 8) end cs (l.1) le fits,
    )

Listed-append :
    (h : History) (o mid : ℕ) (cs : List Str) (c : Str)
    → Listed h o cs mid
    → EntryAt h mid c
    → Listed h o (cs ++ (c ∷ [])) (mid + length c + 8)
unfolding Listed
Listed-append h o mid [] c l e = (subst (λ p. EntryAt h p c) (sym l) e, omega (arith, l))
Listed-append h o mid (d ∷ cs) c l e = (l.0, Listed-append h (o + length d + 8) mid cs c (l.1) e)

-- What an entry that is written at `m` behind the others leaves.
record Added (h : History) (o m : ℕ) (cs : List Str) (c : Str) : Type 0 where
  entries : Listed h o (cs ++ (c ∷ [])) (m + length c + 8)
  ends : Has h (m + length c + 8) (int_bytes 0)

module _ (o m : ℕ) (cs : List Str) (c : Str) (h : History) (l : Listed h o cs m)
    (fits : m + length c + 16 ≤ max_file_size) where
  abbrev lens : Str
  lens = int_bytes (length c)

  abbrev h1 : History
  h1 = write_at m lens h

  abbrev h2 : History
  h2 = write_at (m + 4) c h1

  abbrev h3 : History
  h3 = write_at (m + 4 + length c) lens h2

  abbrev h4 : History
  h4 = write_at (m + 8 + length c) (int_bytes 0) h3

  abbrev h5 : History
  h5 = write_at (m + 12 + length c) (int_bytes 0) h4

  four : (v : ℕ) → length (int_bytes v) ≡ 4
  unfolding int_bytes
  four v = refl

  -- The two zeros behind the entry leave what stands before them.
  kept_by_zeros : (p : ℕ) (s : Str) → p + length s ≤ m + 8 + length c → Has h3 p s → Has h5 p s
  kept_by_zeros p s le has =
      write_at-keeps (m + 12 + length c) p (int_bytes 0) s h4
        (write_at-keeps (m + 8 + length c) p (int_bytes 0) s h3 has (inl (omega (arith, le)))
          (omega (arith, fits, four 0)))
        (inl (omega (arith, le))) (omega (arith, fits, four 0))

  entry : EntryAt h5 m c
  entry = record {
    front = kept_by_zeros m lens (omega (arith, four (length c))) (
        write_at-keeps (m + 4 + length c) m lens lens h2
          (write_at-keeps (m + 4) m c lens h1
            (write_at-Has m lens h (omega (arith, fits, four (length c))))
            (inl (omega (arith, four (length c)))) (omega (arith, fits)))
          (inl (omega (arith, four (length c)))) (omega (arith, fits, four (length c))));
    text = kept_by_zeros (m + 4) c (omega arith) (
        write_at-keeps (m + 4 + length c) (m + 4) lens c h2
          (write_at-Has (m + 4) c h1 (omega (arith, fits))) (inl (omega arith))
          (omega (arith, fits, four (length c))));
    back =
        kept_by_zeros (m + 4 + length c) lens (omega (arith, four (length c)))
          (write_at-Has (m + 4 + length c) lens h2 (omega (arith, fits, four (length c))));
  }

  ends_with_zero : Has h5 (m + length c + 8) (int_bytes 0)
  ends_with_zero =
      subst (λ p. Has h5 p (int_bytes 0)) (omega arith)
        (write_at-keeps (m + 12 + length c) (m + 8 + length c) (int_bytes 0) (int_bytes 0) h4
          (write_at-Has (m + 8 + length c) (int_bytes 0) h3 (omega (arith, fits, four 0)))
          (inl (omega (arith, four 0))) (omega (arith, fits, four 0)))

  Listed-h5 : Listed h5 o cs m
  Listed-h5 =
      let z : length (int_bytes 0) ≡ 4 = four 0 in
      let f : length lens ≡ 4 = four (length c) in
      Listed-write (m + 12 + length c) (int_bytes 0) h4 o m cs
        (Listed-write (m + 8 + length c) (int_bytes 0) h3 o m cs
          (Listed-write (m + 4 + length c) lens h2 o m cs
            (Listed-write (m + 4) c h1 o m cs
              (Listed-write m lens h o m cs l (omega arith) (omega (arith, fits, f))) (omega arith)
              (omega (arith, fits)))
            (omega arith) (omega (arith, fits, f)))
          (omega arith) (omega (arith, fits, z)))
        (omega arith) (omega (arith, fits, z))

  write_entry-Added : Added (write_entry m c h) o m cs c
  unfolding write_entry
  write_entry-Added =
      rw (strlen-length c)
        (record { entries = Listed-append h5 o m cs c Listed-h5 entry; ends = ends_with_zero })

-- Between two calls: the entries of the commands so far, up to `maxOff`, and the zero behind them.
record Stored (h : History) (cs : List Str) : Type 0 where
  entries : Listed h 0 cs (h.max_off)
  ends : (cs ≡ []) ⊎ Has h (h.max_off) (int_bytes 0)

read_down_entry-EntryAt :
    (j : Junk) (o : ℕ) (c : Str) (h : History)
    → length c < 2 ^ 32
    → EntryAt h o c
    → read_down_entry j o h ≡ c
unfolding read_down_entry
read_down_entry-EntryAt j o c h lt e =
    rw (read_int-Has (length c) o (j.len) h lt (e.front)) (read_at-Has c (o + 4) (j.buf) h (e.text))

read_down_entry-end :
    (j : Junk) (o : ℕ) (h : History) → Has h o (int_bytes 0) → read_down_entry j o h ≡ []
unfolding read_down_entry read_at
read_down_entry-end j o h has = rw (read_int-Has 0 o (j.len) h (omega arith) has) refl

get_from-Listed :
    (n : ℕ) (j : Junk) (o end : ℕ) (h : History) (cs : List Str)
    → length cs < n
    → AreCommands cs
    → end < 2 ^ 32
    → Listed h o cs end
    → Has h end (int_bytes 0)
    → get_from n j o h ≡ some (cs, end)
unfolding get_from Listed
get_from-Listed zero j o end h cs lt a small l ends = absurd (omega (arith, lt))
get_from-Listed (suc n) j o end h [] lt a small l ends =
    rw (read_down_entry-end j o h (subst (λ p. Has h p (int_bytes 0)) (sym l) ends))
      (ap (λ p. some ([], p)) l)
get_from-Listed (suc n) j o end h (c ∷ cs) lt a small l ends =
    let le : o + length c + 8 ≤ end = Listed-le h (o + length c + 8) end cs (l.1) in
    let fits_row : leb max_cmd_len (length c) ≡ false = ground (arith, a.1) in
    rw
      (
        read_down_entry-EntryAt j o c h (omega (arith, le, small)) (l.0),
        fits_row,
        command_length c (a.0),
        get_from-Listed n j (o + length c + 8) end h cs (omega (arith, lt)) (a.2) small (l.1) ends,
      )
      (ap (λ e. some (e ∷ cs, end))
        (read_down_entry-EntryAt j o c h (omega (arith, le, small)) (l.0)))

-- The offsets do not matter to what stands in the file.
module _ (h : History) (now max fake : ℕ) where
  abbrev with_offsets : History
  with_offsets = record h { now_off = now; max_off = max; fake_max_off = fake }

  Has-with_offsets : (o : ℕ) (s : Str) → Has h o s → Has with_offsets o s
  Has-with_offsets o s has = record { inside = has.inside; same = has.same }

  Listed-with_offsets :
      (o end : ℕ) (cs : List Str) → Listed h o cs end → Listed with_offsets o cs end
  unfolding Listed
  Listed-with_offsets o end [] l = l
  Listed-with_offsets o end (c ∷ cs) l = (
    record {
      front = Has-with_offsets o (int_bytes (length c)) (l.0.front);
      text = Has-with_offsets (o + 4) c (l.0.text);
      back = Has-with_offsets (o + 4 + length c) (int_bytes (length c)) (l.0.back);
    },
    Listed-with_offsets (o + length c + 8) end cs (l.1),
  )

-- One command more.
history_write-Stored :
    (h : History) (cs : List Str) (c : Str)
    → Stored h cs
    → (first_byte c == 0) ≡ false
    → h.max_off + length c + 16 ≤ max_file_size
    → (n : History) × (history_write true c h ≡ some n)
      × Stored n (cs ++ (c ∷ []))
      × (n.max_off ≡ h.max_off + length c + 8)
unfolding history_write
history_write-Stored h cs c st some_byte fits =
    let added = write_entry-Added 0 (h.max_off) cs c h (st.entries) fits in
    let end : ℕ = h.max_off + length c + 8 in
    (
      record (write_entry (h.max_off) c h) { max_off = end; now_off = end; fake_max_off = end },
      rw (some_byte, strlen-length c) refl,
      record {
        entries =
            Listed-with_offsets (write_entry (h.max_off) c h) end end end 0 end (cs ++ (c ∷ []))
              (added.entries);
        ends = inr (
            Has-with_offsets (write_entry (h.max_off) c h) end end end end (int_bytes 0)
              (added.ends));
      },
      refl,
    )

write_all-Stored :
    (cs done : List Str) (h : History)
    → Stored h done
    → AreCommands cs
    → h.max_off + total_size cs + 8 ≤ max_file_size
    → (n : History) × (write_all cs h ≡ some n)
      × Stored n (done ++ cs)
      × (n.max_off ≡ h.max_off + total_size cs)
write_all-Stored [] done h st a fits =
    (h, refl, subst (Stored h) (sym (append-nil done)) st, omega arith)
write_all-Stored (c ∷ cs) done h st a fits =
    let (m, run, stored, moved) = history_write-Stored h done c st (a.0) (omega (arith, fits)) in
    let (n, rest, all, total) =
      write_all-Stored cs (done ++ (c ∷ [])) m stored (a.2) (omega (arith, fits, moved)) in
    (
      n,
      ap (λ o. or_none o (λ k. write_all cs k)) run ∙ rest,
      subst (Stored n) (append_assoc done (c ∷ []) cs) all,
      omega (arith, moved, total),
    )

init_Stored : (h : History) → Stored (history_init h) []
unfolding Listed history_init
init_Stored h = record { entries = refl; ends = inl refl }

history_get_all-Stored :
    (j : Junk) (c : Str) (cs : List Str) (n : History)
    → AreCommands (c ∷ cs)
    → length (c ∷ cs) < 1024
    → n.max_off < 2 ^ 32
    → Stored n (c ∷ cs)
    → history_get_all j n ≡ some (c ∷ cs, record n { now_off = n.max_off })
unfolding history_get_all note_last
history_get_all-Stored j c cs n a few small st =
    ap (note_last n)
      (get_from-Listed 1024 j 0 (n.max_off) n (c ∷ cs) few a small (st.entries) (ended (st.ends)))
  where
    ended : ((c ∷ cs) ≡ []) ⊎ Has n (n.max_off) (int_bytes 0) → Has n (n.max_off) (int_bytes 0)
    ended (inl e) = absurd (cons-ne-nil c cs e)
    ended (inr has) = has

-- When at least one and fewer than 1024 commands, none of them empty and each of fewer than 1024
-- bytes, are written after `history_init`, into a file that can be opened and is large enough for
-- their entries and the zeros behind them, every `history_write` succeeds and `history_get_all`
-- then returns these commands in order and leaves `nowOff` at the end, whatever the file, the
-- buffers and the variables held before.
pub history_get_all-written :
    (j : Junk) (c : Str) (cs : List Str) (h : History)
    → AreCommands (c ∷ cs)
    → length (c ∷ cs) < 1024
    → total_size (c ∷ cs) + 8 ≤ max_file_size
    → (n : History) × (write_all (c ∷ cs) (history_init h) ≡ some n)
      × (history_get_all j n ≡ some (c ∷ cs, record n { now_off = total_size (c ∷ cs) }))
unfolding history_init
history_get_all-written j c cs h a few fits =
    let (n, run, st, total) =
      write_all-Stored (c ∷ cs) [] (history_init h) (init_Stored h) a (omega (arith, fits)) in
    let end : n.max_off ≡ total_size (c ∷ cs) = omega (arith, total) in
    (
      n,
      run,
      history_get_all-Stored j c cs n a few (omega (arith, end, fits)) st
          ∙ ap (λ k. some (c ∷ cs, record n { now_off = k })) end,
    )
