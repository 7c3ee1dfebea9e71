-- ===== src/Files/Seek.antt =====
-- Where `sys_lseek` leaves a file.
use light_os.Base.{
  ℕ, ◌+◌, ◌-◌, ◌%◌, ◌^◌, ◌<◌, ◌≡◌, ap, ◌∙◌, true, false, ◌||◌, none, some, get_or, leb, arith,
  get_or-set, ==_refl,
}
use light_os.Files.{
  File, Files, task_file_nr, no_file, file_at, put_at, Whence, seek_end, is_negative, seek,
  seek_file, seek_fd, sys_lseek, IsValid,
}

seek_step :
    (s : Files) (fd offset size f w : ℕ) (whence : Whence)
    → 2 < fd
    → fd < task_file_nr
    → get_or s.files fd none ≡ some f
    → seek whence (file_at s f).offset size offset ≡ some w
    → sys_lseek s fd offset size whence ≡ (w, put_at s f (record (file_at s f) { offset = w }))
unfolding sys_lseek seek_fd seek_file
seek_step s fd offset size f w whence low high held e =
    let off : (leb fd 2 || leb task_file_nr fd) ≡ false = ground arith in rw (off, held, e)

-- With `SEEK_END` a displacement back beyond the start of the file is not refused: it becomes the
-- offset of the file, a negative number.
seek_end_negative :
    (others : ℕ → ℕ) (s : Files) (fd f size back : ℕ)
    → IsValid others s
    → 2 < fd
    → fd < task_file_nr
    → get_or s.files fd none ≡ some f
    → size < back
    → back < 2 ^ 31
    → (s' : Files) × (sys_lseek s fd (2 ^ 32 - back) size seek_end ≡ (size + 2 ^ 32 - back, s'))
      × (is_negative (size + 2 ^ 32 - back) ≡ true)
      × ((file_at s' f).offset ≡ size + 2 ^ 32 - back)
unfolding seek
seek_end_negative others s fd f size back v low high held beyond small =
    let e : (size + (2 ^ 32 - back)) % 2 ^ 32 ≡ size + 2 ^ 32 - back = omega arith in
    let moved : File = record (file_at s f) { offset = size + 2 ^ 32 - back } in
    let here : file_at (put_at s f moved) f ≡ moved =
      get_or-set s.file_table f f moved no_file (omega (arith, v.inside fd f held, v.table))
      ∙ ground (arith, ==_refl f) in
    (
      put_at s f moved,
      seek_step s fd (2 ^ 32 - back) size f (size + 2 ^ 32 - back) seek_end low high held
          (ap some e),
      ground arith,
      ap (λ (x : File). x.offset) here,
    )
