-- ===== src/Files.antt =====
-- src/fs/file.c, with the descriptors of src/kernel/task.c: the open files of the system and the
-- descriptors of one task. A file is its index in `file_table`, an inode a number; `iput` is the
-- file system's, so the calls of it are listed in `puts`. Descriptors are not negative here. `none`
-- is a panic or a failed assertion.
pub mod Counts
pub mod Dup
pub mod Seek
mod Tests
use light_os.Base.{
  ℕ, zero, suc, ◌+◌, ◌-◌, ◌%◌, ◌^◌, ◌<◌, ◌≤◌, ◌≡◌, Bool, true, false, not, ◌&&◌, ◌||◌, Option, none,
  some, List, [], ◌∷◌, ◌++◌, length, get_or, set, leb, ltb, ◌==◌, if◌then◌else◌, ◌>>=◌, ◌>>◌,
  assert,
}

-- `file_t`
pub record File : Type 0 where
  pub inode : ℕ
  pub count : ℕ
  pub offset : ℕ
  pub flags : ℕ
  pub mode : ℕ

pub record Files : Type 0 where
  pub file_table : List File
  pub files : List (Option ℕ)
  pub puts : List ℕ

-- `TASK_FILE_NR` and `FILE_NR`
abbrev pub task_file_nr : ℕ
task_file_nr = 16

abbrev pub file_nr : ℕ
file_nr = 128

abbrev pub eof : ℕ
eof = 2 ^ 32 - 1

abbrev pub no_file : File
no_file = record { inode = 0; count = 0; offset = 0; flags = 0; mode = 0 }

abbrev pub file_at : Files → ℕ → File
file_at s f = get_or s.file_table f no_file

abbrev pub put_at : Files → ℕ → File → Files
put_at s f file = record s { file_table = set s.file_table f file }

-- The search of `get_file` over the rounds left; `none` is its panic.
unfoldable pub free_file : List File → (rounds i : ℕ) → Option ℕ
free_file table zero i = none
free_file table (suc rounds) i =
    let rest = free_file table rounds (i + 1) in
    if (get_or table i no_file).count == 0 then some i else rest

unfoldable pub get_file : Files → Option (ℕ × Files)
get_file s = do
  f ← free_file s.file_table (file_nr - 3) 3
  some (f, put_at s f (record (file_at s f) { count = 1 }))

unfoldable pub put_file : Files → ℕ → Option Files
put_file s f = do
  let file = file_at s f
  let s' = put_at s f (record file { count = file.count - 1 })
  assert (ltb 0 file.count)
  some (if file.count - 1 == 0 then record s' { puts = s.puts ++ file.inode ∷ [] } else s')

abbrev pub is_free : Option ℕ → Bool
is_free none = true
is_free (some f) = false

-- The search of `task_get_fd` and of `dupfd`: the first free descriptor among the rounds left.
unfoldable pub free_fd : List (Option ℕ) → (rounds i : ℕ) → Option ℕ
free_fd files zero i = none
free_fd files (suc rounds) i =
    let rest = free_fd files rounds (i + 1) in
    if is_free (get_or files i none) then some i else rest

unfoldable pub task_get_fd : Files → Option ℕ
task_get_fd s = free_fd s.files (task_file_nr - 3) 3

unfoldable pub task_put_fd : Files → ℕ → Option Files
task_put_fd s fd = do assert (ltb fd task_file_nr); some (record s { files = set s.files fd none })

unfoldable pub close_file : Files → (fd : ℕ) → Option ℕ → Option Files
close_file s fd none = some s
close_file s fd (some f) = do
  assert (not ((file_at s f).inode == 0))
  s' ← put_file s f
  task_put_fd s' fd

unfoldable pub sys_close : Files → ℕ → Option Files
sys_close s fd = do assert (ltb fd task_file_nr); close_file s fd (get_or s.files fd none)

-- `O_APPEND`, and the tail of `sys_open` behind `inode_open`: the size and mode are the inode's.
unfoldable pub sys_open : Files → (inode size mode flags : ℕ) → (append : Bool) → Option (ℕ × Files)
sys_open s inode size mode flags append = do
  fd ← task_get_fd s
  r ← get_file s
  let file : File = record {
    inode = inode;
    count = 1;
    offset = if append then size else 0;
    flags = flags;
    mode = mode;
  }
  some (fd, record (put_at r.1 r.0 file) { files = set r.1.files fd (some r.0) })

-- The file gets one reference more.
abbrev pub shared : Files → (arg f : ℕ) → Files
shared s arg f = record s {
  files = set s.files arg (some f);
  file_table = set s.file_table f (record (file_at s f) { count = (file_at s f).count + 1 });
}

unfoldable pub dup_into : Files → (f : ℕ) → Option ℕ → ℕ × Files
dup_into s f none = (eof, s)
dup_into s f (some arg) = (arg, shared s arg f)

unfoldable pub dup_file : Files → (arg : ℕ) → Option ℕ → ℕ × Files
dup_file s arg none = (eof, s)
dup_file s arg (some f) = dup_into s f (free_fd s.files (task_file_nr - arg) arg)

unfoldable pub dupfd : Files → (fd arg : ℕ) → ℕ × Files
dupfd s fd arg =
    let found = dup_file s arg (get_or s.files fd none) in
    if leb task_file_nr fd then (eof, s) else found

unfoldable pub sys_dup : Files → ℕ → ℕ × Files
sys_dup s oldfd = dupfd s oldfd 0

unfoldable pub sys_dup2 : Files → (oldfd newfd : ℕ) → Option (ℕ × Files)
sys_dup2 s oldfd newfd =
    let done = sys_close s newfd >>= λ s'. some (dupfd s' oldfd newfd) in
    if oldfd == newfd then some (newfd, s) else done

-- One end of `sys_pipe`: a descriptor and a file for the pipe's inode. The offset stays what it was.
unfoldable pub pipe_end : Files → (inode flags : ℕ) → Option (ℕ × Files)
pipe_end s inode flags = do
  fd ← task_get_fd s
  r ← get_file s
  let file : File = record (file_at r.1 r.0) { inode = inode; flags = flags }
  some (fd, record (put_at r.1 r.0 file) { files = set r.1.files fd (some r.0) })

-- `sys_pipe` on an inode from `get_pipe_inode`: the descriptors to read and to write.
unfoldable pub sys_pipe : Files → (inode : ℕ) → Option (ℕ × ℕ × Files)
sys_pipe s inode = do r ← pipe_end s inode 0; w ← pipe_end r.1 inode 1; some (r.0, w.0, w.1)

-- `whence_t`
pub data Whence : Type 0 where
  seek_set : Whence
  seek_cur : Whence
  seek_end : Whence

-- an `int` below 0, as its 32 bits
abbrev pub is_negative : ℕ → Bool
is_negative w = leb (2 ^ 31) w

-- The new offset; `none` leaves the file alone. `offset` is the `int` in its 32 bits. The sum with
-- the unsigned size is unsigned, so that its test for less than 0 never holds.
unfoldable pub seek : Whence → (old size offset : ℕ) → Option ℕ
seek seek_set old size offset = if is_negative offset then none else some offset
seek seek_cur old size offset =
    let sum = (old + offset) % 2 ^ 32 in if is_negative sum then none else some sum
seek seek_end old size offset = some ((size + offset) % 2 ^ 32)

unfoldable pub seek_file : Files → (f : ℕ) → Option ℕ → ℕ × Files
seek_file s f none = (eof, s)
seek_file s f (some offset) = (offset, put_at s f (record (file_at s f) { offset = offset }))

unfoldable pub seek_fd : Files → Option ℕ → (offset size : ℕ) → Whence → ℕ × Files
seek_fd s none offset size whence = (eof, s)
seek_fd s (some f) offset size whence = seek_file s f (seek whence (file_at s f).offset size offset)

-- `size` is that of the file's inode
unfoldable pub sys_lseek : Files → (fd offset size : ℕ) → Whence → ℕ × Files
sys_lseek s fd offset size whence =
    let sought = seek_fd s (get_or s.files fd none) offset size whence in
    if leb fd 2 || leb task_file_nr fd then (eof, s) else sought

-- how many descriptors of the task refer to file `f`
unfoldable pub holders : ℕ → List (Option ℕ) → ℕ
holders f [] = 0
holders f (none ∷ fs) = holders f fs
holders f (some g ∷ fs) = (if f == g then 1 else 0) + holders f fs

-- The count of each file is the number of its descriptors, `others f` of them in other tasks.
pub record IsValid (others : ℕ → ℕ) (s : Files) : Type 0 where
  pub fds : length s.files ≡ task_file_nr
  pub table : length s.file_table ≡ file_nr
  pub counted : (f : ℕ) → f < file_nr → (file_at s f).count ≡ holders f s.files + others f
  pub inside : (fd f : ℕ) → get_or s.files fd none ≡ some f → f < file_nr
