-- ===== src/Tests/LocalTests.antt =====
-- The local file driver of src/vfs/drivers/localfs.c on an operating system with one file.
use flowi_vfs.Common.{
  ℕ, ◌<◌, ◌≤◌, ◌≡◌, refl, sym, ap, Bool, true, false, not, List, [], ◌∷◌, ◌++◌, Option, none, some,
  arith, pos, length, take, drop, ◌==◌, ltb, if◌then◌else◌, length-take, take-length_take,
}
use flowi_vfs.Heap.{empty_text}
use flowi_vfs.LocalFs.{LocalOs, LocalFsHandle, FileStat, World, open_read_fd}
use flowi_vfs.LocalFs.Reading.{local_read, read_result, local_write}
use flowi_vfs.LocalFs.Sessions.{
  LocalCall, local_call_read, local_call_write, LocalBalanced, local_session-LocalBalanced,
}
use flowi_vfs.LocalFs.Contents.{
  OsLaws, Appends, local_read-append, local_read-named, local_write-Appends,
}

-- What is left to read and what was written, whatever the descriptor.
pub record Disk : Type 0 where
  pub unread : List ℕ
  pub log : List ℕ

abbrev file_bytes : List ℕ
file_bytes = 5 ∷ 6 ∷ 7 ∷ []

abbrev some_stat : FileStat
some_stat = record { name = 99 ∷ []; is_valid = true; is_directory = false; size = 3 }

abbrev up_to_two : ℕ → ℕ
up_to_two n = if ltb n 2 then n else 2

-- A read gives two bytes at most, a write takes one.
abbrev sim_os : LocalOs
sim_os = record {
  State = Disk;
  path_make_absolute = λ base rel. base ++ (47 ∷ rel);
  file_stat_os = λ path s. some_stat;
  file_get_size_os = λ path s. pos 3;
  file_open_write_os = λ path append s. (pos 4, s);
  file_open_os = λ path s. (pos 3, record s { unread = file_bytes });
  file_close_handle_os = λ fd s. s;
  file_read_from_handle_os = λ fd n s. (
    some (take (up_to_two n) s.unread),
    record s { unread = drop (length (take (up_to_two n) s.unread)) s.unread },
  );
  file_write_to_handle_os = λ fd bytes s. (pos 1, record s { log = s.log ++ take 1 bytes });
  dir_open_os = λ path s. none;
}

read_end : (n : ℕ) (xs : List ℕ) → 0 < n → some (take (up_to_two n) xs) ≡ some [] → xs ≡ []
read_end n [] p e = refl
read_end n (x ∷ xs) p e =
    let none_ : length (take (up_to_two n) (x ∷ xs)) ≡ 0 =
      ap (λ (o : Option (List ℕ)). elim o [ none ↦ 0 | some ys ↦ length ys ]) e in
    absurd (ground (arith, length-take (up_to_two n) (x ∷ xs), none_))

read_bound : (n : ℕ) (xs : List ℕ) → length (take (up_to_two n) xs) ≤ n
read_bound n xs = ground (arith, length-take (up_to_two n) xs)

sim_os_laws : OsLaws sim_os
sim_os_laws = record {
  rest = λ fd s. s.unread;
  written = λ fd s. s.log;
  works = λ fd s. true;
  reads = λ fd n s ok. (
    take (up_to_two n) s.unread,
    refl,
    read_bound n s.unread,
    sym (take-length_take (up_to_two n) s.unread),
    refl,
    refl,
  );
  ends = λ fd n s ok p e. read_end n s.unread p e;
  writes = λ fd bytes s ok p. (0, refl, omega (arith, p), refl, refl);
}

abbrev start : World Disk
start = record {
  os = record { unread = file_bytes; log = [] };
  heap = record { next = 10; serves = λ n. not (n == 11); acquired = []; released = [] };
  opened = [];
  closed = [];
}

abbrev calls : List LocalCall
calls =
    local_call_read [] (pos 2)
    ∷ local_call_write false (1 ∷ []) (pos 1)
    ∷ local_call_read (99 ∷ []) (pos 2)
    ∷ []

local_session-LocalBalanced_example : LocalBalanced sim_os calls start
local_session-LocalBalanced_example = local_session-LocalBalanced sim_os calls start

abbrev local_handle : Bool → LocalFsHandle
local_handle is_write = record {
  address = 1;
  path = empty_text;
  fd = pos 3;
  is_dir = false;
  is_write = is_write;
}

local_read-append_example :
    let first = local_read sim_os (local_handle false) [] (pos 1) start in
    let second = local_read sim_os (local_handle false) [] (pos 2) first.1 in
    first.0.buffer ++ second.0.buffer
    ≡ (local_read sim_os (local_handle false) [] (pos 3) start).0.buffer
unfolding sim_os_laws
local_read-append_example =
    local_read-append sim_os sim_os_laws (local_handle false) 3 1 2 start refl refl refl

abbrev after_open : World Disk
after_open = record start { os = record { unread = file_bytes; log = [] }; opened = 4 ∷ [] }

local_read-named_example :
    (local_read sim_os (local_handle false) (99 ∷ []) (pos 2) start).0
    ≡ read_result sim_os (some (5 ∷ 6 ∷ []))
unfolding sim_os_laws open_read_fd
local_read-named_example =
    local_read-named sim_os sim_os_laws (local_handle false) (99 ∷ []) 3 2 start after_open refl
      refl refl

local_write-Appends_example :
    Appends sim_os sim_os_laws 3
      (8 ∷ 9 ∷ [])
      start
      (local_write sim_os (local_handle true) false (8 ∷ 9 ∷ []) (pos 2) start)
unfolding sim_os_laws
local_write-Appends_example =
    local_write-Appends sim_os sim_os_laws (local_handle true) 3 (8 ∷ 9 ∷ []) start refl refl refl
      refl
