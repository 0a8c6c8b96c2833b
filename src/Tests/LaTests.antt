-- ===== src/Tests/LaTests.antt =====
-- The archive driver of src/vfs/drivers/libarchive.c on a small archive.
use flowi_vfs.Common.{
  ℕ, ◌-◌, true, false, not, List, [], ◌∷◌, none, some, pos, negsuc, length, take, drop, ◌==◌,
  if◌then◌else◌,
}
use flowi_vfs.Tree.{string_equals}
use flowi_vfs.Heap.{Heap, empty_text}
use flowi_vfs.LibArchive.{
  ArchiveResult, archive_ok, archive_eof, ArchiveEntry, ArchiveLibrary, LibArchiveHandle,
}
use flowi_vfs.LibArchive.Names.{PathText}
use flowi_vfs.LibArchive.Sessions.{
  LaCall, la_call_read, la_call_get_size, la_call_list_directory, LaBalanced, la_session-LaBalanced,
}

-- A library whose archives hold one stored file `c`, the bytes of the archive.
pub record OneFile : Type 0 where
  pub bytes : List ℕ
  pub files : ℕ

abbrev stored_entry : List ℕ → ArchiveEntry
stored_entry bytes = record {
  pathname = some (99 ∷ []);
  size = pos (length bytes);
  is_directory = false;
}

abbrev next_of : OneFile → ArchiveResult × ArchiveEntry × OneFile
next_of r = (
  if r.files == 0 then archive_eof else archive_ok,
  stored_entry r.bytes,
  record r { files = r.files - 1 },
)

abbrev sim_la : ArchiveLibrary
sim_la = record {
  Reader = OneFile;
  open_memory = λ raw bytes. (archive_ok, record { bytes = bytes; files = 1 });
  open_filename = λ raw path. (archive_ok, record { bytes = 7 ∷ 8 ∷ []; files = 1 });
  read_next_header = next_of;
  data_skip = λ r. r;
  read_data = λ n r. (some (take n r.bytes), record r { bytes = drop n r.bytes });
  left = λ r. r.files;
}

abbrev sim_text : PathText
sim_text = record {
  path_has_extension = λ path ext. true;
  path_get_filename = λ path. path;
  string_equals_nocase = string_equals;
}

abbrev some_heap : Heap
some_heap = record { next = 10; serves = λ n. not (n == 13); acquired = []; released = [] }

abbrev calls : List LaCall
calls =
    la_call_read [] (pos 2)
    ∷ la_call_list_directory []
    ∷ la_call_read (99 ∷ []) (pos 9)
    ∷ la_call_get_size (99 ∷ [])
    ∷ []

la_session-LaBalanced_example : LaBalanced sim_la sim_text calls some_heap
la_session-LaBalanced_example = la_session-LaBalanced sim_la sim_text calls some_heap

abbrev file_handle : LibArchiveHandle OneFile
file_handle = record {
  address = 1;
  archive_path = empty_text;
  target_path = record { address = 2; bytes = 99 ∷ [] };
  archive = none;
  is_directory = false;
  is_raw_compression = false;
  decompressed_name = empty_text;
  owns_decompressed_name = false;
  memory_buffer = 3;
  memory = 7 ∷ 8 ∷ 9 ∷ [];
  owns_memory = false;
  entry_size = negsuc 0;
  entry_ready = false;
  cache = none;
}
