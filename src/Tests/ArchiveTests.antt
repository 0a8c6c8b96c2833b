-- ===== src/Tests/ArchiveTests.antt =====
-- The archive drivers of src/vfs/drivers/ on a small archive.
use flowi_vfs.Common.{
  ℕ, zero, suc, ◌≡◌, ◌↔◌, refl, true, false, inl, List, [], ◌∷◌, Option, none, some, arith, pos,
  length, take, drop, min, not, ◌==◌, ◌<◌, ltb, length-take, take-length_take, sym, if◌then◌else◌,
}
use flowi_vfs.Drivers.{FilePath}
use flowi_vfs.Drivers.Results.{read_failed, status_generic_error}
use flowi_vfs.Tree.{string_equals}
use flowi_vfs.Archives.{CachedEntry, slash_at, entry_path_matches, list_children}
use flowi_vfs.Archives.Matching.{SamePath, entry_path_matches-SamePath}
use flowi_vfs.Archives.Children.Emitted.{
  recorder, ListsChildren, listed_path, list_children-ListsChildren,
}
use flowi_vfs.Heap.{Heap, empty_text, acquire, release}
use flowi_vfs.Lhasa.{
  LhaLibrary, LhasaHandle, Header, build_full_path, strip_slash, find_loop, find_lha_entry,
  reset_reader, free_reader, open_from_memory, cache_loop,
}
use flowi_vfs.Lhasa.Stream.{Delivers, mem_read-Delivers}
use flowi_vfs.Lhasa.Entries.{Found, find_loop-cached}
use flowi_vfs.Lhasa.Operations.{read, read_done}
use flowi_vfs.Lhasa.Operations.Reading.{LhaLaws, read-whole_entry}
use flowi_vfs.Lhasa.Operations.Sessions.{
  Call, call_read, call_get_size, call_list_directory, Balanced, session-Balanced,
}

-- `ab/` and `ab`
abbrev directory : FilePath
directory = 97 ∷ 98 ∷ 47 ∷ []

abbrev bare : FilePath
bare = 97 ∷ 98 ∷ []

entry_path_matches-SamePath_example :
    (entry_path_matches directory bare ≡ true) ↔ SamePath directory bare
entry_path_matches-SamePath_example = entry_path_matches-SamePath directory bare

-- `ab/c`, `ab/d/e` and `ab/c` again.
abbrev cached : List CachedEntry
cached =
    record { path = 97 ∷ 98 ∷ 47 ∷ 99 ∷ []; size = pos 5; is_directory = false }
    ∷ record { path = 97 ∷ 98 ∷ 47 ∷ 100 ∷ 47 ∷ 101 ∷ []; size = pos 7; is_directory = false }
    ∷ record { path = 97 ∷ 98 ∷ 47 ∷ 99 ∷ []; size = pos 6; is_directory = false }
    ∷ []

list_children-ListsChildren_example :
    ListsChildren (listed_path bare) cached (list_children recorder cached bare [])
list_children-ListsChildren_example = list_children-ListsChildren bare cached

-- A library whose archives hold one stored file `c`, the bytes of the archive, which it reads two at a time.
pub record SimReader : Type 0 where
  pub archive : List ℕ
  pub rest : List ℕ
  pub files : ℕ

abbrev sim_header : List ℕ → Header
sim_header bytes = record {
  path = none;
  filename = some (99 ∷ []);
  length = length bytes;
  compress_method = 45 ∷ 108 ∷ 104 ∷ 48 ∷ 45 ∷ [];
}

abbrev sim_next : SimReader → ℕ → Option (Header × SimReader)
sim_next r zero = none
sim_next r (suc n) =
    some (sim_header r.archive, record { archive = r.archive; rest = r.archive; files = n })

abbrev two_of : ℕ → List ℕ → List ℕ
two_of n bytes = take (if ltb n 2 then n else 2) bytes

abbrev sim_lha : LhaLibrary
sim_lha = record {
  Reader = SimReader;
  start = λ bytes. record { archive = bytes; rest = []; files = 1 };
  next_file = λ r. sim_next r r.files;
  current_is_fake = λ r. false;
  read = λ n r. (two_of n r.rest, record r { rest = drop (length (two_of n r.rest)) r.rest });
  left = λ r. r.files;
}

length-two_of :
    (n : ℕ) (xs : List ℕ) → length (two_of n xs) ≡ min (if ltb n 2 then n else 2) (length xs)
length-two_of n xs = length-take (if ltb n 2 then n else 2) xs

two_of-take : (n : ℕ) (xs : List ℕ) → two_of n xs ≡ take (length (two_of n xs)) xs
two_of-take n xs = sym (take-length_take (if ltb n 2 then n else 2) xs)

two_of-end : (n : ℕ) (xs : List ℕ) → 0 < n → length (two_of n xs) ≡ 0 → xs ≡ []
two_of-end n [] p e = refl
two_of-end n (x ∷ xs) p e = absurd (ground (arith, length-two_of n (x ∷ xs)))

sim_lha_laws : LhaLaws sim_lha
sim_lha_laws = record {
  content = λ r. r.rest;
  read_some = λ n r. two_of-take n r.rest;
  read_rest = λ n r. refl;
  read_at_most = λ n r. ground (arith, length-two_of n r.rest);
  read_end = λ n r p e. two_of-end n r.rest p e;
}

-- Five bytes of which one was read.
mem_read-Delivers_example : Delivers (record { bytes = 1 ∷ 2 ∷ 3 ∷ 4 ∷ 5 ∷ []; pos = 1 }) 3
mem_read-Delivers_example =
    mem_read-Delivers (record { bytes = 1 ∷ 2 ∷ 3 ∷ 4 ∷ 5 ∷ []; pos = 1 }) 3 (omega arith)
      (ground arith)

abbrev sim_reader : SimReader
sim_reader = record { archive = 7 ∷ 8 ∷ 9 ∷ []; rest = []; files = 1 }

find_loop-cached_example : Found sim_lha (99 ∷ []) (find_loop sim_lha 2 (99 ∷ []) sim_reader).0
find_loop-cached_example =
    find_loop-cached sim_lha 2 (99 ∷ []) sim_reader
      (unfold cache_loop build_full_path strip_slash slash_at string_equals in inl refl)

abbrev some_heap : Heap
some_heap = record { next = 10; serves = λ n. not (n == 12); acquired = []; released = [] }

abbrev calls : List (Call sim_lha)
calls = call_read (99 ∷ []) (pos 10) ∷ call_list_directory [] ∷ call_get_size (99 ∷ []) ∷ []

session-Balanced_example : Balanced sim_lha calls some_heap
session-Balanced_example = session-Balanced sim_lha calls some_heap

abbrev open_handle : LhasaHandle SimReader
open_handle = record {
  address = 1;
  archive_path = empty_text;
  target_path = record { address = 2; bytes = 99 ∷ [] };
  is_directory = false;
  memory_buffer = 3;
  memory = 7 ∷ 8 ∷ 9 ∷ [];
  owns_memory = false;
  mem_stream = 4;
  stream = 5;
  reader = some (6, record { archive = 7 ∷ 8 ∷ 9 ∷ []; rest = 7 ∷ 8 ∷ 9 ∷ []; files = 0 });
  cache = none;
  positioned = true;
}

abbrev free_heap : Heap
free_heap = record { next = 10; serves = λ n. true; acquired = []; released = [] }

read-whole_entry_example :
    (read sim_lha open_handle (99 ∷ []) (pos 4) free_heap).0
    ≡ (if ltb 4 3 then read_failed status_generic_error else read_done sim_lha (7 ∷ 8 ∷ 9 ∷ []))
unfolding sim_lha_laws find_lha_entry reset_reader free_reader open_from_memory acquire release
    find_loop build_full_path strip_slash slash_at entry_path_matches string_equals
read-whole_entry_example =
    read-whole_entry sim_lha sim_lha_laws open_handle (99 ∷ []) 4 13 (sim_header (7 ∷ 8 ∷ 9 ∷ []))
      (record { archive = 7 ∷ 8 ∷ 9 ∷ []; rest = 7 ∷ 8 ∷ 9 ∷ []; files = 0 }) free_heap refl refl
      refl refl
