-- ===== src/Tests/LzxTests.antt =====
-- The LZX driver of src/vfs/drivers/unlzx.c on a small archive.
use flowi_vfs.Common.{
  ℕ, ◌<◌, ◌≡◌, refl, sym, ap, false, not, ◌⊎◌, inl, inr, List, [], ◌∷◌, none, some, arith, pos,
  length, take, drop, ◌==◌, ltb, if◌then◌else◌, length-take, take-drop,
}
use flowi_vfs.Heap.{Heap, empty_text}
use flowi_vfs.Unlzx.{LzxEntry, LzxLibrary, UnlzxHandle}
use flowi_vfs.Unlzx.Sessions.{
  LzxCall, lzx_call_read, lzx_call_get_size, lzx_call_list_directory, LzxBalanced,
  lzx_session-LzxBalanced,
}
use flowi_vfs.Unlzx.Separate.{SeparateCloses, lzx_open-SeparateCloses}
use flowi_vfs.Unlzx.Streams.{LzxLaws}
use flowi_vfs.Unlzx.Delivery.{Delivery, deliver-Delivery}

-- A library whose archives hold one stored file `c`, the bytes of the archive, which it streams two at a
-- time.
abbrev only_entry : List ℕ → LzxEntry
only_entry bytes = record { filename = some (99 ∷ []); unpack_size = length bytes }

abbrev up_to_two : ℕ → ℕ
up_to_two n = if ltb n 2 then n else 2

abbrev sim_lzx : LzxLibrary
sim_lzx = record {
  Archive = List ℕ;
  Stream = List ℕ;
  open_memory = λ bytes. some bytes;
  get_entry_count = λ archive. 1;
  get_entry = λ archive i. some (only_entry archive);
  find_entry = λ archive path. some (only_entry archive);
  extract_entry = λ archive entry n. (0, archive);
  stream_open = λ archive entry. inl archive;
  stream_read = λ s n. (0, take (up_to_two n) s, drop (up_to_two n) s);
}

stream_end : (n : ℕ) (xs : List ℕ) → 0 < n → take (up_to_two n) xs ≡ [] → xs ≡ []
stream_end n [] p e = refl
stream_end n (x ∷ xs) p e =
    let none_ : length (take (up_to_two n) (x ∷ xs)) ≡ 0 = ap length e in
    absurd (ground (arith, length-take (up_to_two n) (x ∷ xs), none_))

stream_of : List ℕ ⊎ ℕ → List ℕ
stream_of (inl xs) = xs
stream_of (inr error) = []

sim_lzx_laws : LzxLaws sim_lzx
unfolding stream_of
sim_lzx_laws = record {
  data_of = λ archive entry. archive;
  content = λ s. s;
  failed = λ s. false;
  opens = λ archive entry s e. (sym (ap stream_of e), refl);
  reads = λ s n ok. (sym (take-drop (up_to_two n) s), refl);
  fails = λ s n. refl;
  ends = λ s n p ok e. stream_end n s p e;
}

abbrev some_heap : Heap
some_heap = record { next = 10; serves = λ n. not (n == 13); acquired = []; released = [] }

abbrev calls : List LzxCall
calls =
    lzx_call_read [] (pos 2)
    ∷ lzx_call_read (99 ∷ []) (pos 9)
    ∷ lzx_call_list_directory []
    ∷ lzx_call_get_size (99 ∷ [])
    ∷ []

lzx_session-LzxBalanced_example : LzxBalanced sim_lzx calls some_heap
lzx_session-LzxBalanced_example = lzx_session-LzxBalanced sim_lzx calls some_heap

lzx_open-SeparateCloses_example : SeparateCloses sim_lzx calls some_heap
lzx_open-SeparateCloses_example = lzx_open-SeparateCloses sim_lzx calls some_heap

abbrev archive_bytes : List ℕ
archive_bytes = 7 ∷ 8 ∷ 9 ∷ []

abbrev file_handle : UnlzxHandle (List ℕ) (List ℕ)
file_handle = record {
  address = 1;
  archive_path = empty_text;
  target_path = record { address = 2; bytes = 99 ∷ [] };
  is_directory = false;
  memory_buffer = 3;
  memory = archive_bytes;
  owns_memory = false;
  owns_archive = false;
  archive = some (4, archive_bytes);
  cache = none;
  stream = none;
}

deliver-Delivery_example :
    Delivery sim_lzx sim_lzx_laws archive_bytes
      (only_entry archive_bytes)
      (2 ∷ 2 ∷ [])
      file_handle
      some_heap
deliver-Delivery_example =
    deliver-Delivery sim_lzx sim_lzx_laws archive_bytes (only_entry archive_bytes) (2 ∷ 2 ∷ [])
      file_handle 4 some_heap refl refl refl refl
