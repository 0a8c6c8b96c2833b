-- ===== src/Unlzx/Kept.antt =====
-- Reads of the LZX driver (src/vfs/drivers/unlzx.c) change the stream of their handle only.
use flowi_vfs.Common.{ℕ, ◌≡◌, refl, ◌⊎◌, inl, inr, Option, none, some, arith, ℤ}
use flowi_vfs.Drivers.{FilePath}
use flowi_vfs.Heap.{Heap}
use flowi_vfs.Lhasa.Operations.{size_of}
use flowi_vfs.Unlzx.{LzxEntry, LzxLibrary, LzxHandle}
use flowi_vfs.Unlzx.Reading.{
  open_stream, read_opened, read_entry, next_on, lzx_read_next, lzx_read_on, lzx_read,
}

-- A view of a handle that does not look at its stream.
module _ (L : LzxLibrary) {A : Type 0} (view : LzxHandle L → A)
    (blind : (h : LzxHandle L) (o : Option (ℕ × L.Stream))
      → view (record h { stream = o }) ≡ view h) where
  read_opened-kept :
      (h : LzxHandle L) (size : ℕ) (o : (ℕ × L.Stream) ⊎ ℕ) (heap : Heap)
      → view (read_opened L h size (o, heap)).1 ≡ view h
  read_opened-kept h size (inl (a, s)) heap = blind h (some (a, (L.stream_read s size).2))
  read_opened-kept h size (inr error) heap = refl

  read_entry-kept :
      (h : LzxHandle L) (archive : L.Archive) (size : ℕ) (o : Option LzxEntry) (heap : Heap)
      → view (read_entry L h archive size o heap).1 ≡ view h
  read_entry-kept h archive size none heap = refl
  read_entry-kept h archive size (some entry) heap =
      let o = open_stream L archive entry heap in read_opened-kept h size o.0 o.1

  pub next_on-kept :
      (h : LzxHandle L) (archive : L.Archive) (size : ℕ) (heap : Heap) (o : Option (ℕ × L.Stream))
      → view (next_on L h archive size heap o).1 ≡ view h
  next_on-kept h archive size heap none =
      read_entry-kept h archive size (L.find_entry archive h.target_path.bytes) heap
  next_on-kept h archive size heap (some (a, s)) = blind h (some (a, (L.stream_read s size).2))

  read_on-kept :
      (h : LzxHandle L) (path : FilePath) (size : ℤ) (heap : Heap) (o : Option (ℕ × L.Archive))
      → view (lzx_read_on L h path size heap o).1 ≡ view h
  unfolding lzx_read_next
  read_on-kept h path size heap none = refl
  read_on-kept h path size heap (some (b, archive)) =
      ground (arith, next_on-kept h archive (size_of size) heap h.stream)

  pub lzx_read-kept :
      (h : LzxHandle L) (path : FilePath) (size : ℤ) (heap : Heap)
      → view (lzx_read L h path size heap).1 ≡ view h
  unfolding lzx_read
  lzx_read-kept h path size heap = read_on-kept h path size heap h.archive
