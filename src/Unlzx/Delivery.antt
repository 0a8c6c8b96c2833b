-- ===== src/Unlzx/Delivery.antt =====
-- What reads from an LZX archive deliver (src/vfs/drivers/unlzx.c), when the library streams as it documents.
use flowi_vfs.Common.{
  append_nil, append_assoc, ℕ, ◌≡◌, refl, sym, ap, subst, ◌∙◌, false, List, [], ◌∷◌, ◌++◌, none,
  some, ◌==◌, length, pos,
}
use flowi_vfs.Drivers.Results.{ReadResult}
use flowi_vfs.Heap.{Heap}
use flowi_vfs.Unlzx.{LzxEntry, LzxLibrary, LzxHandle}
use flowi_vfs.Unlzx.Kept.{lzx_read-kept}
use flowi_vfs.Unlzx.Reading.{next_on, lzx_read_next, lzx_read_on, lzx_read}
use flowi_vfs.Unlzx.Streams.{LzxLaws, AtEnd, Behind, prefix_of, next_on-Behind}

module _ (L : LzxLibrary) (laws : LzxLaws L) where
  -- A handle that reads the entry.
  record Reads (archive : L.Archive) (entry : LzxEntry) (h : LzxHandle L) (sofar : List ℕ)
      : Type 0 where
    in_archive : (b : ℕ) × (h.archive ≡ some (b, archive))
    named : (length h.target_path.bytes == 0) ≡ false
    found : L.find_entry archive h.target_path.bytes ≡ some entry
    behind : Behind L laws (laws.data_of archive entry) h.stream sofar

  -- A read with no path, when the handle has a target in an archive.
  lzx_read-next_on :
      (h : LzxHandle L) (archive : L.Archive) (b n : ℕ) (heap : Heap)
      → (length h.target_path.bytes == 0) ≡ false
      → h.archive ≡ some (b, archive)
      → lzx_read L h [] (pos n) heap ≡ next_on L h archive n heap h.stream
  unfolding lzx_read lzx_read_next
  lzx_read-next_on h archive b n heap named_ e =
      let found : lzx_read_on L h [] (pos n) heap (some (b, archive))
          ≡ next_on L h archive n heap h.stream =
        rw named_ refl in
      ap (λ o. lzx_read_on L h [] (pos n) heap o) e ∙ found

  lzx_read-Reads :
      (archive : L.Archive) (entry : LzxEntry) (h : LzxHandle L) (sofar : List ℕ) (n : ℕ)
      (heap : Heap)
      → Reads archive entry h sofar
      → let r = lzx_read L h [] (pos n) heap in
        Reads archive entry r.1 (sofar ++ r.0.buffer)
        × (AtEnd n r.0 → sofar ≡ laws.data_of archive entry)
  lzx_read-Reads archive entry h sofar n heap r =
      let whole = laws.data_of archive entry in
      let same = lzx_read-next_on h archive r.in_archive.0 n heap r.named r.in_archive.1 in
      let step =
        subst
          (λ (x : ReadResult × LzxHandle L × Heap).
            Behind L laws whole x.1.stream (sofar ++ x.0.buffer) × (AtEnd n x.0 → sofar ≡ whole))
          (sym same)
          (next_on-Behind L laws whole sofar h archive entry n heap h.stream r.found refl refl
            r.behind) in
      let kept_archive =
        lzx_read-kept L (λ (k : LzxHandle L). k.archive) (λ k o. refl) h [] (pos n) heap in
      let kept_target =
        lzx_read-kept L (λ (k : LzxHandle L). k.target_path.bytes) (λ k o. refl) h [] (pos n)
          heap in
      (
        record {
          in_archive = (r.in_archive.0, kept_archive ∙ r.in_archive.1);
          named = ap (λ p. length p == 0) kept_target ∙ r.named;
          found = ap (λ p. L.find_entry archive p) kept_target ∙ r.found;
          behind = step.0;
        },
        step.1,
      )

  -- What reads of these sizes deliver, one after the other.
  unfoldable pub deliver : List ℕ → LzxHandle L → Heap → List ℕ × LzxHandle L × Heap
  deliver [] h heap = ([], h, heap)
  deliver (n ∷ ns) h heap =
      let (result, h', heap') = lzx_read L h [] (pos n) heap in
      let (rest, h'', heap'') = deliver ns h' heap' in (result.buffer ++ rest, h'', heap'')

  deliver-Reads :
      (archive : L.Archive) (entry : LzxEntry) (ns : List ℕ) (h : LzxHandle L) (sofar : List ℕ)
      (heap : Heap)
      → Reads archive entry h sofar
      → let d = deliver ns h heap in Reads archive entry d.1 (sofar ++ d.0)
  unfolding deliver
  deliver-Reads archive entry [] h sofar heap r =
      subst (λ x. Reads archive entry h x) (sym (append_nil sofar)) r
  deliver-Reads archive entry (n ∷ ns) h sofar heap r =
      let first = lzx_read L h [] (pos n) heap in
      let step = lzx_read-Reads archive entry h sofar n heap r in
      let d = deliver ns first.1 first.2 in
      subst (λ x. Reads archive entry d.1 x) (append_assoc sofar first.0.buffer d.0)
        (deliver-Reads archive entry ns first.1 (sofar ++ first.0.buffer) first.2 step.0)

  -- What was delivered is the start of the data, and all of it once a read found the end.
  pub record Delivery (archive : L.Archive) (entry : LzxEntry) (ns : List ℕ) (h : LzxHandle L)
      (heap : Heap) : Type 0 where
    pub prefix : (rest : List ℕ) × ((deliver ns h heap).0 ++ rest ≡ laws.data_of archive entry)
    pub complete :
        (n : ℕ)
        → let d = deliver ns h heap in
          AtEnd n (lzx_read L d.1 [] (pos n) d.2).0 → d.0 ≡ laws.data_of archive entry

  -- A handle of the LZX driver with a target that its archive holds and no stream yet, with a
  -- library that streams the entry in order, gives no byte at its end only, and fails for good
  -- once it failed: whatever the allocator does, what any reads with no path deliver together is
  -- the start of the entry, failed reads included, and it is all of the entry if the next read, of
  -- a positive size, succeeds with no byte.
  pub deliver-Delivery :
      (archive : L.Archive) (entry : LzxEntry) (ns : List ℕ) (h : LzxHandle L) (b : ℕ) (heap : Heap)
      → h.archive ≡ some (b, archive)
      → (length h.target_path.bytes == 0) ≡ false
      → L.find_entry archive h.target_path.bytes ≡ some entry
      → h.stream ≡ none
      → Delivery archive entry ns h heap
  deliver-Delivery archive entry ns h b heap in_archive named found fresh =
      let whole = laws.data_of archive entry in
      let start : Reads archive entry h [] = record {
        in_archive = (b, in_archive);
        named = named;
        found = found;
        behind = subst (λ o. Behind L laws whole o []) (sym fresh) refl;
      } in
      let r = deliver-Reads archive entry ns h [] heap start in
      let d = deliver ns h heap in
      record {
        prefix = prefix_of L laws whole d.0 d.1.stream r.behind;
        complete = λ n end. (lzx_read-Reads archive entry d.1 d.0 n d.2 r).1 end;
      }
