-- ===== src/Lhasa/Operations/Reading.antt =====
-- What reads from an LHA archive deliver (src/vfs/drivers/lhasa.c), when the library reads as it documents.
use flowi_vfs.Common.{
  ℕ, zero, suc, ◌+◌, ◌-◌, ◌≤◌, ◌<◌, ◌≡◌, refl, sym, ap, ◌∙◌, true, false, List, [], ◌++◌, some,
  ◌==◌, ltb, if◌then◌else◌, arith, length, take, drop, pos, inl, inr, Bool-cases, take-append-drop,
  drop-drop, drop_nil, take_all,
}
use flowi_vfs.Drivers.{FilePath}
use flowi_vfs.Drivers.Results.{read_failed, status_generic_error}
use flowi_vfs.Heap.{Heap}
use flowi_vfs.Lhasa.{LhaLibrary, LhasaHandle, Header, find_lha_entry}
use flowi_vfs.Lhasa.Operations.{read_loop, read_done, read_on, read_next, read}

-- `lha_reader_read`: some of the data that is left of the current file, and none at its end only.
pub record LhaLaws (L : LhaLibrary) : Type 0 where
  pub content : L.Reader → List ℕ
  pub read_some : (n : ℕ) (r : L.Reader) → (L.read n r).0 ≡ take (length (L.read n r).0) (content r)
  pub read_rest :
      (n : ℕ) (r : L.Reader) → content (L.read n r).1 ≡ drop (length (L.read n r).0) (content r)
  pub read_at_most : (n : ℕ) (r : L.Reader) → length (L.read n r).0 ≤ n
  pub read_end : (n : ℕ) (r : L.Reader) → 0 < n → length (L.read n r).0 ≡ 0 → content r ≡ []

module _ (L : LhaLibrary) (laws : LhaLaws L) where
  read_loop-take :
      (n size : ℕ) (r : L.Reader)
      → size < n
      → ((read_loop L n size r).0 ≡ take size (laws.content r))
        × (laws.content (read_loop L n size r).1 ≡ drop size (laws.content r))
  unfolding read_loop
  read_loop-take zero size r lt = absurd (omega arith)
  read_loop-take (suc n) zero r lt = (refl, refl)
  read_loop-take (suc n) (suc k) r lt =
      let (chunk, r') = L.read (suc k) r in
      let whole = laws.content r in
      let rest = laws.read_rest (suc k) r in
      let positive : (suc k == 0) ≡ false = ground arith in
      elim (Bool-cases (length chunk == 0)) [
        | inl ended ↦
            let e = laws.read_end (suc k) r (omega arith) (ground arith) in
            rw (read_loop, positive, ended)
              (
                ap (λ x. take (suc k) x) (sym e),
                rest
                    ∙ ap (λ x. drop (length chunk) x) e
                    ∙ drop_nil (length chunk)
                    ∙ ap (λ x. drop (suc k) x) (sym e),
              )
        | inr more ↦
            let m = laws.read_at_most (suc k) r in
            let ih = read_loop-take n (suc k - length chunk) r' (ground arith) in
            let sum : length chunk + (suc k - length chunk) ≡ suc k = omega arith in
            rw (read_loop, positive, more)
              (
                cc (
                  ih.0,
                  laws.read_some (suc k) r,
                  rest,
                  sum,
                  take-append-drop (length chunk) (suc k - length chunk) whole,
                ),
                cc (ih.1, rest, sum, drop-drop (length chunk) (suc k - length chunk) whole),
              )
      ]

  -- What stands behind the reader of a positioned handle.
  abbrev pub Ahead : LhasaHandle L.Reader → List ℕ → Type 0
  Ahead h bytes =
      (h.positioned ≡ true) × (x : ℕ × L.Reader) × (h.reader ≡ some x) × (laws.content x.1 ≡ bytes)

  read_next-take :
      (h : LhasaHandle L.Reader) (size : ℕ) (bytes : List ℕ) (heap : Heap)
      → Ahead h bytes
      → let r = read_next L h size heap in
        (r.0.buffer ≡ take size bytes) × Ahead r.1 (drop size bytes)
  unfolding read_next
  read_next-take h size bytes heap (p, (a, r), e, c) =
      let l = read_loop-take (size + 1) size r (omega arith) in
      rw (read_next, p, e)
        (
          l.0 ∙ ap (λ x. take size x) c,
          (refl, (a, (read_loop L (size + 1) size r).1), refl, l.1 ∙ ap (λ x. drop size x) c),
        )

  -- On a positioned handle of the LHA driver, with a library that reads some of what is left, none
  -- at the end only: two reads with no path, of m and of n bytes, deliver together what one read
  -- of m + n bytes delivers.
  pub read_next-append :
      (h : LhasaHandle L.Reader) (m n : ℕ) (bytes : List ℕ) (heap : Heap)
      → Ahead h bytes
      → let first = read_next L h m heap in
        let second = read_next L first.1 n first.2 in
        first.0.buffer ++ second.0.buffer ≡ (read_next L h (m + n) heap).0.buffer
  read_next-append h m n bytes heap ahead =
      let f = read_next-take h m bytes heap ahead in
      let first = read_next L h m heap in
      let s = read_next-take first.1 n (drop m bytes) first.2 f.1 in
      let o = read_next-take h (m + n) bytes heap ahead in
      cc (f.0, s.0, o.0, take-append-drop m n bytes)

  -- The handle on which a named read searches.
  abbrev pub searching : LhasaHandle L.Reader → LhasaHandle L.Reader
  searching h = record h { positioned = false }

  -- A read of a named entry through the LHA driver, if the search finds it, the library has as
  -- much data for it as its header says, and reads some of what is left, none at the end only: the
  -- call gives all the bytes and success if the buffer has room for the header's length, and an
  -- error and no bytes otherwise.
  pub read-whole_entry :
      (h : LhasaHandle L.Reader) (path : FilePath) (n a : ℕ) (header : Header) (r : L.Reader)
      (heap : Heap)
      → (length path == 0) ≡ false
      → (find_lha_entry L (searching h) path heap).0 ≡ some header
      → (find_lha_entry L (searching h) path heap).1.reader ≡ some (a, r)
      → length (laws.content r) ≡ header.length
      → (read L h path (pos n) heap).0 ≡ (
          if ltb n header.length
          then read_failed status_generic_error
          else read_done L (laws.content r))
  unfolding read
  read-whole_entry h path n a header r heap named found reader whole =
      let l = read_loop-take (n + 1) n r (omega arith) in
      elim (Bool-cases (ltb n header.length)) [
        | inl small ↦ rw (read, named, found, small, named) refl
        | inr large ↦
            let all : (read_loop L (n + 1) n r).0 ≡ laws.content r =
              l.0 ∙ take_all n (laws.content r) (ground (arith, whole)) in
            rw (read, named, found, large, named) (rw (read_on, reader, all) refl)
      ]
