-- ===== src/Unlzx/Streams.antt =====
-- Where a stream of an LZX archive stands after a read (src/vfs/drivers/unlzx.c), when the library streams as it documents.
use flowi_vfs.Common.{
  append_nil, append_assoc, ℕ, ◌<◌, ◌≡◌, refl, sym, ap, subst, ◌∙◌, Bool, true, false, not, ◌⊎◌,
  inl, inr, List, [], ◌++◌, Option, none, some, ◌==◌, arith, Bool-cases, Sum-cases,
}
use flowi_vfs.Drivers.Results.{ReadResult, status_success, status_archive_error}
use flowi_vfs.Heap.{Heap, acquire}
use flowi_vfs.Unlzx.{LzxEntry, LzxLibrary, LzxHandle, lzx_ok}
use flowi_vfs.Unlzx.Reading.{open_stream, read_stream, read_opened, next_on}

-- `unlzx_stream_open` and `unlzx_stream_read`: a stream gives the entry's bytes in order, none once all of
-- them were read only, and fails for good once it failed.
pub record LzxLaws (L : LzxLibrary) : Type 0 where
  pub data_of : L.Archive → LzxEntry → List ℕ
  pub content : L.Stream → List ℕ
  pub failed : L.Stream → Bool
  pub opens :
      (archive : L.Archive) (entry : LzxEntry) (s : L.Stream)
      → L.stream_open archive entry ≡ inl s
      → (content s ≡ data_of archive entry) × (failed s ≡ false)
  pub reads :
      (s : L.Stream) (n : ℕ)
      → (L.stream_read s n).0 ≡ lzx_ok
      → (content s ≡ (L.stream_read s n).1 ++ content (L.stream_read s n).2) × (failed s ≡ false)
  pub fails :
      (s : L.Stream) (n : ℕ) → failed (L.stream_read s n).2 ≡ not ((L.stream_read s n).0 == lzx_ok)
  pub ends :
      (s : L.Stream) (n : ℕ)
      → 0 < n
      → (L.stream_read s n).0 ≡ lzx_ok
      → (L.stream_read s n).1 ≡ []
      → content s ≡ []

-- A read that succeeds and delivers nothing though it may.
abbrev pub AtEnd : ℕ → ReadResult → Type 0
AtEnd n result = (0 < n) × (result.vfs_status ≡ status_success) × (result.buffer ≡ [])

module _ (L : LzxLibrary) (laws : LzxLaws L) where
  -- So much of the data was delivered, and the stream stands behind it or has failed.
  abbrev pub Behind : List ℕ → Option (ℕ × L.Stream) → List ℕ → Type 0
  Behind whole none sofar = sofar ≡ []
  Behind whole (some (a, s)) sofar =
      ((laws.failed s ≡ false) × (sofar ++ laws.content s ≡ whole))
      ⊎ ((laws.failed s ≡ true) × (rest : List ℕ) × (sofar ++ rest ≡ whole))

  pub prefix_of :
      (whole sofar : List ℕ) (o : Option (ℕ × L.Stream))
      → Behind whole o sofar
      → (rest : List ℕ) × (sofar ++ rest ≡ whole)
  prefix_of whole sofar none b = (whole, ap (λ x. x ++ whole) b)
  prefix_of whole sofar (some (a, s)) (inl (fine, e)) = (laws.content s, e)
  prefix_of whole sofar (some (a, s)) (inr (bad, rest, e)) = (rest, e)

  read_stream-ok :
      (h : LzxHandle L) (a : ℕ) (s : L.Stream) (n : ℕ)
      → ((L.stream_read s n).0 == lzx_ok) ≡ true
      → (read_stream L h (a, s) n).0.buffer ≡ (L.stream_read s n).1
  read_stream-ok h a s n ok = rw ok refl

  read_stream-error :
      (h : LzxHandle L) (a : ℕ) (s : L.Stream) (n : ℕ)
      → ((L.stream_read s n).0 == lzx_ok) ≡ false
      → ((read_stream L h (a, s) n).0.buffer ≡ [])
        × ((read_stream L h (a, s) n).0.vfs_status ≡ status_archive_error)
  read_stream-error h a s n error = rw error (refl, refl)

  ok_eq : (n : ℕ) → (n == lzx_ok) ≡ true → n ≡ lzx_ok
  ok_eq n e = ground (arith, e)

  read_stream-Behind :
      (whole sofar : List ℕ) (h : LzxHandle L) (a : ℕ) (s : L.Stream) (n : ℕ)
      → Behind whole (some (a, s)) sofar
      → let r = read_stream L h (a, s) n in
        Behind whole r.1.stream (sofar ++ r.0.buffer) × (AtEnd n r.0 → sofar ≡ whole)
  read_stream-Behind whole sofar h a s n b = elim (Bool-cases ((L.stream_read s n).0 == lzx_ok)) [
    | inl ok ↦ went ok b
    | inr error ↦ stopped error b
  ]
    where
      Goal : Type 0
      Goal =
          let r = read_stream L h (a, s) n in
          Behind whole r.1.stream (sofar ++ r.0.buffer) × (AtEnd n r.0 → sofar ≡ whole)

      went : ((L.stream_read s n).0 == lzx_ok) ≡ true → Behind whole (some (a, s)) sofar → Goal
      went ok (inl (fine, e)) =
          let read = laws.reads s n (ok_eq (L.stream_read s n).0 ok) in
          let bytes = read_stream-ok h a s n ok in
          let later = laws.content (L.stream_read s n).2 in
          (
            inl (
              laws.fails s n ∙ ap not ok,
              ap (λ x. (sofar ++ x) ++ later) bytes
                  ∙ append_assoc sofar (L.stream_read s n).1 later
                  ∙ ap (λ x. sofar ++ x) (sym read.0)
                  ∙ e,
            ),
            λ end.
                let nothing_left =
                  laws.ends s n end.0 (ok_eq (L.stream_read s n).0 ok) (sym bytes ∙ end.2) in
                sym (append_nil sofar) ∙ ap (λ x. sofar ++ x) (sym nothing_left) ∙ e,
          )
      went ok (inr (bad, rest, e)) =
          let read = laws.reads s n (ok_eq (L.stream_read s n).0 ok) in
          absurd (ground (arith, read.1, bad))

      stopped : ((L.stream_read s n).0 == lzx_ok) ≡ false → Behind whole (some (a, s)) sofar → Goal
      stopped error b =
          let r = read_stream-error h a s n error in
          let rest = prefix_of whole sofar (some (a, s)) b in
          (
            inr (
              laws.fails s n ∙ ap not error,
              rest.0,
              ap (λ x. (sofar ++ x) ++ rest.0) r.0
                  ∙ ap (λ x. x ++ rest.0) (append_nil sofar)
                  ∙ rest.1,
            ),
            λ end. absurd (ground (arith, r.1, end.1)),
          )

  -- A stream stands at the start of the data.
  abbrev Fresh : List ℕ → (ℕ × L.Stream) ⊎ ℕ → Type 0
  Fresh whole (inl (a, s)) = (laws.content s ≡ whole) × (laws.failed s ≡ false)
  Fresh whole (inr error) = Unit

  open_stream-Fresh :
      (archive : L.Archive) (entry : LzxEntry) (heap : Heap)
      → Fresh (laws.data_of archive entry) (open_stream L archive entry heap).0
  unfolding open_stream
  open_stream-Fresh archive entry heap = elim (Sum-cases (L.stream_open archive entry)) [
    | inl (s, e) ↦ elim (Bool-cases ((acquire heap).0 == 0)) [
      | inl refused ↦ rw (open_stream, e, refused) tt
      | inr served ↦ rw (open_stream, e, served) (laws.opens archive entry s e)
    ]
    | inr (error, e) ↦ rw (open_stream, e) tt
  ]

  read_opened-Behind :
      (whole sofar : List ℕ) (h : LzxHandle L) (n : ℕ) (o : (ℕ × L.Stream) ⊎ ℕ) (heap : Heap)
      → Fresh whole o
      → sofar ≡ []
      → h.stream ≡ none
      → let r = read_opened L h n (o, heap) in
        Behind whole r.1.stream (sofar ++ r.0.buffer) × (AtEnd n r.0 → sofar ≡ whole)
  read_opened-Behind whole sofar h n (inl (a, s)) heap f e fresh =
      read_stream-Behind whole sofar h a s n (inl (f.1, ap (λ x. x ++ laws.content s) e ∙ f.0))
  read_opened-Behind whole sofar h n (inr error) heap f e fresh = (
    subst (λ o. Behind whole o (sofar ++ [])) (sym fresh) (append_nil sofar ∙ e),
    λ end. absurd (ground (arith, end.1)),
  )

  pub next_on-Behind :
      (whole sofar : List ℕ) (h : LzxHandle L) (archive : L.Archive) (entry : LzxEntry) (n : ℕ)
      (heap : Heap) (o : Option (ℕ × L.Stream))
      → L.find_entry archive h.target_path.bytes ≡ some entry
      → laws.data_of archive entry ≡ whole
      → h.stream ≡ o
      → Behind whole o sofar
      → let r = next_on L h archive n heap o in
        Behind whole r.1.stream (sofar ++ r.0.buffer) × (AtEnd n r.0 → sofar ≡ whole)
  next_on-Behind whole sofar h archive entry n heap none found same e b = rw found (
      let o = open_stream L archive entry heap in
      read_opened-Behind whole sofar h n o.0 o.1
        (subst (λ w. Fresh w o.0) same (open_stream-Fresh archive entry heap)) b e)
  next_on-Behind whole sofar h archive entry n heap (some (a, s)) found same e b =
      read_stream-Behind whole sofar h a s n b
