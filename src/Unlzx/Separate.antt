-- ===== src/Unlzx/Separate.antt =====
-- The order of a close of the LZX driver (src/vfs/drivers/unlzx.c): a stream has to be closed before its
-- archive, and `unlzx_vfs_close` closes the archive first, but never has both.
use flowi_vfs.Common.{
  ℕ, ◌+◌, sym, ◌∙◌, arith, ◌≡◌, refl, ap, Bool, true, false, not, ◌||◌, inl, inr, List, [], ◌∷◌,
  Option, none, some, ◌==◌, if◌then◌else◌, length, ℤ, is_negative, Bool-cases,
}
use flowi_vfs.Drivers.{FilePath}
use flowi_vfs.Handles.{Entry}
use flowi_vfs.Heap.{Heap, acquire, copy_text}
use flowi_vfs.Heap.Sessions.{run_calls}
use flowi_vfs.Archives.{list_children}
use flowi_vfs.Unlzx.{
  vfs_close, lzx_cached_entries, LzxLibrary, UnlzxHandle, LzxHandle, lzx_has_cache, lzx_has_archive,
  lzx_cache_on, lzx_list_directory, lzx_build_entry_cache,
}
use flowi_vfs.Unlzx.Opens.{
  LzxOpened, lzx_open, lzx_root, lzx_child, lzx_open_root, lzx_open_archive, lzx_clone,
  vfs_open_memory, is_lzx_file, is_lzx_archive_data,
}
use flowi_vfs.Unlzx.Reading.{lzx_read_on, lzx_read}
use flowi_vfs.Unlzx.Kept.{lzx_read-kept}
use flowi_vfs.Unlzx.Sessions.{
  LzxCall, lzx_call_read, lzx_call_get_size, lzx_call_list_directory, run_lzx_call,
}

-- A handle that closes its archive has no stream on it, and no path to open one with.
abbrev pub Separate : {A S : Type 0} → UnlzxHandle A S → Type 0
Separate h = h.owns_archive ≡ true → (h.target_path.bytes ≡ []) × (h.stream ≡ none)

module _ (L : LzxLibrary) where
  -- With no target, a read that names no entry is refused.
  read_on-bare :
      (h : LzxHandle L) (path : FilePath) (size : ℤ) (heap : Heap) (o : Option (ℕ × L.Archive))
      → h.target_path.bytes ≡ []
      → (lzx_read_on L h path size heap o).1 ≡ h
  read_on-bare h path size heap none bare = refl
  read_on-bare h path size heap (some (b, archive)) bare =
      let empty : (length h.target_path.bytes == 0) ≡ true = ap (λ p. length p == 0) bare in
      elim (Bool-cases (length path == 0)) [
        | inl none_ ↦ rw (none_, empty) refl
        | inr named ↦ elim (Bool-cases (is_negative size)) [
          | inl negative ↦ rw (named, named, negative) refl
          | inr fine ↦ rw (named, named, fine) refl
        ]
      ]

  lzx_read-Separate :
      (h : LzxHandle L) (path : FilePath) (size : ℤ) (heap : Heap)
      → Separate h
      → Separate (lzx_read L h path size heap).1
  unfolding lzx_read
  lzx_read-Separate h path size heap s owned =
      let kept =
        lzx_read-kept L (λ (k : LzxHandle L). k.owns_archive) (λ k o. refl) h path size heap in
      let mine = sym kept ∙ owned in
      let bare = s mine in
      let same = read_on-bare h path size heap h.archive bare.0 in
      (
        ap (λ (k : LzxHandle L). k.target_path.bytes) same ∙ bare.0,
        ap (λ (k : LzxHandle L). k.stream) same ∙ bare.1,
      )

  cache_on-Separate :
      (h : LzxHandle L) (o : Option (ℕ × L.Archive)) (r : ℕ × Heap)
      → Separate h
      → Separate (lzx_cache_on L h o r).0
  cache_on-Separate h none r s = s
  cache_on-Separate h (some x) r s = s

  build_entry_cache-Separate :
      (h : LzxHandle L) (heap : Heap) → Separate h → Separate (lzx_build_entry_cache L h heap).0
  unfolding lzx_build_entry_cache
  build_entry_cache-Separate h heap s =
      elim (Bool-cases (lzx_has_cache L h || not (lzx_has_archive L h))) [
        | inl e ↦ rw (lzx_build_entry_cache, e) s
        | inr e ↦ rw (lzx_build_entry_cache, e) (cache_on-Separate h h.archive (acquire heap) s)
      ]

  either-Separate :
      {T : Type 0} (b : Bool) (x y : T × LzxHandle L × Heap)
      → Separate x.1
      → Separate y.1
      → Separate (if◌then◌else◌ {A = T × LzxHandle L × Heap} b x y).1
  either-Separate true x y s z = s
  either-Separate false x y s z = z

  run_lzx_call-Separate :
      (c : LzxCall) (h : LzxHandle L) (heap : Heap)
      → Separate h
      → Separate (run_lzx_call L c (h, heap)).0
  unfolding run_lzx_call lzx_list_directory
  run_lzx_call-Separate (lzx_call_read path size) h heap s = lzx_read-Separate h path size heap s
  run_lzx_call-Separate (lzx_call_get_size path) h heap s = s
  run_lzx_call-Separate (lzx_call_list_directory path) h heap s =
      let b = lzx_build_entry_cache L h heap in
      let listed =
        list_children (λ (e : Entry) (n : ℕ). (true, n + 1)) (lzx_cached_entries L b.0) path 0 in
      either-Separate (not h.is_directory) (0, h, heap) (listed, b.0, b.1) s
        (build_entry_cache-Separate h heap s)

  run_calls-Separate :
      (cs : List LzxCall) (h : LzxHandle L) (heap : Heap)
      → Separate h
      → Separate (run_calls (run_lzx_call L) (vfs_close L) cs (h, heap)).0
  unfolding run_calls
  run_calls-Separate [] h heap s = s
  run_calls-Separate (c ∷ cs) h heap s =
      let r = run_lzx_call L c (h, heap) in
      run_calls-Separate cs r.0 r.1 (run_lzx_call-Separate c h heap s)

  -- The state in which a handle comes to its close, if the open gave one.
  abbrev pub SeparateAtClose : List LzxCall → LzxOpened L.Archive L.Stream × Heap → Type 0
  SeparateAtClose cs (o, heap) = elim o.handle [
    | none ↦ Unit
    | some h ↦ Separate (run_calls (run_lzx_call L) (vfs_close L) cs (h, heap)).0
  ]

  either-SeparateAtClose :
      (cs : List LzxCall) (b : Bool) (x y : LzxOpened L.Archive L.Stream × Heap)
      → SeparateAtClose cs x
      → SeparateAtClose cs y
      → SeparateAtClose cs (if b then x else y)
  either-SeparateAtClose cs true x y s z = s
  either-SeparateAtClose cs false x y s z = z

  open_root-Separate :
      (cs : List LzxCall) (owned : Bool) (path : FilePath) (buffer : ℕ) (memory : List ℕ)
      (r : ℕ × Heap)
      → SeparateAtClose cs (lzx_open_root L owned path buffer memory r)
  open_root-Separate cs owned path buffer memory r =
      let t = copy_text path r.1 in
      let o = lzx_open_archive L memory t.1 in
      let h : LzxHandle L = lzx_root L r.0 t.0 buffer memory o.0 in
      either-SeparateAtClose cs (r.0 == 0) _ _ tt (
        either-SeparateAtClose cs (not (lzx_has_archive L h)) _ _ tt
          (run_calls-Separate cs (record h { owns_memory = owned }) o.1 (λ e. (refl, refl))))

  -- Every open, whatever was done with the handle.
  pub record SeparateCloses (cs : List LzxCall) (heap : Heap) : Type 0 where
    pub child :
        (has_extension : FilePath → FilePath → Bool) (parent : Option (LzxHandle L))
        (path : FilePath)
        → SeparateAtClose cs (lzx_open L has_extension parent path heap)
    pub cloned : (source : LzxHandle L) → SeparateAtClose cs (lzx_clone L source heap)
    pub in_memory :
        (buffer : ℕ) (memory : List ℕ) (path : FilePath)
        → SeparateAtClose cs (vfs_open_memory L buffer memory path heap)

  open-Separate :
      (cs : List LzxCall) (has_extension : FilePath → FilePath → Bool)
      (parent : Option (LzxHandle L)) (path : FilePath) (heap : Heap)
      → SeparateAtClose cs (lzx_open L has_extension parent path heap)
  unfolding lzx_open
  open-Separate cs has_extension none path heap =
      either-SeparateAtClose cs (not (is_lzx_file has_extension path)) _ _ tt tt
  open-Separate cs has_extension (some parent) path heap =
      let (address, heap1) = acquire heap in
      let (archive_path, heap2) = copy_text parent.archive_path.bytes heap1 in
      let (target_path, heap3) = copy_text path heap2 in
      either-SeparateAtClose cs (address == 0) _ _ tt (
        run_calls-Separate cs (lzx_child L parent address archive_path target_path) heap3
          (λ e. absurd (ground (arith, e))))

  -- Whatever open of the LZX driver gave a handle and whatever calls followed: when the handle is
  -- closed, it does not own its archive, or it has no stream and an empty target. So the close,
  -- which closes an owned archive before the stream, never closes an archive under its own stream.
  pub lzx_open-SeparateCloses : (cs : List LzxCall) (heap : Heap) → SeparateCloses cs heap
  unfolding lzx_clone vfs_open_memory
  lzx_open-SeparateCloses cs heap = record {
    child = λ has_extension parent path. open-Separate cs has_extension parent path heap;
    cloned = λ source.
        let p = source.archive_path.bytes in
        either-SeparateAtClose cs (source.memory_buffer == 0) _ _ tt
          (open_root-Separate cs false p source.memory_buffer source.memory (acquire heap));
    in_memory = λ buffer memory path.
        either-SeparateAtClose cs ((buffer == 0) || (length memory == 0)) _ _ tt (
          either-SeparateAtClose cs (not (is_lzx_archive_data memory)) _ _ tt
            (open_root-Separate cs true path buffer memory (acquire heap)));
  }
