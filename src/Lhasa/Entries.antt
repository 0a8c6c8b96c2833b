-- ===== src/Lhasa/Entries.antt =====
-- The paths of an LHA archive's entries (src/vfs/drivers/lhasa.c): they fit their buffer, and what a listing
-- caches can be found.
use flowi_vfs.Common.{
  ℕ, zero, suc, ◌-◌, ◌≤◌, ◌<◌, ◌≡◌, false, ◌⊎◌, inl, inr, ◌++◌, Option, none, some, ◌==◌, arith,
  length, length-take, Bool-cases, Option-cases,
}
use flowi_vfs.Drivers.{FilePath}
use flowi_vfs.Archives.{CachedEntry, entry_path_matches}
use flowi_vfs.Archives.Matching.{SamePath, entry_path_matches-SamePath}
use flowi_vfs.Archives.Children.{Any}
use flowi_vfs.Lhasa.{
  LhaLibrary, Header, or_empty, strip_slash, build_full_path, max_path, find_loop, cache_loop,
  cached_entry,
}

length-strip_slash : (s : FilePath) → length (strip_slash s) ≤ length s
unfolding strip_slash
length-strip_slash s = ground (arith, length-take (length s - 1) s)

-- The path and its NUL fit a buffer that is not empty.
pub length-build_full_path :
    (n : ℕ) (header : Header) → 0 < n → length (build_full_path n header) < n
unfolding build_full_path
length-build_full_path n header positive =
    let full = or_empty header.path ++ or_empty header.filename in
    ground (arith, length-strip_slash full)

module _ (L : LhaLibrary) where
  -- The search ended at an entry of that path.
  abbrev pub Found : FilePath → Option Header → Type 0
  Found target none = ⊥
  Found target (some header) = SamePath (build_full_path (max_path L) header) target

  cached_or_later :
      (P : CachedEntry → Type 0) (n : ℕ) (r r' : L.Reader) (header : Header)
      → L.next_file r ≡ some (header, r')
      → Any P (cache_loop L (suc n) r).0
      → let full = build_full_path (max_path L) header in
        (((length full == 0) ≡ false) × P (cached_entry L full header))
        ⊎ Any P (cache_loop L n r').0
  unfolding cache_loop
  cached_or_later P n r r' header e any =
      let full = build_full_path (max_path L) header in
      elim (Bool-cases (L.current_is_fake r')) [
        | inl fake ↦ inr (rw (cache_loop, e, fake) at any)
        | inr real ↦ elim (Bool-cases (length full == 0)) [
          | inl empty ↦ inr (rw (cache_loop, e, real, empty) at any)
          | inr long ↦ split long (rw (cache_loop, e, real, long) at any)
        ]
      ]
    where
      split :
          (length (build_full_path (max_path L) header) == 0) ≡ false
          → P (cached_entry L (build_full_path (max_path L) header) header)
            ⊎ Any P (cache_loop L n r').0
          → (((length (build_full_path (max_path L) header) == 0) ≡ false)
              × P (cached_entry L (build_full_path (max_path L) header) header))
            ⊎ Any P (cache_loop L n r').0
      split long (inl p) = inl (long, p)
      split long (inr a) = inr a

  -- Every path that the listing's cache of an LHA archive holds is found by the search from the
  -- same reader, and the entry found has that path, up to one slash at the end.
  pub find_loop-cached :
      (n : ℕ) (target : FilePath) (r : L.Reader)
      → Any (λ e. e.path ≡ target) (cache_loop L n r).0
      → Found target (find_loop L n target r).0
  unfolding find_loop cache_loop
  find_loop-cached zero target r any = absurd any
  find_loop-cached (suc n) target r any = elim (Option-cases (L.next_file r)) [
    | inl e ↦ absurd (rw (cache_loop, e) at any)
    | inr ((header, r'), e) ↦
        let full = build_full_path (max_path L) header in
        let same = entry_path_matches-SamePath full target in
        elim (cached_or_later (λ e. e.path ≡ target) n r r' header e any) [
          | inl (long, here) ↦ rw (find_loop, e, long, same.1 (inl here)) (inl here)
          | inr later ↦ elim (Bool-cases (length full == 0)) [
            | inl empty ↦ rw (find_loop, e, empty) (find_loop-cached n target r' later)
            | inr long ↦ elim (Bool-cases (entry_path_matches full target)) [
              | inl hit ↦ rw (find_loop, e, long, hit) (same.0 hit)
              | inr miss ↦ rw (find_loop, e, long, miss) (find_loop-cached n target r' later)
            ]
          ]
        ]
  ]
