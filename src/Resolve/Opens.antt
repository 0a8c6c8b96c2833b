-- ===== src/Resolve/Opens.antt =====
-- What the VFS owes after each search for a driver (src/vfs/vfs_tree.c): for a buffer, for the root
-- of a path, and for a file below an open handle.
use flowi_vfs.Common.{
  ℕ, zero, suc, ◌+◌, Bool, true, false, inl, inr, List, [], ◌∷◌, Option, none, some, ◌==◌,
  if◌then◌else◌, ℤ, Bool-cases,
}
use flowi_vfs.Drivers.{FilePath, OpenResult, PluginEntry, archive_corrupt}
use flowi_vfs.Drivers.Ledger.{Ledger, Owned, opened}
use flowi_vfs.Loading.{
  Probe, found, corrupt, pass, probe_open, probe_memory, find_plugin_for_memory, first_open,
}
use flowi_vfs.Resolve.{find_root_plugin}
use flowi_vfs.Resolve.Owes.{Owes, hand_over-Owes, opened-Owes}

module _ {W : Type 0} where
  abbrev ProbeOwes : PluginEntry W → List Owned → ℕ → List ℕ → Probe × Ledger W → Type 0
  ProbeOwes e hs b bs (found h, l) = Owes l ((e.address, h) ∷ hs) bs
  ProbeOwes e hs b bs (corrupt, l) = Owes l hs (b ∷ bs)
  ProbeOwes e hs b bs (pass, l) = Owes l hs (b ∷ bs)

  probe_open-Owes :
      (e : PluginEntry W) (open_memory : Option (ℕ → ℤ → FilePath → W → OpenResult × W))
      (path : FilePath) (b : ℕ) (size : ℤ) {l : Ledger W} {hs : List Owned} {bs : List ℕ}
      → Owes l hs (b ∷ bs)
      → ProbeOwes e hs b bs (probe_open e open_memory path b size l)
  unfolding probe_open opened
  probe_open-Owes e none path b size o = o
  probe_open-Owes e (some open_memory) path b size {l} {hs} {bs} o =
      let r = open_memory b size path l.world in
      let p = opened-Owes e.address r o in
      elim (Bool-cases (r.0.handle == 0)) [
        | inl closed ↦ elim (Bool-cases (r.0.vfs_status == archive_corrupt)) [
          | inl bad ↦ rw (closed, bad) (rw closed at p)
          | inr good ↦ rw (closed, good) (rw closed at p)
        ]
        | inr open_ ↦ rw open_ (hand_over-Owes b (rw open_ at p))
      ]

  probe_memory-Owes :
      (e : PluginEntry W) (path : FilePath) (b : ℕ) (size : ℤ) {l : Ledger W} {hs : List Owned}
      {bs : List ℕ}
      → Owes l hs (b ∷ bs)
      → ProbeOwes e hs b bs (probe_memory e path b size l)
  unfolding probe_memory
  probe_memory-Owes e path b size o = elim (Bool-cases e.driver.has_memory_capability) [
    | inl able ↦ simp able (probe_open-Owes e e.driver.open_memory path b size o)
    | inr unable ↦ simp unable o
  ]

  -- On success the driver took the buffer and the VFS owes the new handle; else the buffer is the
  -- VFS's still.
  abbrev pub FoundMemory : List Owned → ℕ → List ℕ → Option (PluginEntry W × ℕ) × Ledger W → Type 0
  FoundMemory hs b bs (none, l) = Owes l hs (b ∷ bs)
  FoundMemory hs b bs (some (e, h), l) = Owes l ((e.address, h) ∷ hs) bs

  -- Asking the drivers for a buffer: if one opens it, its handle is owed and the buffer is no
  -- longer; otherwise the buffer is still owed and nothing else has changed hands.
  pub find_plugin_for_memory-Owes :
      (es : List (PluginEntry W)) (path : FilePath) (b : ℕ) (size : ℤ) {l : Ledger W}
      {hs : List Owned} {bs : List ℕ}
      → Owes l hs (b ∷ bs)
      → FoundMemory hs b bs (find_plugin_for_memory es path b size l)
  unfolding find_plugin_for_memory
  find_plugin_for_memory-Owes [] path b size o = o
  find_plugin_for_memory-Owes (e ∷ es) path b size {l} {hs} {bs} o =
      go (probe_memory e path b size l) (probe_memory-Owes e path b size o)
        (λ l' o'. find_plugin_for_memory-Owes es path b size {l = l'} o')
    where
      go :
          (r : Probe × Ledger W)
          → ProbeOwes e hs b bs r
          → ((l' : Ledger W)
              → Owes l' hs (b ∷ bs)
              → FoundMemory hs b bs (find_plugin_for_memory es path b size l'))
          → FoundMemory hs b bs (elim r.0 [
            | found h ↦ (some (e, h), r.1)
            | corrupt ↦ (none, r.1)
            | pass ↦ find_plugin_for_memory es path b size r.1
          ])
      go (found h, l') p rest = p
      go (corrupt, l') p rest = p
      go (pass, l') p rest = rest l' p

  abbrev FoundOpen : List Owned → List ℕ → Option (PluginEntry W × ℕ) × Ledger W → Type 0
  FoundOpen hs bs (none, l) = Owes l hs bs
  FoundOpen hs bs (some (e, h), l) = Owes l ((e.address, h) ∷ hs) bs

  first_open-Owes :
      (es : List (PluginEntry W)) (path : FilePath) {l : Ledger W} {hs : List Owned} {bs : List ℕ}
      → Owes l hs bs
      → FoundOpen hs bs (first_open es path l)
  unfolding first_open opened
  first_open-Owes [] path o = o
  first_open-Owes (e ∷ es) path {l} {hs} {bs} o =
      go (r.0.handle == 0) (opened-Owes e.address r o) (λ p. first_open-Owes es path p)
    where
      r : OpenResult × W
      r = e.driver.open_path 0 path 0 l.world

      l' : Ledger W
      l' = (opened e.address r l).1

      go :
          (b : Bool)
          → Owes l' (if b then hs else (e.address, r.0.handle) ∷ hs) bs
          → (Owes l' hs bs → FoundOpen hs bs (first_open es path l'))
          → FoundOpen hs bs
              (elim b [ true ↦ first_open es path l' | false ↦ (some (e, r.0.handle), l') ])
      go true p rest = rest p
      go false p rest = p

  -- A root that was found is open, and nothing else is.
  abbrev pub FoundRoot : List Owned → List ℕ → Option (PluginEntry W × ℕ × ℕ) × Ledger W → Type 0
  FoundRoot hs bs (none, l) = Owes l hs bs
  FoundRoot hs bs (some (e, h, i), l) = Owes l ((e.address, h) ∷ hs) bs

  module _ (plugins : List (PluginEntry W)) (count : ℕ) (reconstruct : ℕ → ℕ → FilePath) where
    pub find_root_plugin-Owes :
        (start k : ℕ) {l : Ledger W} {hs : List Owned} {bs : List ℕ}
        → Owes l hs bs
        → FoundRoot hs bs (find_root_plugin plugins count reconstruct start k l)
    unfolding find_root_plugin
    find_root_plugin-Owes start zero o = o
    find_root_plugin-Owes start (suc k) {l} {hs} {bs} o =
        go (first_open plugins (reconstruct start (start + suc k)) l)
          (first_open-Owes plugins (reconstruct start (start + suc k)) o)
          (λ l' o'. find_root_plugin-Owes start k {l = l'} o')
      where
        go :
            (r : Option (PluginEntry W × ℕ) × Ledger W)
            → FoundOpen hs bs r
            → ((l' : Ledger W)
                → Owes l' hs bs
                → FoundRoot hs bs (find_root_plugin plugins count reconstruct start k l'))
            → FoundRoot hs bs (elim r.0 [
              | some (e, h) ↦ (some (e, h, start + suc k), r.1)
              | none ↦ find_root_plugin plugins count reconstruct start k r.1
            ])
        go (some (e, h), l') p rest = p
        go (none, l') p rest = rest l' p
