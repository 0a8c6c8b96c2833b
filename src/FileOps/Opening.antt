-- ===== src/FileOps/Opening.antt =====
-- `vfs_op_file_open` of src/vfs/vfs_ops.c: the walk to the driver that serves the path, and its `open`. The
-- mount's options, which `open` gets as well, are the driver's here; `plugin_handle` is written and not read.
use flowi_vfs.Common.{
  ℕ, ◌+◌, ◌≡◌, refl, subst, false, List, ◌∷◌, ◌++◌, Option, none, some, ◌==◌, ◌⊎◌, inl, inr,
  if◌then◌else◌, ℤ, Bool-cases, Option-cases, length,
}
use flowi_vfs.Status.{state_success, error_mount, error_file_not_found}
use flowi_vfs.Handles.{Handle}
use flowi_vfs.Drivers.{FilePath, OpenResult, PluginEntry}
use flowi_vfs.Drivers.Ledger.{Ledger, Owned, opened}
use flowi_vfs.Resolve.Owes.{Owes, opened-Owes}
use flowi_vfs.Tree.{Node, data_of}
use flowi_vfs.Tree.Handles.{closes}
use flowi_vfs.Walk.{WalkResult, resolved, unresolved, no_worker, walk_and_resolve}
use flowi_vfs.Walk.Slots.{slots}
use flowi_vfs.Walk.Entered.{same-Gains}
use flowi_vfs.Walk.Gains.{walk_and_resolve-Gains}
use flowi_vfs.FileOps.{op_fail}
use flowi_vfs.FileOps.Answers.{Refused}

module _ {W : Type 0} where
  -- From the driver's answer to the end of `vfs_op_file_open`.
  abbrev pub finish_open : Handle → ℕ → OpenResult × Ledger W → Handle × Ledger W
  finish_open h address (r, l) = if r.handle == 0 then (op_fail error_file_not_found h, l) else (
    record h {
      result_data = none;
      plugin_entry = some address;
      plugin_file_handle = r.handle;
      error_status = state_success;
    },
    l,
  )

  -- The driver at the end of the walk is asked.
  abbrev pub open_by : Handle → Option (PluginEntry W) → ℕ → FilePath → Ledger W → Handle × Ledger W
  open_by h none parent path l = (op_fail error_file_not_found h, l)
  open_by h (some e) parent path l =
      finish_open h e.address
        (opened e.address (e.driver.open_path parent path h.open_flags l.world) l)

  abbrev pub open_resolved : Handle → WalkResult W → Ledger W → Handle × Ledger W
  open_resolved h (resolved at_ path) l = open_by h at_.entry at_.handle path l
  open_resolved h (unresolved i) l = (op_fail error_file_not_found h, l)
  open_resolved h no_worker l = (op_fail error_file_not_found h, l)

module _ {W : Type 0} (plugins : List (PluginEntry W)) (path_components : FilePath → List FilePath)
    (reconstruct : FilePath → ℕ → ℕ → FilePath) (compare_natural : FilePath → FilePath → ℤ)
    (thread_index : ℕ) where
  abbrev open_walked : Handle → Node × WalkResult W × Ledger W → Node × Handle × Ledger W
  open_walked h (root, r, l) = let (h', l') = open_resolved h r l in (root, h', l')

  -- `vfs_op_file_open` in a mount with this root.
  unfoldable pub open_in : Handle → Node → Ledger W → Node × Handle × Ledger W
  open_in h root l = elim (data_of root).plugin_entry [
    | none ↦ (root, op_fail error_mount h, l)
    | some a ↦ open_walked h (
        walk_and_resolve plugins (reconstruct h.path) compare_natural thread_index false
          (length h.path == 0) (path_components h.path) root l)
  ]

  -- `vfs_op_file_open`; none stands for a mount that is null or has no root.
  unfoldable pub op_file_open : Handle → Option Node → Ledger W → Option Node × Handle × Ledger W
  op_file_open h none l = (none, op_fail error_mount h, l)
  op_file_open h (some root) l = let (root', h', l') = open_in h root l in (some root', h', l')

-- An opened file, whose handle is owed on top.
pub record HasFile {W : Type 0} (q : Handle) (l : Ledger W) (hs : List Owned) (bs : List ℕ)
    : Type 0 where
  pub address : ℕ
  pub status : q.error_status ≡ state_success
  pub empty : q.result_data ≡ none
  pub entry : q.plugin_entry ≡ some address
  pub owes : Owes l ((address, q.plugin_file_handle) ∷ hs) bs

-- Refused and nothing owed beyond the tree's handles, or the file's handle on top of them.
abbrev pub FileOr : {W : Type 0} → Handle → Ledger W → List Owned → List ℕ → Type 0
FileOr q l hs bs = (Refused q × Owes l hs bs) ⊎ HasFile q l hs bs

-- The end of an open: what the slots of the tree gained is owed, and the file's handle if it is open.
pub record Opening {W : Type 0} (hs : List Owned) (bs : List ℕ) (root root' : Node) (q : Handle)
    (l : Ledger W) : Type 0 where
  pub added : List Owned
  pub counts : (e h : ℕ) → slots e h root' ≡ slots e h root + closes e h added
  pub file : FileOr q l (added ++ hs) bs

module _ {W : Type 0} where
  finish_open-FileOr :
      (h : Handle) (address : ℕ) (r : OpenResult) {l : Ledger W} {hs : List Owned} {bs : List ℕ}
      → Owes l (if r.handle == 0 then hs else (address, r.handle) ∷ hs) bs
      → let q = finish_open h address (r, l) in FileOr q.0 q.1 hs bs
  finish_open-FileOr h address r {l} {hs} {bs} o = elim (Bool-cases (r.handle == 0)) [
    | inl null_ ↦
        let o' : Owes l hs bs =
          subst (λ b. Owes l (if b then hs else (address, r.handle) ∷ hs) bs) null_ o in
        rw null_ (inl ((refl, refl), o'))
    | inr live ↦
        let o' : Owes l ((address, r.handle) ∷ hs) bs =
          subst (λ b. Owes l (if b then hs else (address, r.handle) ∷ hs) bs) live o in
        rw live
          (inr (record { address = address; status = refl; empty = refl; entry = refl; owes = o' }))
  ]

  open_by-FileOr :
      (h : Handle) (e : Option (PluginEntry W)) (parent : ℕ) (path : FilePath) {l : Ledger W}
      {hs : List Owned} {bs : List ℕ}
      → Owes l hs bs
      → let r = open_by h e parent path l in FileOr r.0 r.1 hs bs
  unfolding opened
  open_by-FileOr h none parent path o = inl ((refl, refl), o)
  open_by-FileOr h (some e) parent path {l} {hs} {bs} o =
      let r = e.driver.open_path parent path h.open_flags l.world in
      finish_open-FileOr h e.address r.0 (opened-Owes e.address r o)

  open_resolved-FileOr :
      (h : Handle) (r : WalkResult W) {l : Ledger W} {hs : List Owned} {bs : List ℕ}
      → Owes l hs bs
      → let q = open_resolved h r l in FileOr q.0 q.1 hs bs
  open_resolved-FileOr h (resolved at_ path) o = open_by-FileOr h at_.entry at_.handle path o
  open_resolved-FileOr h (unresolved i) o = inl ((refl, refl), o)
  open_resolved-FileOr h no_worker o = inl ((refl, refl), o)

-- What an open leaves of the tree of a mount, if the mount has one.
abbrev pub OpeningIn :
    {W : Type 0} → List Owned → List ℕ → Option Node → Option Node × Handle × Ledger W → Type 0
OpeningIn hs bs (some root) (some root', q, l) = Opening hs bs root root' q l
OpeningIn hs bs none (none, q, l) = Refused q × Owes l hs bs
OpeningIn hs bs none (some root', q, l) = ⊥
OpeningIn hs bs (some root) (none, q, l) = ⊥

module _ {W : Type 0} (plugins : List (PluginEntry W)) (path_components : FilePath → List FilePath)
    (reconstruct : FilePath → ℕ → ℕ → FilePath) (compare_natural : FilePath → FilePath → ℤ)
    (thread_index : ℕ) where
  open_in-Opening :
      (h : Handle) (root : Node) {l : Ledger W} {hs : List Owned} {bs : List ℕ}
      → Owes l hs bs
      → let r = open_in plugins path_components reconstruct compare_natural thread_index h root l in
        Opening hs bs root r.0 r.1 r.2
  unfolding open_in
  open_in-Opening h root {l} {hs} {bs} o = elim (Option-cases (data_of root).plugin_entry) [
    | inl none_ ↦
        let g = same-Gains hs bs root o in
        rw (open_in, none_)
          (record { added = g.added; counts = g.counts; file = inl ((refl, refl), g.owes) })
    | inr (a, some_) ↦
        let g =
          walk_and_resolve-Gains plugins (reconstruct h.path) compare_natural thread_index false
            (length h.path == 0) (path_components h.path) root o in
        rw (open_in, some_)
          (record { added = g.added; counts = g.counts; file = open_resolved-FileOr h _ g.owes })
  ]

  -- Opening a file through the tree of a mount, for any drivers and any path, with known handles
  -- and buffers owed: it either ends with an error status, no result and nothing more owed than
  -- what the slots of the tree gained; or with success, a driver entry and a file handle that is
  -- not null, which is owed on top of those. A mount without a root is refused and nothing
  -- changes.
  pub op_file_open-Opening :
      (h : Handle) (root : Option Node) {l : Ledger W} {hs : List Owned} {bs : List ℕ}
      → Owes l hs bs
      → OpeningIn hs bs root
          (op_file_open plugins path_components reconstruct compare_natural thread_index h root l)
  unfolding op_file_open
  op_file_open-Opening h none o = ((refl, refl), o)
  op_file_open-Opening h (some root) o = open_in-Opening h root o
