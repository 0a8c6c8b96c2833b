-- ===== src/Drivers/Registry.antt =====
-- `vfs_register_driver` of src/vfs/vfs.c: the built-in LocalFS driver stays the last of the list,
-- behind every driver registered later. The linked list of entries is a list.
use flowi_vfs.Common.{
  Bool, ℕ, not, ◌≡◌, ◌≢◌, List, [], ◌∷◌, ◌++◌, Option, none, some, ◌==◌, if◌then◌else◌, arith, ap,
  ◌∙◌, All,
}
use mathlib.Core.List.{Perm, append-nil, append_assoc}
use mathlib.Core.List.Perm
use flowi_vfs.Drivers.{PluginEntry}

-- `plugin_first` to `plugin_last`, and `builtin_fallback`.
pub record Registry (W : Type 0) : Type 0 where
  pub plugins : List (PluginEntry W)
  pub builtin_fallback : Option (PluginEntry W)

module _ {W : Type 0} where
  -- Splices the entry in immediately before the one at the address.
  unfoldable pub insert_before : ℕ → PluginEntry W → List (PluginEntry W) → List (PluginEntry W)
  insert_before address e [] = e ∷ []
  insert_before address e (p ∷ ps) =
      if p.address == address then e ∷ p ∷ ps else p ∷ insert_before address e ps

  unfoldable pub register_entry :
      PluginEntry W → Option (PluginEntry W) → List (PluginEntry W) → List (PluginEntry W)
  register_entry e none ps = ps ++ e ∷ []
  register_entry e (some fallback) ps =
      if not (e.plugin == fallback.plugin)
      then insert_before fallback.address e ps
      else ps ++ e ∷ []

  -- `vfs_register_driver`; a null plugin (0) is ignored.
  unfoldable pub register_driver : PluginEntry W → Registry W → Registry W
  register_driver e r =
      if e.plugin == 0
      then r
      else record r { plugins = register_entry e r.builtin_fallback r.plugins }

  -- The last entry of a list.
  abbrev last_entry : List (PluginEntry W) → Option (PluginEntry W)
  last_entry [] = none
  last_entry (p ∷ []) = some p
  last_entry (p ∷ q ∷ ps) = last_entry (q ∷ ps)

  -- The registration in `vfs_init`: the built-in driver, remembered as the fallback.
  unfoldable pub init_registry : PluginEntry W → Registry W
  init_registry localfs =
      let r = register_driver localfs (record { plugins = []; builtin_fallback = none }) in
      record r { builtin_fallback = last_entry r.plugins }

  unfoldable pub register_all : List (PluginEntry W) → Registry W → Registry W
  register_all [] r = r
  register_all (e ∷ es) r = register_all es (register_driver e r)

  -- `vfs_register_builtin_drivers` of src/vfs/drivers/registry.c: the drivers of this build, of
  -- libarchive, lhasa and unlzx.
  unfoldable pub builtin_drivers :
      Bool → Bool → Bool → PluginEntry W → PluginEntry W → PluginEntry W → List (PluginEntry W)
  builtin_drivers has_libarchive has_lhasa has_unlzx libarchive lhasa unlzx =
      (if has_libarchive then libarchive ∷ [] else [])
      ++ ((if has_lhasa then lhasa ∷ [] else []) ++ (if has_unlzx then unlzx ∷ [] else []))

  unfoldable pub register_builtin_drivers :
      Bool → Bool → Bool → PluginEntry W → PluginEntry W → PluginEntry W → Registry W → Registry W
  register_builtin_drivers has_libarchive has_lhasa has_unlzx libarchive lhasa unlzx r =
      register_all (builtin_drivers has_libarchive has_lhasa has_unlzx libarchive lhasa unlzx) r

  -- A host driver: a plugin of its own, in an entry of its own.
  pub record IsHost (localfs e : PluginEntry W) : Type 0 where
    pub present : e.plugin ≢ 0
    pub other : e.plugin ≢ localfs.plugin
    pub own_entry : e.address ≢ localfs.address

  module _ (localfs : PluginEntry W) where
    insert_before-append :
        (e : PluginEntry W) (hosts : List (PluginEntry W))
        → All (IsHost localfs) hosts
        → insert_before localfs.address e (hosts ++ localfs ∷ []) ≡ hosts ++ e ∷ localfs ∷ []
    unfolding insert_before
    insert_before-append e [] all = ground arith
    insert_before-append e (p ∷ ps) all =
        ground (arith, all.0.own_entry, insert_before-append e ps all.1)

    register_driver-host :
        (e : PluginEntry W) (hosts : List (PluginEntry W)) (r : Registry W)
        → r.plugins ≡ hosts ++ localfs ∷ []
        → r.builtin_fallback ≡ some localfs
        → All (IsHost localfs) hosts
        → IsHost localfs e
        → ((register_driver e r).plugins ≡ (hosts ++ e ∷ []) ++ localfs ∷ [])
          × ((register_driver e r).builtin_fallback ≡ some localfs)
    unfolding register_driver register_entry
    register_driver-host e hosts r p f all host =
        rw append_assoc (ground (arith, host.present, host.other, insert_before-append e hosts all))

    All-snoc :
        (e : PluginEntry W) (hosts : List (PluginEntry W))
        → All (IsHost localfs) hosts
        → IsHost localfs e
        → All (IsHost localfs) (hosts ++ e ∷ [])
    All-snoc e [] all host = (host, tt)
    All-snoc e (p ∷ ps) all host = (all.0, All-snoc e ps all.1 host)

    register_all-from :
        (hosts es : List (PluginEntry W)) (r : Registry W)
        → r.plugins ≡ hosts ++ localfs ∷ []
        → r.builtin_fallback ≡ some localfs
        → All (IsHost localfs) hosts
        → All (IsHost localfs) es
        → (register_all es r).plugins ≡ (hosts ++ es) ++ localfs ∷ []
    unfolding register_all
    register_all-from hosts [] r p f all more = rw append-nil p
    register_all-from hosts (e ∷ es) r p f all more =
        let (p', f') = register_driver-host e hosts r p f all more.0 in
        register_all-from (hosts ++ e ∷ []) es (register_driver e r) p' f'
          (All-snoc e hosts all more.0) more.1
        ∙ ap (λ xs. xs ++ localfs ∷ []) (append_assoc hosts (e ∷ []) es)

    plugins-register_all :
        (es : List (PluginEntry W))
        → localfs.plugin ≢ 0
        → All (IsHost localfs) es
        → (register_all es (init_registry localfs)).plugins ≡ es ++ localfs ∷ []
    plugins-register_all es ne all =
        register_all-from [] es (init_registry localfs) (started ne).0 (started ne).1 tt all
      where
        started :
            localfs.plugin ≢ 0
            → ((init_registry localfs).plugins ≡ localfs ∷ [])
              × ((init_registry localfs).builtin_fallback ≡ some localfs)
        started ne = unfold init_registry register_driver register_entry in ground arith

    -- Drivers that are all asked before the built-in one.
    pub record AheadOfFallback (es ps : List (PluginEntry W)) : Type 0 where
      pub hosts : List (PluginEntry W)
      pub same : Perm hosts es
      pub listed : ps ≡ hosts ++ localfs ∷ []

    -- Drivers of the host, each with a plugin and an entry of its own, that are registered after
    -- initialisation are all listed, each as often as it was registered, and the built-in local
    -- driver stands behind all of them.
    pub register_all-AheadOfFallback :
        (es : List (PluginEntry W))
        → localfs.plugin ≢ 0
        → All (IsHost localfs) es
        → AheadOfFallback es (register_all es (init_registry localfs)).plugins
    register_all-AheadOfFallback es ne all = record {
      hosts = es;
      same = Perm.refl es;
      listed = plugins-register_all es ne all;
    }
