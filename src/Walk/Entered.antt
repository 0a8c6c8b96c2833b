-- ===== src/Walk/Entered.antt =====
-- What entering a segment of a walk (src/vfs/vfs_tree.c) owes: the handles that a node is given when it is
-- loaded as an archive, and those of a node that is added.
use mathlib.Core.List.{append_assoc}
use flowi_vfs.Common.{
  ℕ, ◌+◌, ◌-◌, ◌≡◌, refl, sym, subst, ◌∙◌, Bool, inl, inr, List, [], ◌∷◌, ◌++◌, Option, none, some,
  if◌then◌else◌, arith, ℤ, is_negative, Bool-cases,
}
use flowi_vfs.Drivers.{FilePath, PluginEntry}
use flowi_vfs.Drivers.Ledger.{Ledger, Owned}
use flowi_vfs.Resolve.Owes.{Owes, world-Owes}
use flowi_vfs.Tree.{
  NodeData, Node, node, data_of, create_node, create_root_node, close_node_resources,
}
use flowi_vfs.Tree.Handles.{closes, closes-append}
use flowi_vfs.Mounting.{Archive, load_archive}
use flowi_vfs.Mounting.Clones.{ArchiveOwes, load_archive-Owes}
use flowi_vfs.Walk.{
  At, entry_at, slot_at, install_found, close_owned, try_load_as_archive, load_child, enter_child,
  add_child, deeper, or_directory, as_directory,
}
use flowi_vfs.Walk.Slots.{slots_in, node_slots, slots}

-- The handles that were added to what is owed are those that the slots gained.
pub record Gains {W : Type 0} (hs : List Owned) (bs : List ℕ) (before after : Node) (l : Ledger W)
    : Type 0 where
  pub added : List Owned
  pub owes : Owes l (added ++ hs) bs
  pub counts : (e h : ℕ) → slots e h after ≡ slots e h before + closes e h added

-- A node that was inserted without handles, and what it is when it is entered.
pub record Added {W : Type 0} (s : FilePath) (hs : List Owned) (bs : List ℕ) (new c : Node)
    (l : Ledger W) : Type 0 where
  pub named : (data_of new).name ≡ s
  pub empty : (e h : ℕ) → slots e h new ≡ 0
  pub gains : Gains hs bs new c l

create_node-empty : (s : FilePath) (e h : ℕ) → slots e h (create_node s) ≡ 0
unfolding slots node_slots
create_node-empty s e h = refl

create_root_node-empty : (s : FilePath) (e h : ℕ) → slots e h (create_root_node s) ≡ 0
unfolding slots node_slots
create_root_node-empty s e h = refl

closes_nothing : (n : NodeData) → n.plugin_entry ≡ none → (close_node_resources n).1 ≡ []
unfolding close_node_resources
closes_nothing n fresh = ground (arith, fresh)

module _ {W : Type 0} where
  pub same-Gains :
      (hs : List Owned) (bs : List ℕ) (c : Node) {l : Ledger W} → Owes l hs bs → Gains hs bs c c l
  unfolding closes
  same-Gains hs bs c o = record { added = []; owes = o; counts = λ e h. omega arith }

  install_found-Gains :
      (plugins : List (PluginEntry W)) (c : Node) (hs : List Owned) (bs : List ℕ)
      (a : Option (Archive W) × Ledger W)
      → (data_of c).plugin_entry ≡ none
      → ArchiveOwes hs bs a
      → let r = install_found plugins c a in Gains hs bs c r.1 r.2
  unfolding close_node_resources close_owned slots node_slots slots_in closes
  install_found-Gains plugins c hs bs (none, l) fresh o = same-Gains hs bs c o
  install_found-Gains plugins (node n kids) hs bs (some a, l) fresh (h, c, e, o) =
      let nothing : (close_node_resources n).1 ≡ [] = closes_nothing n fresh in
      record {
        added = (a.entry.address, c) ∷ (a.entry.address, h) ∷ [];
        owes =
            subst
              (λ x.
                Owes (close_owned plugins x l) ((a.entry.address, c) ∷ (a.entry.address, h) ∷ hs)
                  bs)
              (sym nothing) o;
        counts = λ e' g. ground (arith, e, fresh);
      }

  try_load-Gains :
      (plugins : List (PluginEntry W)) (e : PluginEntry W) (handle : ℕ) (path : FilePath) (size : ℤ)
      (c : Node) {l : Ledger W} {hs : List Owned} {bs : List ℕ}
      → (data_of c).plugin_entry ≡ none
      → Owes l hs bs
      → let r = try_load_as_archive plugins e handle path size c l in Gains hs bs c r.1 r.2
  unfolding try_load_as_archive
  try_load-Gains plugins e handle path size c {l} {hs} {bs} fresh o =
      install_found-Gains plugins c hs bs (load_archive plugins e handle path size l) fresh
        (load_archive-Owes plugins e handle path size o)

  -- One step after another.
  pub then-Gains :
      {hs : List Owned} {bs : List ℕ} {a b c : Node} {l l' : Ledger W}
      → (g : Gains hs bs a b l) → Gains (g.added ++ hs) bs b c l'
      → Gains hs bs a c l'
  then-Gains {hs} {bs} {a} {b} {c} {l} {l'} g g' = record {
    added = g'.added ++ g.added;
    owes = subst (λ x. Owes l' x bs) (sym (append_assoc g'.added g.added hs)) g'.owes;
    counts = λ e h. omega (arith, g.counts e h, g'.counts e h, closes-append e h g'.added g.added);
  }

  module _ (plugins : List (PluginEntry W)) (reconstruct : ℕ → ℕ → FilePath)
      (compare_natural : FilePath → FilePath → ℤ) (thread_index : ℕ) (for_listing : Bool) where
    pub enter_child-Gains :
        (at_ : At W) (i : ℕ) (c : Node) {l : Ledger W} {hs : List Owned} {bs : List ℕ}
        → Owes l hs bs
        → let r =
            enter_child plugins reconstruct compare_natural thread_index for_listing at_ i c l in
          Gains hs bs c r.1 r.2
    unfolding enter_child load_child
    enter_child-Gains at_ i c {l} {hs} {bs} o = go (data_of c).plugin_entry refl at_.entry
      where
        go :
            (p : Option ℕ)
            → (data_of c).plugin_entry ≡ p
            → (q : Option (PluginEntry W))
            → let r : At W × Node × Ledger W = elim p [
              | some a ↦ (
                record {
                  entry = entry_at plugins a;
                  handle = slot_at thread_index (data_of c).handles;
                  since = 0;
                },
                c,
                l,
              )
              | none ↦
                  if (data_of c).is_directory
                  then (
                    deeper plugins reconstruct compare_natural thread_index for_listing at_,
                    c,
                    l,
                  )
                  else elim q [
                    | none ↦ (
                      deeper plugins reconstruct compare_natural thread_index for_listing at_,
                      c,
                      l,
                    )
                    | some e ↦
                        load_child plugins reconstruct compare_natural thread_index for_listing e
                          at_ i c l
                  ]
            ] in
              Gains hs bs c r.1 r.2
        go (some a) has q = same-Gains hs bs c o
        go none fresh q = elim (Bool-cases (data_of c).is_directory) [
          | inl dir ↦ rw dir (same-Gains hs bs c o)
          | inr file ↦ rw file (below q)
        ]
          where
            below :
                (q : Option (PluginEntry W))
                → let r : At W × Node × Ledger W = elim q [
                  | none ↦ (
                    deeper plugins reconstruct compare_natural thread_index for_listing at_,
                    c,
                    l,
                  )
                  | some e ↦
                      load_child plugins reconstruct compare_natural thread_index for_listing e at_
                        i c l
                ] in
                  Gains hs bs c r.1 r.2
            below none = same-Gains hs bs c o
            below (some e) = try_load-Gains plugins e at_.handle _ _ c fresh (world-Owes _ o)

    slots-as_directory :
        (e h : ℕ) (c : Node)
        → slots e h (as_directory plugins reconstruct compare_natural thread_index for_listing c)
          ≡ slots e h c
    unfolding slots node_slots
    slots-as_directory e h (node n kids) = refl

    or_directory-Gains :
        (a : Option (Archive W)) (hs : List Owned) (bs : List ℕ) (b c : Node) (l : Ledger W)
        → Gains hs bs b c l
        → Gains hs bs b
            (or_directory plugins reconstruct compare_natural thread_index for_listing a c)
            l
    or_directory-Gains none hs bs b c l g = record {
      added = g.added;
      owes = g.owes;
      counts = λ e h. slots-as_directory e h c ∙ g.counts e h;
    }
    or_directory-Gains (some a) hs bs b c l g = g

    pub add_child-Added :
        (e : PluginEntry W) (at_ : At W) (i : ℕ) (s : FilePath) {l : Ledger W} {hs : List Owned}
        {bs : List ℕ}
        → Owes l hs bs
        → let r =
            add_child plugins reconstruct compare_natural thread_index for_listing e at_ i s l in
          Added s hs bs r.0 r.2 r.3
    unfolding add_child
    add_child-Added e at_ i s {l} {hs} {bs} o =
        let (size, w) =
          e.driver.get_size at_.handle (reconstruct (i - at_.since) (i + 1)) l.world in
        let t =
          try_load_as_archive plugins e at_.handle (reconstruct (i - at_.since) (i + 1)) size
            (create_node s) (record l { world = w }) in
        elim (Bool-cases for_listing) [
          | inr reading ↦ rw reading (record {
            named = refl;
            empty = create_root_node-empty s;
            gains = same-Gains hs bs (create_root_node s) o;
          })
          | inl listing ↦ elim (Bool-cases (is_negative size)) [
            | inl absent ↦
                rw (listing, absent)
                  (record {
                    named = refl;
                    empty = create_root_node-empty s;
                    gains = same-Gains hs bs (create_root_node s) (world-Owes w o);
                  })
            | inr present ↦
                rw (listing, present)
                  (record {
                    named = refl;
                    empty = create_node-empty s;
                    gains = or_directory-Gains t.0 hs bs (create_node s) t.1 t.2 (
                        try_load-Gains plugins e at_.handle _ size (create_node s) refl
                          (world-Owes w o));
                  })
          ]
        ]
