-- ===== src/Drivers/Ledger.antt =====
-- What the VFS owes back while it works with drivers: the driver handles that it holds open and the
-- buffers that it has allocated. A close of a handle that is not open, or a free of a buffer that is
-- not the VFS's own, is a fault.
use flowi_vfs.Common.{ℕ, suc, Bool, false, not, ◌&&◌, ◌||◌, List, [], ◌∷◌, ◌==◌, if◌then◌else◌}
use flowi_vfs.Drivers.{PluginEntry, OpenResult}

-- A driver handle with the driver entry that opened it.
abbrev pub Owned : Type 0
Owned = ℕ × ℕ

abbrev pub same_owned : Owned → Owned → Bool
same_owned (d, h) (e, g) = (d == e) && (h == g)

unfoldable pub holds : Owned → List Owned → Bool
holds x [] = false
holds x (y ∷ ys) = same_owned y x || holds x ys

unfoldable pub drop_owned : Owned → List Owned → List Owned
drop_owned x [] = []
drop_owned x (y ∷ ys) = if same_owned y x then ys else y ∷ drop_owned x ys

unfoldable pub holds_buffer : ℕ → List ℕ → Bool
holds_buffer b [] = false
holds_buffer b (c ∷ cs) = (c == b) || holds_buffer b cs

unfoldable pub drop_buffer : ℕ → List ℕ → List ℕ
drop_buffer b [] = []
drop_buffer b (c ∷ cs) = if c == b then cs else c ∷ drop_buffer b cs

pub record Ledger (W : Type 0) : Type 0 where
  pub world : W
  pub handles : List Owned
  pub buffers : List ℕ
  pub next_buffer : ℕ
  pub fault : Bool

module _ {W : Type 0} where
  -- A driver call that opens: a handle that is not null is the VFS's to close.
  unfoldable pub opened : ℕ → OpenResult × W → Ledger W → OpenResult × Ledger W
  opened address (r, w) l = (
    r,
    record l {
      world = w;
      handles = if r.handle == 0 then l.handles else (address, r.handle) ∷ l.handles;
    },
  )

  -- `plugin->close(instance, handle)`, and `close_plugin_handle` of src/vfs/vfs_tree.c.
  unfoldable pub close_handle : PluginEntry W → ℕ → Ledger W → Ledger W
  close_handle e h l = record l {
    world = e.driver.close h l.world;
    handles = drop_owned (e.address, h) l.handles;
    fault = l.fault || not (holds (e.address, h) l.handles);
  }

  -- `mi_malloc`, which gives a fresh address.
  unfoldable pub allocate : Ledger W → ℕ × Ledger W
  allocate l = (
    suc l.next_buffer,
    record l { next_buffer = suc l.next_buffer; buffers = suc l.next_buffer ∷ l.buffers },
  )

  -- `mi_free`; null is ignored.
  unfoldable pub free : ℕ → Ledger W → Ledger W
  free b l = if b == 0 then l else record l {
    buffers = drop_buffer b l.buffers;
    fault = l.fault || not (holds_buffer b l.buffers);
  }

  -- A driver takes the buffer over.
  unfoldable pub hand_over : ℕ → Ledger W → Ledger W
  hand_over b l = record l {
    buffers = drop_buffer b l.buffers;
    fault = l.fault || not (holds_buffer b l.buffers);
  }
