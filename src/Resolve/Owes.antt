-- ===== src/Resolve/Owes.antt =====
-- What the VFS holds between two driver calls, as an exact list: how each ledger operation changes
-- it (src/vfs/vfs_tree.c closes, frees and hands over by these).
use flowi_vfs.Common.{
  ℕ, suc, true, false, ◌≡◌, ◌≢◌, List, ◌∷◌, ◌==◌, if◌then◌else◌, arith, ap, All, Bool-cases, inl,
  inr,
}
use flowi_vfs.Drivers.{PluginEntry, OpenResult}
use flowi_vfs.Drivers.Ledger.{
  Ledger, Owned, holds, drop_owned, holds_buffer, drop_buffer, opened, close_handle, allocate, free,
  hand_over,
}

-- Exactly these handles and buffers are owed, and nothing went wrong.
pub record Owes {W : Type 0} (l : Ledger W) (hs : List Owned) (bs : List ℕ) : Type 0 where
  pub handles : l.handles ≡ hs
  pub buffers : l.buffers ≡ bs
  pub sound : l.fault ≡ false
  -- No null handle is owed.
  pub live : All (λ x. x.1 ≢ 0) hs

drop-head : (x : Owned) (hs : List Owned) → drop_owned x (x ∷ hs) ≡ hs
unfolding drop_owned
drop-head x hs = ground arith

drop-second : (m x : Owned) (hs : List Owned) → drop_owned x (m ∷ x ∷ hs) ≡ m ∷ hs
unfolding drop_owned
drop-second m x hs = ground arith

holds-head : (x : Owned) (hs : List Owned) → holds x (x ∷ hs) ≡ true
unfolding holds
holds-head x hs = ground arith

holds-second : (m x : Owned) (hs : List Owned) → holds x (m ∷ x ∷ hs) ≡ true
unfolding holds
holds-second m x hs = ground arith

module _ {W : Type 0} where
  pub close_handle-Owes :
      (e : PluginEntry W) (h : ℕ) {l : Ledger W} {hs : List Owned} {bs : List ℕ}
      → Owes l ((e.address, h) ∷ hs) bs
      → Owes (close_handle e h l) hs bs
  unfolding close_handle
  close_handle-Owes e h {l} {hs} {bs} o = record {
    handles = ground (arith, o.handles, drop-head (e.address, h) hs);
    buffers = o.buffers;
    sound = ground (arith, o.handles, o.sound, holds-head (e.address, h) hs);
    live = o.live.1;
  }

  -- The handle under the newest one.
  pub close_handle-Owes_second :
      (e : PluginEntry W) (h : ℕ) (m : Owned) {l : Ledger W} {hs : List Owned} {bs : List ℕ}
      → Owes l (m ∷ (e.address, h) ∷ hs) bs
      → Owes (close_handle e h l) (m ∷ hs) bs
  unfolding close_handle
  close_handle-Owes_second e h m {l} {hs} {bs} o = record {
    handles = ground (arith, o.handles, drop-second m (e.address, h) hs);
    buffers = o.buffers;
    sound = ground (arith, o.handles, o.sound, holds-second m (e.address, h) hs);
    live = (o.live.0, o.live.1.1);
  }

  pub free-Owes :
      (b : ℕ) {l : Ledger W} {hs : List Owned} {bs : List ℕ}
      → b ≢ 0
      → Owes l hs (b ∷ bs)
      → Owes (free b l) hs bs
  unfolding free drop_buffer holds_buffer
  free-Owes b ne o = record {
    handles = ground (arith, o.handles);
    buffers = ground (arith, o.buffers);
    sound = ground (arith, o.sound, o.buffers);
    live = o.live;
  }

  pub hand_over-Owes :
      (b : ℕ) {l : Ledger W} {hs : List Owned} {bs : List ℕ}
      → Owes l hs (b ∷ bs)
      → Owes (hand_over b l) hs bs
  unfolding hand_over drop_buffer holds_buffer
  hand_over-Owes b o = record {
    handles = o.handles;
    buffers = ground (arith, o.buffers);
    sound = ground (arith, o.sound, o.buffers);
    live = o.live;
  }

  pub allocate-Owes :
      {l : Ledger W} {hs : List Owned} {bs : List ℕ}
      → Owes l hs bs
      → Owes (allocate l).1 hs ((allocate l).0 ∷ bs) × ((allocate l).0 ≢ 0)
  unfolding allocate
  allocate-Owes {l} o = (
    record {
      handles = o.handles;
      buffers = ap (λ bs. suc l.next_buffer ∷ bs) o.buffers;
      sound = o.sound;
      live = o.live;
    },
    λ e. omega arith,
  )

  -- A driver call that changes the world only.
  pub world-Owes :
      (w : W) {l : Ledger W} {hs : List Owned} {bs : List ℕ}
      → Owes l hs bs
      → Owes (record l { world = w }) hs bs
  world-Owes w o = record {
    handles = o.handles;
    buffers = o.buffers;
    sound = o.sound;
    live = o.live;
  }

  pub opened-Owes :
      (address : ℕ) (r : OpenResult × W) {l : Ledger W} {hs : List Owned} {bs : List ℕ}
      → Owes l hs bs
      → Owes (opened address r l).1 (if r.0.handle == 0 then hs else (address, r.0.handle) ∷ hs) bs
  unfolding opened
  opened-Owes address (r, w) {l} {hs} {bs} o = elim (Bool-cases (r.handle == 0)) [
    | inl none_ ↦
        rw none_
          (record { handles = o.handles; buffers = o.buffers; sound = o.sound; live = o.live })
    | inr some_ ↦ rw some_ (record {
      handles = ap (λ hs. (address, r.handle) ∷ hs) o.handles;
      buffers = o.buffers;
      sound = o.sound;
      live = (λ e. ground (arith, e), o.live);
    })
  ]
