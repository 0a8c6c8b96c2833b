-- ===== src/ReadAll.antt =====
-- The monolithic read of src/vfs/vfs_ops.c (`vfs_op_read_all`): open, read the whole file, close.
-- The driver's file is a parameter over a world `W`; a read returns the bytes that it put into the
-- buffer, so its `bytes_read` is their number, or says that it failed.
pub mod Stream
pub mod Fetches
pub mod Balance
use flowi_vfs.Common.{
  ℕ, zero, suc, ◌-◌, ◌*◌, Bool, true, false, not, ◌&&◌, List, [], ◌∷◌, ◌++◌, Option, none, some,
  ◌==◌, ltb, if◌then◌else◌, ℤ, pos, negsuc, length,
}
use flowi_vfs.Status.{state_success, error_read, error_canceled}

pub data Chunk : Type 0 where
  read_failed : Chunk
  bytes : List ℕ → Chunk

-- `FlVfsData` as a callback returns it: whether it is the buffer that it was given.
pub record CallbackResult : Type 0 where
  pub same_data : Bool
  pub data_ : List ℕ
  pub size : ℕ
  pub success : Bool

-- The open file, the cancellation flag of the handle, the allocator (whether it serves a request of
-- some size) and the caller's callback.
pub record Reader (W : Type 0) : Type 0 where
  pub get_size : W → ℤ × W
  pub read : ℕ → W → Chunk × W
  pub cancel_requested : W → Bool
  pub malloc : ℕ → W → Bool
  pub callback : Option (List ℕ → W → CallbackResult × W)

-- What the read does with its resources, in order.
pub data Event : Type 0 where
  malloc_buffer free_buffer close_file notify_failure call_callback : Event

-- How reading the bytes ends, before the result is published.
pub data Fetched : Type 0 where
  fetched : List ℕ → Fetched
  get_size_failed too_large out_of_memory canceled failed : Fetched

-- The result and the status that the handle ends with.
pub record Outcome : Type 0 where
  pub status : ℕ
  pub data_ : Option (List ℕ)
  pub size : ℕ
  pub success : Bool
  pub callback_owns_data : Bool

-- `capacity` of the first chunk.
abbrev pub first_capacity : ℕ
first_capacity = 64 * 1024

-- `capacity *= 2`, at most the cap.
unfoldable pub grow : ℕ → ℕ → ℕ
grow max_read capacity = if ltb max_read (capacity * 2) then max_read else capacity * 2

-- Whether a buffer is held when the bytes are in or the read has failed.
pub record Fetch (W : Type 0) : Type 0 where
  pub ended : Fetched
  pub holds_buffer : Bool
  pub events : List Event
  pub world : W

module _ {W : Type 0} (r : Reader W) (max_read : ℕ) where
  -- The probe behind a loop that stopped at the cap.
  unfoldable pub probe_end : List ℕ → W → Fetched × W
  probe_end acc w =
      let (c, w') = r.read 1 w in
      elim c [
        | read_failed ↦ (failed, w')
        | bytes xs ↦ (if ltb 0 (length xs) then too_large else fetched acc, w')
      ]

  -- One read of the loop and what comes after it.
  unfoldable pub take_chunk :
      (ℕ → List ℕ → W → Option (Fetched × W)) → ℕ → List ℕ → Chunk × W → Option (Fetched × W)
  take_chunk loop capacity acc (read_failed, w) = some (failed, w)
  take_chunk loop capacity acc (bytes [], w) = some (fetched acc, w)
  take_chunk loop capacity acc (bytes (x ∷ xs), w) = loop capacity (acc ++ x ∷ xs) w

  -- The loop for a size that is 0 or unknown: `total_read` is the length of `acc`. None if the fuel
  -- runs out.
  unfoldable pub stream : ℕ → ℕ → List ℕ → W → Option (Fetched × W)
  stream zero capacity acc w = none
  stream (suc fuel) capacity acc w =
      let full = not (ltb (length acc) capacity) in
      let capacity' = if full then grow max_read capacity else capacity in
      let chunk : Option (Fetched × W) =
        take_chunk (stream fuel) capacity' acc (r.read (capacity' - length acc) w) in
      if not (ltb (length acc) max_read)
      then some (probe_end acc w)
      else if r.cancel_requested w
      then some (canceled, w)
      else if full && not (r.malloc capacity' w)
      then some (out_of_memory, w)
      else chunk

  -- A known size: one read.
  unfoldable pub read_known : ℕ → W → Fetched × W
  read_known size w =
      let (c, w') = r.read size w in
      elim c [ read_failed ↦ (failed, w') | bytes xs ↦ (fetched xs, w') ]

  fetch_streamed : Option (Fetched × W) → Option (Fetch W)
  fetch_streamed none = none
  fetch_streamed (some (f, w)) = some (record {
    ended = f;
    holds_buffer = true;
    events = malloc_buffer ∷ free_buffer ∷ malloc_buffer ∷ [];
    world = w;
  })

  fetch_refused : Fetched → List Event → W → Option (Fetch W)
  fetch_refused f events w =
      some (record { ended = f; holds_buffer = false; events = events; world = w })

  -- From the size to the bytes.
  unfoldable pub fetch_sized : ℤ → W → Option (Fetch W)
  unfolding fetch_streamed fetch_refused
  fetch_sized (negsuc n) w = fetch_refused get_size_failed [] w
  fetch_sized (pos size) w =
      if ltb max_read size
      then fetch_refused too_large [] w
      else if not (r.malloc (if ltb 0 size then size else 1) w)
      then fetch_refused out_of_memory [] w
      else if r.cancel_requested w
      then some
          (record { ended = canceled; holds_buffer = true; events = malloc_buffer ∷ []; world = w })
      else if ltb 0 size
      then some (record {
        ended = (read_known size w).0;
        holds_buffer = true;
        events = malloc_buffer ∷ [];
        world = (read_known size w).1;
      })
      else if not (r.malloc first_capacity w)
      then fetch_refused out_of_memory (malloc_buffer ∷ free_buffer ∷ []) w
      else fetch_streamed (stream (suc max_read) first_capacity [] w)

  unfoldable pub fetch : W → Option (Fetch W)
  fetch w = let (size, w') = r.get_size w in fetch_sized size w'

  -- `read_all_notify_failure`
  unfoldable pub notify : List Event
  notify = elim r.callback [ none ↦ [] | some f ↦ notify_failure ∷ [] ]

  -- `read_all_set_error`, with the status that is published last.
  unfoldable pub set_error : ℕ → Bool → List Event → W → Outcome × List Event × W
  set_error status holds events w = (
    record { status = status; data_ = none; size = 0; success = false; callback_owns_data = false },
    events ++ ((if holds then free_buffer ∷ [] else []) ++ close_file ∷ notify),
    w,
  )

  publish_callback :
      Option (List ℕ → W → CallbackResult × W) → List ℕ → List Event → W → Outcome × List Event × W
  publish_callback none xs events w = (
    record {
      status = state_success;
      data_ = some xs;
      size = length xs;
      success = true;
      callback_owns_data = false;
    },
    events ++ close_file ∷ [],
    w,
  )
  publish_callback (some f) xs events w =
      let (c, w') = f xs w in
      (
        record {
          status = state_success;
          data_ = some (if c.same_data then xs else c.data_);
          size = c.size;
          success = c.success;
          callback_owns_data = not c.same_data;
        },
        events ++ close_file ∷ call_callback ∷ (if c.same_data then [] else free_buffer ∷ []),
        w',
      )

  finish_read : Bool → List Event → W → Fetched → Outcome × List Event × W
  unfolding publish_callback
  finish_read holds events w (fetched xs) = publish_callback r.callback xs events w
  finish_read holds events w canceled = set_error error_canceled holds events w
  finish_read holds events w get_size_failed = set_error error_read holds events w
  finish_read holds events w too_large = set_error error_read holds events w
  finish_read holds events w out_of_memory = set_error error_read holds events w
  finish_read holds events w failed = set_error error_read holds events w

  finish_fetch : Option (Fetch W) → Option (Outcome × List Event × W)
  unfolding finish_read
  finish_fetch none = none
  finish_fetch (some f) = some (finish_read f.holds_buffer f.events f.world f.ended)

  -- `vfs_op_read_all` behind `vfs_op_file_open`, which left `open_status`.
  unfoldable pub read_all : ℕ → W → Option (Outcome × List Event × W)
  unfolding finish_fetch
  read_all open_status w =
      if not (open_status == state_success)
      then some (
        record {
          status = open_status;
          data_ = none;
          size = 0;
          success = false;
          callback_owns_data = false;
        },
        notify,
        w,
      )
      else finish_fetch (fetch w)

-- `VFS_MAX_READ_SIZE`
abbrev pub max_read_size : ℕ
max_read_size = 512 * 1024 * 1024
