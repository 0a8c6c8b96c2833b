-- ===== src/Handles.antt =====
-- The handle table of src/vfs/vfs.c: the types of src/vfs/vfs_internal.h that it stores, and the
-- job system that it asks (flowi-core's, a parameter).
pub mod Map
pub mod Jobs
pub mod Release
pub mod Snapshot
pub mod Alloc
pub mod Close
pub mod Chain
pub mod Valid
pub mod Reclaim
pub mod Hooks
pub mod Steps
pub mod Birth
pub mod Waiting
use flowi_vfs.Common.{ℕ, ◌+◌, ◌-◌, ◌%◌, ◌^◌, Bool, List, Option, ℤ}

-- A null pointer, an invalid handle and an absent job are all 0.
abbrev pub null : ℕ
null = 0

abbrev pub handle_invalid : ℕ
handle_invalid = 0

-- `VfsOperationType`
pub data OpType : Type 0 where
  mount mount_list file_open file_read file_write read_all : OpType

-- `FlVfsData`. Buffers are the addresses of the caller's or the allocator's memory.
pub record VfsData : Type 0 where
  pub buffer : ℕ
  pub size : ℤ
  pub success : Bool
  pub has_error_message : Bool

-- `FlVfsEntry` of a listing, whose names are byte strings.
pub record Entry : Type 0 where
  pub name : List ℕ
  pub size : ℤ
  pub attributes : ℕ
  pub is_directory : Bool
  pub is_archive : Bool

-- `FlVfsFileList`
pub record FileList : Type 0 where
  pub entries : List Entry
  pub count : ℕ
  pub mount_version : ℕ
  pub success : Bool
  pub has_error_message : Bool

-- What `result_data` points at, by the operation's type.
pub data Payload : Type 0 where
  of_data : VfsData → Payload
  of_list : FileList → Payload

-- `VfsHandleData`. A driver is named by its position in the registry.
pub record Handle : Type 0 where
  pub id : ℕ
  pub job_handle : ℕ
  pub last_job : ℕ
  pub pending_dispatches : ℕ
  pub closed : Bool
  pub mount : ℕ
  pub path : List ℕ
  pub filter_needle : List ℕ
  pub result_data : Option Payload
  pub result_arena : ℕ
  pub op_type : OpType
  pub snapshot_version : ℕ
  pub depth : ℕ
  pub error_status : ℕ
  pub callback : ℕ
  pub user_data : ℕ
  pub release : ℕ
  pub priority : ℕ
  pub plugin_entry : Option ℕ
  pub plugin_file_handle : ℕ
  pub open_flags : ℕ
  pub read_buffer : ℕ
  pub read_size : ℤ
  pub bytes_read : ℤ
  pub file_handle : ℕ
  pub write_data : ℕ
  pub write_size : ℤ
  pub write_data_owned : Bool
  pub callback_owns_data : Bool
  pub cancel_requested : Bool

-- The part of `VfsState` that `handle_lock` guards. The hash map is a finite map from ids.
pub record Table : Type 0 where
  pub next_handle_id : ℕ
  pub handle_map : List Handle
  pub closed_count : ℕ

abbrev pub u32_mod : ℕ
u32_mod = 2 ^ 32

-- `x++` and `x--` on a `u32`, and the atomic add and subtract of one.
abbrev pub inc32 : ℕ → ℕ
inc32 x = (x + 1) % u32_mod

abbrev pub dec32 : ℕ → ℕ
dec32 x = (x + u32_mod - 1) % u32_mod
