-- ===== src/Tests/StepTests.antt =====
-- Interleavings of src/vfs/vfs.c on one table, over a simulated job system.
use flowi_vfs.Common.{◌+◌, ◌-◌, true, false, ◌≡◌, refl, [], ◌∷◌, ◌++◌, List, some, arith}
use flowi_vfs.Handles.{Handle, OpType}
use flowi_vfs.Handles.Map.{find, modify, lookup_handle, lookup_open_handle}
use flowi_vfs.Handles.Alloc.{fresh_handle, allocate_handle, open_window}
use flowi_vfs.Handles.Chain.{update_handle}
use flowi_vfs.Handles.Close.{close_section, close_found, defer_close, mark_closed}
use flowi_vfs.Handles.Jobs.{is_idle}
use flowi_vfs.Handles.Hooks.{hook_runs, hooked}
use flowi_vfs.Handles.Release.{run_all}
use flowi_vfs.Handles.Steps.{
  Run, set_window, occurrences, Step, allocate, open_on, close_last, refresh, free_victims, Reach,
  here, next,
}
use flowi_vfs.Handles.Steps.Windows.{Guarded}
use flowi_vfs.Handles.Steps.Guard.{Step-Guarded, window_keeps}
use flowi_vfs.Handles.Steps.Once.{Accounted, Reach-Accounted}
use flowi_vfs.Teardown.{Victim, refresh_mount_victims, free_mount_victims}
use flowi_vfs.Tests.HandleTests.{sim, busy_main, scheduled, opened, table_of-IsValid}
use flowi_vfs.Tests.MountTests.{listing_params}

-- The table of one handle, 3, whose job is not done.
abbrev start : Run
start = record {
  table = opened;
  windows = λ k. 0;
  unpublished = λ k. 0;
  closing = λ k. 0;
  effects = [];
  born = scheduled 3 OpType.file_open ∷ [];
}

start-Guarded : Guarded start
unfolding find
start-Guarded = record {
  valid = table_of-IsValid OpType.file_open;
  small = λ k. omega arith;
  counted = λ k. ground arith;
  quiet = λ k low. refl;
  reserved = λ k low. absurd (omega arith);
}

-- A thread allocates the handle of a listing.
abbrev allocated : Run
allocated = record start {
  table = (allocate_handle opened listing_params).1;
  unpublished = set_window 8 (0 + 1) (λ k. 0);
}

allocates : Step (λ d. true) sim start allocated
unfolding allocate_handle fresh_handle
allocates =
    allocate listing_params (fresh_handle 8 listing_params) refl (omega arith) (omega arith)
      (λ reused. refl)

Step-Guarded_example : Guarded allocated
Step-Guarded_example = Step-Guarded (λ d. true) sim allocates start-Guarded

-- A chain that waits for the open has begun.
abbrev begun : Run
begun = record start {
  table = update_handle 3 open_window opened;
  windows = set_window 3 (0 + 1) (λ k. 0);
}

-- Meanwhile another thread closes the handle.
abbrev during : Run
during = record begun {
  table = (close_section (λ d. true) sim busy_main false begun.table 3).0;
  effects = [] ++ (close_section (λ d. true) sim busy_main false begun.table 3).1;
}

-- A third thread closes a mount whose one handle, 9, is gone.
abbrev gone : List Victim
gone = record { id = 9; jobs = [] } ∷ []

abbrev refreshed : Run
refreshed = record during { closing = λ k. 0 + occurrences k gone }

abbrev torn_down : Run
torn_down = record refreshed {
  table = (free_mount_victims (λ d. true) gone during.table).0;
  closing = λ k. 0 + occurrences k gone - occurrences k gone;
  effects =
      during.effects
      ++ ((free_mount_victims (λ d. true) gone during.table).1
          ++ run_all (free_mount_victims (λ d. true) gone during.table).2);
}

begin : Step (λ d. true) sim start begun
begin =
    open_on 3 (scheduled 3 OpType.file_open) (unfold lookup_open_handle lookup_handle find in refl)
      (omega arith) refl

nothing_left : (refresh_mount_victims sim during.table busy_main gone).0 ≡ false
unfolding refresh_mount_victims lookup_handle find close_section lookup_open_handle update_handle
    modify open_window close_found is_idle defer_close mark_closed
nothing_left = refl

history : Reach (λ d. true) sim start torn_down
history =
    next
      (next (next (next here begin) (close_last busy_main false 3))
        (refresh busy_main gone nothing_left))
      (free_victims gone (λ k. omega arith))

window_keeps_example : (h : Handle) × (lookup_handle torn_down.table 3 ≡ some h)
window_keeps_example = window_keeps (λ d. true) sim 3 start-Guarded history (omega arith)

Reach-Accounted_example : Accounted 77 5 torn_down
Reach-Accounted_example =
    Reach-Accounted 77 5 (λ d. true) sim (λ e. cc) history start-Guarded
      (unfold hook_runs hooked in refl)
