-- ===== src/ReadAll/Balance.antt =====
-- Every path of `vfs_op_read_all` (src/vfs/vfs_ops.c), whatever the driver answers: it ends, closes the
-- file once, frees each buffer that it does not hand out, and calls the caller back once.
use flowi_vfs.Common.{
  ℕ, ◌+◌, ◌≡◌, refl, List, [], ◌∷◌, ◌++◌, Option, none, some, if◌then◌else◌, arith,
}
use flowi_vfs.Status.{state_success, error_read, error_canceled}
use flowi_vfs.ReadAll.{
  Reader, CallbackResult, Event, free_buffer, close_file, call_callback, Fetched, fetched,
  get_size_failed, too_large, out_of_memory, canceled, failed, Outcome, Fetch, fetch, notify,
  set_error, publish_callback, finish_read, finish_fetch, read_all,
}
use flowi_vfs.ReadAll.Fetches.{
  times, times-append, mallocs, frees, closes, calls, Held, FetchEnds, fetch_sized-Ends,
}

module _ {W : Type 0} (r : Reader W) (max_read : ℕ) where
  -- The result's buffer, if the result still owns the one that was read into.
  abbrev pub kept : Outcome → ℕ
  kept o = elim o.data_ [ none ↦ 0 | some xs ↦ if o.callback_owns_data then 0 else 1 ]

  abbrev pub has_callback : ℕ
  has_callback = elim r.callback [ none ↦ 0 | some f ↦ 1 ]

  -- A read that ends, with its resources settled.
  pub record Settled (o : Option (Outcome × List Event × W)) : Type 0 where
    pub outcome : Outcome
    pub events : List Event
    pub world : W
    pub ran : o ≡ some (outcome, events, world)
    pub closed_once : times closes events ≡ 1
    pub buffers : times mallocs events ≡ times frees events + kept outcome
    pub called_once : times calls events ≡ has_callback

  notify-calls :
      (times calls (notify r max_read) ≡ has_callback)
      × (times closes (notify r max_read) ≡ 0)
      × (times mallocs (notify r max_read) ≡ 0)
      × (times frees (notify r max_read) ≡ 0)
  unfolding notify times
  notify-calls = ground arith

  set_error-Settled :
      (status : ℕ) (f : Fetch W)
      → Held f
      → Settled (some (set_error r max_read status f.holds_buffer f.events f.world))
  unfolding set_error times
  set_error-Settled status f h = record {
    outcome = (set_error r max_read status f.holds_buffer f.events f.world).0;
    events = f.events ++ tail;
    world = f.world;
    ran = refl;
    closed_once = ground (arith, h.unclosed, notify-calls, times-append closes f.events tail);
    buffers = ground (
      arith,
      h.balance,
      notify-calls,
      times-append mallocs f.events tail,
      times-append frees f.events tail,
    );
    called_once = ground (arith, h.uncalled, notify-calls, times-append calls f.events tail);
  }
    where
      tail : List Event
      tail = (if f.holds_buffer then free_buffer ∷ [] else []) ++ close_file ∷ notify r max_read

  publish_callback-Settled :
      (cb : Option (List ℕ → W → CallbackResult × W)) (xs : List ℕ) (f : Fetch W)
      → r.callback ≡ cb
      → Held f
      → f.ended ≡ fetched xs
      → Settled (some (publish_callback r max_read cb xs f.events f.world))
  unfolding publish_callback times
  publish_callback-Settled none xs f c h e = record {
    outcome = (publish_callback r max_read none xs f.events f.world).0;
    events = f.events ++ close_file ∷ [];
    world = f.world;
    ran = refl;
    closed_once = ground (arith, h.unclosed, times-append closes f.events (close_file ∷ []));
    buffers = ground (
      arith,
      h.balance,
      h.owns xs e,
      times-append mallocs f.events (close_file ∷ []),
      times-append frees f.events (close_file ∷ []),
    );
    called_once = ground (arith, c, h.uncalled, times-append calls f.events (close_file ∷ []));
  }
  publish_callback-Settled (some g) xs f c h e = record {
    outcome = (publish_callback r max_read (some g) xs f.events f.world).0;
    events = f.events ++ tail;
    world = (g xs f.world).1;
    ran = refl;
    closed_once = ground (arith, h.unclosed, times-append closes f.events tail);
    buffers = ground (
      arith,
      h.balance,
      h.owns xs e,
      times-append mallocs f.events tail,
      times-append frees f.events tail,
    );
    called_once = ground (arith, c, h.uncalled, times-append calls f.events tail);
  }
    where
      tail : List Event
      tail =
          close_file ∷ call_callback ∷ (if (g xs f.world).0.same_data then [] else free_buffer ∷ [])

  finish_read-Settled :
      (e : Fetched) (f : Fetch W)
      → Held f
      → f.ended ≡ e
      → Settled (some (finish_read r max_read f.holds_buffer f.events f.world e))
  unfolding finish_read
  finish_read-Settled (fetched xs) f h e = publish_callback-Settled r.callback xs f refl h e
  finish_read-Settled canceled f h e = set_error-Settled error_canceled f h
  finish_read-Settled get_size_failed f h e = set_error-Settled error_read f h
  finish_read-Settled too_large f h e = set_error-Settled error_read f h
  finish_read-Settled out_of_memory f h e = set_error-Settled error_read f h
  finish_read-Settled failed f h e = set_error-Settled error_read f h

  finish_fetch-Settled : (o : Option (Fetch W)) → FetchEnds o → Settled (finish_fetch r max_read o)
  unfolding finish_fetch FetchEnds
  finish_fetch-Settled o (f, e, h) = rw e (finish_read-Settled f.ended f h refl)

  -- A monolithic read whose open succeeded ends, whatever the driver, the allocator, the
  -- cancellation and the callback answer. The file is closed exactly once, every buffer is freed
  -- except the one that the result keeps, and the callback, if there is one, is called exactly
  -- once.
  pub read_all-Settled : (w : W) → Settled (read_all r max_read state_success w)
  unfolding read_all fetch
  read_all-Settled w =
      finish_fetch-Settled _ (fetch_sized-Ends r max_read (r.get_size w).0 (r.get_size w).1)
