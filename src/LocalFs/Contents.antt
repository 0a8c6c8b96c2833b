-- ===== src/LocalFs/Contents.antt =====
-- What reads and writes of the local file driver (src/vfs/drivers/localfs.c) do to the files, when the
-- operating system reads and writes some bytes at a time.
use flowi_vfs.Common.{
  ℕ, zero, suc, ◌+◌, ◌-◌, ◌≤◌, ◌<◌, ◌≡◌, refl, sym, ap, ◌∙◌, Bool, true, false, List, [], ◌∷◌, ◌++◌,
  Option, some, ◌==◌, arith, length, take, drop, pos, inl, inr, Bool-cases, take-append-drop,
  drop-drop, drop_nil, take-drop, append_nil, append_assoc, length-drop,
}
use flowi_vfs.Drivers.{FilePath}
use flowi_vfs.Drivers.Results.{ReadResult}
use flowi_vfs.LocalFs.{LocalOs, LocalFsHandle, LocalWorld, open_read_fd, localfs_resolve}
use flowi_vfs.LocalFs.Reading.{
  WriteResult, in_front, beyond, local_read_loop, read_result, read_fd, local_read,
  local_write_loop, write_result, local_write,
}

-- Files on descriptors: what is left to read, what was written, and whether calls on the descriptor work.
pub record OsLaws (O : LocalOs) : Type 0 where
  pub rest : ℕ → O.State → List ℕ
  pub written : ℕ → O.State → List ℕ
  pub works : ℕ → O.State → Bool
  -- A read that works gives some of what is left, none at the end only.
  pub reads :
      (fd n : ℕ) (s : O.State)
      → works fd s ≡ true
      → (bytes : List ℕ) × ((O.file_read_from_handle_os fd n s).0 ≡ some bytes)
        × (length bytes ≤ n)
        × (bytes ≡ take (length bytes) (rest fd s))
        × (rest fd (O.file_read_from_handle_os fd n s).1 ≡ drop (length bytes) (rest fd s))
        × (works fd (O.file_read_from_handle_os fd n s).1 ≡ true)
  pub ends :
      (fd n : ℕ) (s : O.State)
      → works fd s ≡ true
      → 0 < n
      → (O.file_read_from_handle_os fd n s).0 ≡ some []
      → rest fd s ≡ []
  -- A write that works takes some of the bytes.
  pub writes :
      (fd : ℕ) (bytes : List ℕ) (s : O.State)
      → works fd s ≡ true
      → 0 < length bytes
      → (n : ℕ) × ((O.file_write_to_handle_os fd bytes s).0 ≡ pos (suc n))
        × (suc n ≤ length bytes)
        × (written fd (O.file_write_to_handle_os fd bytes s).1 ≡ written fd s ++ take (suc n) bytes)
        × (works fd (O.file_write_to_handle_os fd bytes s).1 ≡ true)

length_zero : (xs : List ℕ) → (length xs == 0) ≡ true → xs ≡ []
length_zero [] e = refl
length_zero (x ∷ xs) e = absurd (ground (arith, e))

module _ (O : LocalOs) (laws : OsLaws O) where
  -- A loop that filled its buffer, or reached the end.
  record Filled (fd size : ℕ) (s : O.State) (r : Option (List ℕ) × O.State) : Type 0 where
    bytes : r.0 ≡ some (take size (laws.rest fd s))
    left : laws.rest fd r.1 ≡ drop size (laws.rest fd s)
    working : laws.works fd r.1 ≡ true

  local_read_loop-Filled :
      (fuel fd size : ℕ) (s : O.State)
      → size < fuel
      → laws.works fd s ≡ true
      → Filled fd size s (local_read_loop O fuel fd size s)
  unfolding local_read_loop
  local_read_loop-Filled zero fd size s lt ok = absurd (omega arith)
  local_read_loop-Filled (suc fuel) fd zero s lt ok =
      let (bytes, e, few, given, left, ok') = laws.reads fd 0 s ok in
      rw (local_read_loop, e) (record { bytes = refl; left = refl; working = ok })
  local_read_loop-Filled (suc fuel) fd (suc k) s lt ok =
      let (bytes, e, few, given, left, ok') = laws.reads fd (suc k) s ok in
      let s' = (O.file_read_from_handle_os fd (suc k) s).1 in
      let positive : (suc k == 0) ≡ false = ground arith in
      elim (Bool-cases (length bytes == 0)) [
        | inl ended ↦
            let none_left =
              laws.ends fd (suc k) s ok (omega arith)
                (e ∙ ap (λ x. some x) (length_zero bytes ended)) in
            rw (local_read_loop, e, positive, ended)
              (record {
                bytes = ap (λ x. some (take (suc k) x)) (sym none_left);
                left =
                    left
                    ∙ ap (λ x. drop (length bytes) x) none_left
                    ∙ drop_nil (length bytes)
                    ∙ ap (λ x. drop (suc k) x) (sym none_left);
                working = ok';
              })
        | inr more ↦
            let size : ℕ = suc k - length bytes in
            let ih = local_read_loop-Filled fuel fd size s' (ground arith) ok' in
            let sum : length bytes + size ≡ suc k = omega arith in
            let whole = laws.rest fd s in
            let all : bytes ++ take size (laws.rest fd s') ≡ take (suc k) whole =
              cc (given, left, sum, take-append-drop (length bytes) size whole) in
            rw (local_read_loop, e, positive, more)
              (record {
                bytes = ap (λ o. in_front bytes o) ih.bytes ∙ ap (λ x. some x) all;
                left = cc (ih.left, left, sum, drop-drop (length bytes) size whole);
                working = ih.working;
              })
      ]

  -- What a read with no path gives on an open file of its own.
  local_read-next :
      (h : LocalFsHandle) (fd n : ℕ) (w : LocalWorld O)
      → h.is_dir ≡ false
      → h.fd ≡ pos fd
      → laws.works fd w.os ≡ true
      → let r = local_read O h [] (pos n) w in
        (r.0 ≡ read_result O (some (take n (laws.rest fd w.os))))
        × (laws.rest fd r.1.os ≡ drop n (laws.rest fd w.os))
        × (laws.works fd r.1.os ≡ true)
  unfolding local_read read_fd
  local_read-next h fd n w file e ok =
      let f = local_read_loop-Filled (n + 1) fd n w.os (omega arith) ok in
      rw (file, e) (ap (λ o. read_result O o) f.bytes, f.left, f.working)

  -- On an open file of the local file driver whose reads work, each giving some of what is left
  -- and none at the end only: two reads with no path, of m and of n bytes, deliver together what
  -- one read of m + n bytes delivers.
  pub local_read-append :
      (h : LocalFsHandle) (fd m n : ℕ) (w : LocalWorld O)
      → h.is_dir ≡ false
      → h.fd ≡ pos fd
      → laws.works fd w.os ≡ true
      → let first = local_read O h [] (pos m) w in
        let second = local_read O h [] (pos n) first.1 in
        first.0.buffer ++ second.0.buffer ≡ (local_read O h [] (pos (m + n)) w).0.buffer
  local_read-append h fd m n w file e ok =
      let f = local_read-next h fd m w file e ok in
      let first = local_read O h [] (pos m) w in
      let s = local_read-next h fd n first.1 file e f.2 in
      let o = local_read-next h fd (m + n) w file e ok in
      let first_buffer = ap (λ (r : ReadResult). r.buffer) f.0 in
      let second_buffer = ap (λ (r : ReadResult). r.buffer) s.0 in
      let one_buffer = ap (λ (r : ReadResult). r.buffer) o.0 in
      cc (first_buffer, second_buffer, one_buffer, f.1, take-append-drop m n (laws.rest fd w.os))

  -- A read of a named file through the local file driver, when the descriptor opens and its reads
  -- work, each giving some of what is left and none at the end only: it succeeds with as many of
  -- the file's first bytes as were asked for, or all, however short the single reads are.
  pub local_read-named :
      (h : LocalFsHandle) (path : FilePath) (fd n : ℕ) (w w' : LocalWorld O)
      → (length path == 0) ≡ false
      → open_read_fd O (localfs_resolve O (some h) path) w ≡ (pos fd, w')
      → laws.works fd w'.os ≡ true
      → (local_read O h path (pos n) w).0 ≡ read_result O (some (take n (laws.rest fd w'.os)))
  unfolding local_read read_fd
  local_read-named h path fd n w w' named opened ok =
      let f = local_read_loop-Filled (n + 1) fd n w'.os (omega arith) ok in
      rw (named, opened) (ap (λ o. read_result O o) f.bytes)

  -- A loop that wrote all its bytes.
  record Flushed (fd : ℕ) (bytes : List ℕ) (s : O.State) (r : Option ℕ × O.State) : Type 0 where
    count_of : r.0 ≡ some (length bytes)
    appended : laws.written fd r.1 ≡ laws.written fd s ++ bytes

  local_write_loop-Flushed :
      (fuel fd : ℕ) (bytes : List ℕ) (s : O.State)
      → length bytes < fuel
      → laws.works fd s ≡ true
      → Flushed fd bytes s (local_write_loop O fuel fd bytes s)
  unfolding local_write_loop
  local_write_loop-Flushed zero fd bytes s lt ok = absurd (omega arith)
  local_write_loop-Flushed (suc fuel) fd [] s lt ok = record {
    count_of = refl;
    appended = sym (append_nil (laws.written fd s));
  }
  local_write_loop-Flushed (suc fuel) fd (b ∷ bytes) s lt ok =
      let all : List ℕ = b ∷ bytes in
      let (n, e, few, grown, ok') = laws.writes fd all s ok (omega arith) in
      let s' = (O.file_write_to_handle_os fd all s).1 in
      let left : List ℕ = drop (suc n) all in
      let shorter = length-drop (suc n) all in
      let ih = local_write_loop-Flushed fuel fd left s' (omega (arith, shorter)) ok' in
      let positive : (suc n == 0) ≡ false = ground arith in
      let total : suc n + length left ≡ length all = omega (arith, shorter) in
      rw (local_write_loop, e, positive)
        (record {
          count_of = ap (λ o. beyond (suc n) o) ih.count_of ∙ ap (λ x. some x) total;
          appended =
              ih.appended
              ∙ ap (λ x. x ++ left) grown
              ∙ append_assoc (laws.written fd s) (take (suc n) all) left
              ∙ ap (λ x. laws.written fd s ++ x) (take-drop (suc n) all);
        })

  -- A write of a whole buffer is one append to the file.
  pub record Appends (fd : ℕ) (bytes : List ℕ) (w : LocalWorld O) (r : WriteResult × LocalWorld O)
      : Type 0 where
    pub answer : r.0 ≡ write_result O (some (length bytes))
    pub appended : laws.written fd r.1.os ≡ laws.written fd w.os ++ bytes

  -- A write through a handle of the local file driver that was opened for writing, when writes on
  -- its descriptor work, each taking some of the bytes: it answers with the size of the buffer and
  -- appends the whole buffer in order, however short the single writes are.
  pub local_write-Appends :
      (h : LocalFsHandle) (fd : ℕ) (bytes : List ℕ) (w : LocalWorld O)
      → h.is_dir ≡ false
      → h.fd ≡ pos fd
      → h.is_write ≡ true
      → laws.works fd w.os ≡ true
      → Appends fd bytes w (local_write O h false bytes (pos (length bytes)) w)
  unfolding local_write
  local_write-Appends h fd bytes w file e writable ok =
      let f = local_write_loop-Flushed (length bytes + 1) fd bytes w.os (omega arith) ok in
      rw (file, e, writable)
        (record { answer = ap (λ o. write_result O o) f.count_of; appended = f.appended })
