-- ===== src/Tests/ReadTests.antt =====
-- The monolithic read of src/vfs/vfs_ops.c on a file of three bytes.
use flowi_vfs.Common.{ℕ, refl, true, false, List, [], ◌∷◌, none, ◌==◌, if◌then◌else◌, arith, pos}
use flowi_vfs.Status.{state_success}
use flowi_vfs.ReadAll.{Reader, bytes, stream, read_all}
use flowi_vfs.ReadAll.Stream.{Streams, Yields, whole_or_error, stream-whole_file}
use flowi_vfs.ReadAll.Balance.{Settled, read_all-Settled}

-- The world is what is left of the file; a read delivers one byte.
abbrev reader : Reader (List ℕ)
reader = record {
  get_size = λ w. (pos 0, w);
  read = λ n w.
      if n == 0
      then (bytes [], w)
      else elim w [ [] ↦ (bytes [], []) | x ∷ xs ↦ (bytes (x ∷ []), xs) ];
  cancel_requested = λ w. false;
  malloc = λ n w. true;
  callback = none;
}

abbrev some_bytes : List ℕ
some_bytes = 7 ∷ 8 ∷ 9 ∷ []

reader-Streams : Streams reader (λ w. w)
reader-Streams = record {
  got = λ n w. if n == 0 then [] else elim w [ [] ↦ [] | x ∷ xs ↦ x ∷ [] ];
  after = λ n w. if n == 0 then w else elim w [ [] ↦ [] | x ∷ xs ↦ xs ];
  reads = λ n w. ground arith;
  delivers = λ n w. ground arith;
  bounded = λ n w. ground arith;
  ends = λ n w lt e. ground arith;
  uncanceled = λ w. refl;
  served = λ n w. refl;
}

stream-whole_file_example :
    Yields (whole_or_error 16 some_bytes) (stream reader 16 17 2 [] some_bytes)
stream-whole_file_example =
    stream-whole_file reader 16 (λ w. w) reader-Streams 2 some_bytes (omega arith) (omega arith)

read_all-Settled_example : Settled reader 16 (read_all reader 16 state_success some_bytes)
read_all-Settled_example = read_all-Settled reader 16 some_bytes
