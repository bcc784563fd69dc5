-- ===== src/Buffer/Tests.antt =====
-- src/buffer.rs: the buffer on concrete calls.
use librtmp.Common.{◌≡◌, refl, List, [], ◌∷◌}
use librtmp.Buffer.{Buffer, with_capacity, from_slice, write, read}
use librtmp.Buffer.New.{with_capacity-IsValid, peek-with_capacity, from_slice-IsValid}
use librtmp.Buffer.Queue.{Wrote, write-Wrote, ReadOut, read-ReadOut}
use librtmp.Buffer.Refine.{Op, writes, reads, drains, Models, run, queue_run, run-queue_run}

abbrev some_calls : List Op
some_calls = writes (1 ∷ 2 ∷ 3 ∷ []) ∷ reads 2 ∷ writes (4 ∷ []) ∷ drains 1 ∷ reads 5 ∷ []

empty-Models : Models (with_capacity 0) []
unfolding with_capacity
empty-Models = record {
  valid = with_capacity-IsValid 0;
  growable = refl;
  unread = peek-with_capacity 0;
}

run-queue_run_example :
    Models (run some_calls (with_capacity 0)).0 (queue_run some_calls []).0
    × ((run some_calls (with_capacity 0)).1 ≡ (queue_run some_calls []).1)
run-queue_run_example = run-queue_run some_calls (with_capacity 0) [] empty-Models

abbrev three : Buffer
three = from_slice (1 ∷ 2 ∷ 3 ∷ [])

write-Wrote_example : Wrote (4 ∷ 5 ∷ []) three (write (4 ∷ 5 ∷ []) three)
write-Wrote_example = write-Wrote (4 ∷ 5 ∷ []) three (from_slice-IsValid (1 ∷ 2 ∷ 3 ∷ []))

read-ReadOut_example : ReadOut 2 three (read 2 three)
read-ReadOut_example = read-ReadOut 2 three (from_slice-IsValid (1 ∷ 2 ∷ 3 ∷ []))
