-- ===== src/Buffer/New.antt =====
-- src/buffer.rs: new buffers are well formed, and hold what they are made from.
use librtmp.Common.{ℕ, ◌-◌, ◌≡◌, refl, List, [], arith, length, take_all}
use librtmp.Buffer.{from_slice, with_capacity, peek}
use librtmp.Buffer.Wf.{IsValid}

pub from_slice-IsValid : (bytes : List ℕ) → IsValid (from_slice bytes)
unfolding from_slice
from_slice-IsValid bytes = record { ordered = omega arith; within = omega arith }

pub peek-from_slice : (bytes : List ℕ) → peek (from_slice bytes) ≡ bytes
unfolding from_slice peek
peek-from_slice bytes = take_all (length bytes - 0) bytes (omega arith)

pub with_capacity-IsValid : (n : ℕ) → IsValid (with_capacity n)
unfolding with_capacity
with_capacity-IsValid n = record { ordered = omega arith; within = omega arith }

pub peek-with_capacity : (n : ℕ) → peek (with_capacity n) ≡ []
unfolding with_capacity peek
peek-with_capacity n = refl
