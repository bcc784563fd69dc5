-- ===== src/Buffer/Refine.antt =====
-- src/buffer.rs: a growable buffer implements a queue of bytes with one limit on its length.
use librtmp.Buffer.{
  Buffer, available, peek, reserve, write, read, drain, take_out, reset, release_excess,
  buffer_max_size,
}
use librtmp.Buffer.Wf.{IsValid, length-peek}
use librtmp.Buffer.Room.{MadeRoom, make_room-MadeRoom}
use librtmp.Buffer.Queue.{
  Wrote, write-Wrote, ReadOut, read-ReadOut, drain_lem, take_out_lem, reset_lem, release_excess_lem,
}
use librtmp.Common.{
  ℕ, ◌+◌, ◌≡◌, refl, ◌∙◌, ap, inl, inr, true, List, [], ◌∷◌, ◌++◌, arith, ltb, if◌then◌else◌,
  length, take, drop, le→ltb, lt→ltb,
}
use librtmp.Common.Result.{Result, ok, err, ErrorCode}

pub data Op : Type 0 where
  writes : List ℕ → Op
  reserves reads drains releases : ℕ → Op
  takes resets : Op

-- What the caller sees of a call: a count, the bytes read, or nothing.
pub data Reply : Type 0 where
  counted : Result ℕ → Reply
  bytes : Result (List ℕ) → Reply
  finished : Result (Unit {0}) → Reply

abbrev tag {ℓ} : {S : Type 0} {A : Type ℓ} → (A → Reply) → S × A → S × Reply
tag f (s, a) = (s, f a)

-- One call on the buffer.
pub step : Op → Buffer → Buffer × Reply
step (writes xs) b = tag counted (write xs b)
step (reserves n) b = tag finished (reserve n b)
step (reads n) b = tag bytes (read n b)
step (drains n) b = (drain n b, finished (ok tt))
step (releases n) b = (release_excess n b, finished (ok tt))
step takes b = tag (λ xs. bytes (ok xs)) (take_out b)
step resets b = (reset b, finished (ok tt))

-- The same call on a queue of bytes, without storage, cursors or growth.
pub queue_step : Op → List ℕ → List ℕ × Reply
queue_step (writes []) q = (q, counted (ok 0))
queue_step (writes (x ∷ xs)) q =
    if ltb buffer_max_size (length q + length (x ∷ xs))
    then (q, counted (err ErrorCode.internal))
    else (q ++ (x ∷ xs), counted (ok (length (x ∷ xs))))
queue_step (reserves n) q =
    (q, finished (if ltb buffer_max_size (length q + n) then err ErrorCode.internal else ok tt))
queue_step (reads n) q =
    if ltb (length q) n then (q, bytes (err ErrorCode.io)) else (drop n q, bytes (ok (take n q)))
queue_step (drains n) q = (drop n q, finished (ok tt))
queue_step (releases n) q = (q, finished (ok tt))
queue_step takes q = ([], bytes (ok q))
queue_step resets q = ([], finished (ok tt))

-- The buffer is well formed and growable, and stands for the queue.
pub record Models (b : Buffer) (q : List ℕ) : Type 0 where
  pub valid : IsValid b
  pub growable : b.owned ≡ true
  pub unread : peek b ≡ q

-- A call on the buffer answers as the call on the queue, and what they leave still agrees.
abbrev pub Agrees : Buffer × Reply → List ℕ × Reply → Type 0
Agrees (b, r) (q, s) = Models b q × (r ≡ s)

module _ (b : Buffer) (q : List ℕ) (m : Models b q) where
  models : {c : Buffer} {p : List ℕ} → IsValid c → peek c ≡ p → c.owned ≡ b.owned → Models c p
  models v seen own = record { valid = v; growable = own ∙ m.growable; unread = seen }

  queue_length : length q ≡ available b
  queue_length = omega (arith, ap length m.unread, length-peek b m.valid)

  write-Agrees :
      (x : ℕ) (xs : List ℕ) (r : Buffer × Result ℕ)
      → Wrote (x ∷ xs) b r
      → Agrees (tag counted r) (queue_step (writes (x ∷ xs)) q)
  unfolding queue_step
  write-Agrees x xs (c, ok n) (v, seen, count, own, inl e) = absurd (omega (arith, ap length e))
  write-Agrees x xs (c, ok n) (v, seen, count, own, inr fits) =
      rw (le→ltb buffer_max_size (length q + length (x ∷ xs)) (omega (arith, queue_length)))
        (models v (seen ∙ ap (λ t. t ++ (x ∷ xs)) m.unread) own, ap (λ n. counted (ok n)) count)
  write-Agrees x xs (c, err e) (kept, code, inl big) =
      rw (lt→ltb buffer_max_size (length q + length (x ∷ xs)) (omega (arith, queue_length)))
        (models kept.valid (kept.unread ∙ m.unread) kept.same_owned, ap (λ e. counted (err e)) code)
  write-Agrees x xs (c, err e) (kept, code, inr (fixed, _)) = absurd (cc (m.growable, fixed))

  reserve-Agrees :
      (n : ℕ) (r : Buffer × Result (Unit {0}))
      → MadeRoom n b r
      → Agrees (tag finished r) (queue_step (reserves n) q)
  unfolding queue_step
  reserve-Agrees n (c, ok u) (kept, room, fits) =
      rw (le→ltb buffer_max_size (length q + n) (omega (arith, queue_length)))
        (models kept.valid (kept.unread ∙ m.unread) kept.same_owned, refl)
  reserve-Agrees n (c, err e) (kept, code, inl big) =
      rw (lt→ltb buffer_max_size (length q + n) (omega (arith, queue_length))) (
        models kept.valid (kept.unread ∙ m.unread) kept.same_owned,
        ap (λ e. finished (err e)) code,
      )
  reserve-Agrees n (c, err e) (kept, code, inr (fixed, _)) = absurd (cc (m.growable, fixed))

  read-Agrees :
      (n : ℕ) (r : Buffer × Result (List ℕ))
      → ReadOut n b r
      → Agrees (tag bytes r) (queue_step (reads n) q)
  unfolding queue_step
  read-Agrees n (c, ok xs) (fits, v, front, back, own) =
      rw (le→ltb (length q) n (omega (arith, queue_length))) (
        models v (back ∙ ap (drop n) m.unread) own,
        ap (λ t. bytes (ok t)) (front ∙ ap (take n) m.unread),
      )
  read-Agrees n (c, err e) (short, same, code) =
      rw (lt→ltb (length q) n (omega (arith, queue_length)), same, code) (m, refl)

  -- Every call on a growable buffer answers, and changes the unread bytes, as on a queue of bytes
  -- that holds `buffer_max_size` at most.
  pub step-queue_step : (op : Op) → Agrees (step op b) (queue_step op q)
  unfolding step
  step-queue_step (writes []) = unfold write queue_step in (m, refl)
  step-queue_step (writes (x ∷ xs)) = write-Agrees x xs _ (write-Wrote (x ∷ xs) b m.valid)
  step-queue_step (reserves n) =
      unfold reserve in reserve-Agrees n _ (make_room-MadeRoom n b m.valid)
  step-queue_step (reads n) = read-Agrees n _ (read-ReadOut n b m.valid)
  step-queue_step (drains n) =
      unfold queue_step in
      let (v, seen, own) = drain_lem n b m.valid in
      (models v (seen ∙ ap (drop n) m.unread) own, refl)
  step-queue_step (releases n) =
      unfold queue_step in
      let (v, seen, own) = release_excess_lem n b m.valid in (models v (seen ∙ m.unread) own, refl)
  step-queue_step takes =
      unfold queue_step in
      let (v, seen, out, own) = take_out_lem b m.valid in
      (models v seen own, ap (λ t. bytes (ok t)) (out ∙ m.unread))
  step-queue_step resets =
      unfold queue_step in let (v, seen, own) = reset_lem b m.valid in (models v seen own, refl)

-- A history of calls, with the answer to each.
pub run : List Op → Buffer → Buffer × List Reply
run [] b = (b, [])
run (op ∷ ops) b = let (c, r) = step op b in let (d, rs) = run ops c in (d, r ∷ rs)

pub queue_run : List Op → List ℕ → List ℕ × List Reply
queue_run [] q = (q, [])
queue_run (op ∷ ops) q =
    let (p, r) = queue_step op q in let (o, rs) = queue_run ops p in (o, r ∷ rs)

-- Any history of calls on a growable buffer answers as on a queue of bytes that holds
-- `buffer_max_size` at most, and leaves the unread bytes that the queue holds.
pub run-queue_run :
    (ops : List Op) (b : Buffer) (q : List ℕ)
    → Models b q
    → Models (run ops b).0 (queue_run ops q).0 × ((run ops b).1 ≡ (queue_run ops q).1)
unfolding run queue_run
run-queue_run [] b q m = (m, refl)
run-queue_run (op ∷ ops) b q m =
    let (n, r) = step-queue_step b q m op in
    let (k, rs) = run-queue_run ops (step op b).0 (queue_step op q).0 n in (k, cc (r, rs))
