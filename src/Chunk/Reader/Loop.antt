-- ===== src/Chunk/Reader/Loop.antt =====
-- src/session/conn.rs: the loop of `read_messages` up to the next message that is complete. The tests of
-- the budgets of messages and tracks, which only a handled message uses up, and `handle_message`, which
-- stands between two such stretches of the loop, are not part of it.
use librtmp.Common.{
  ℕ, zero, suc, ◌<◌, ◌≤◌, ◌≡◌, refl, sym, ap, ◌∙◌, subst, ◌⊎◌, inl, inr, arith, Option, some, none,
  List, [], leb, lt→leb, le→leb, ◌==◌, if◌then◌else◌, length,
}
use librtmp.Common.Result.{Result, ok, err}
use librtmp.Buffer.{available}
use librtmp.Chunk.State.Pending.{pending}
use librtmp.Chunk.Reader.{ChunkMessage, Input, ReadResult, chunk_read_owned}
use librtmp.Chunk.Reader.Semantics.{InputInv, awaited}
use librtmp.Chunk.Reader.Owned.{OwnedOutcome, chunk_read_owned_cases}

-- What a call of `chunk_read_owned` leaves and returns.
abbrev pub Returned : Type 0
Returned = Input × Result (ReadResult × List ℕ)

-- The arms of the `match`: `break` and the end of a message are `some`, and `next` is the next round.
abbrev pub again : ℕ → (Input → Option Returned) → Returned → Option Returned
again before next (j, err e) = some (j, err e)
again before next (j, ok (res, payload)) =
    let rest = next j in
    let ends = if leb before (available j.buf) then some (j, ok (res, payload)) else rest in
    let message = if res.msg.is_complete then some (j, ok (res, payload)) else rest in
    if res.rc == 1 then message else ends

-- The loop in `fuel` rounds, `none` if it goes on behind them. `msg` is the message that each round
-- starts from, `ChunkMessage::default()` in the source.
unfoldable pub next_message : ℕ → ChunkMessage → Input → Option Returned
next_message zero msg i = none
next_message (suc fuel) msg i =
    again (available i.buf) (next_message fuel msg) (chunk_read_owned msg i)

-- How the loop ends: the next chunk is refused, and is still there; or it is not there in full, and the
-- same call would only wait again; or a message is there in full, and its stream has none in parts.
abbrev pub Ended : ChunkMessage → Returned → Type 0
Ended msg (j, err e) = chunk_read_owned msg j ≡ (j, err e)
Ended msg (j, ok (res, payload)) =
    ((chunk_read_owned msg j ≡ (j, ok (res, payload))) × (res ≡ awaited msg) × (payload ≡ []))
    ⊎ ((res.rc ≡ 1) × (length payload ≡ res.msg.msg_length) × (pending j.reg res.msg.csid ≡ []))

-- The loop ends as told, in a well-formed state and with no more unread bytes than before.
abbrev pub Ends : ChunkMessage → Input → Option Returned → Type 0
Ends msg i o =
    (r : Returned) × (o ≡ some r)
    × Ended msg r
    × InputInv r.0
    × (available r.0.buf ≤ available i.buf)

module _ (msg : ChunkMessage) (i : Input) (v : InputInv i) (next : Input → Option Returned)
    (later : (j : Input)
      → InputInv j
      → available j.buf < available i.buf
      → Ends msg j (next j)) where
  round-Ends :
      (r : Returned)
      → chunk_read_owned msg i ≡ r
      → OwnedOutcome msg i r
      → Ends msg i (again (available i.buf) next r)
  round-Ends (j, err e) run same = (
    (j, err e),
    refl,
    ap (chunk_read_owned msg) same ∙ run,
    subst InputInv (sym same) v,
    omega (arith, ap (λ (k : Input). available k.buf) same),
  )
  round-Ends (j, ok (res, payload)) run (inl (same, waits, nothing)) = (
    (j, ok (res, payload)),
    rw (same, waits, le→leb (available i.buf) (available i.buf) (omega arith)) refl,
    inl (ap (chunk_read_owned msg) same ∙ run, waits, nothing),
    subst InputInv (sym same) v,
    omega (arith, ap (λ (k : Input). available k.buf) same),
  )
  round-Ends (j, ok (res, payload)) run (inr (less, inv, inl zero_rc)) =
      let (r, e, ended, inv', le) = later j inv less in
      (r, rw (zero_rc, lt→leb (available i.buf) (available j.buf) less) e, ended, inv', omega arith)
  round-Ends (j, ok (res, payload)) run (inr (less, inv, inr (one, whole, len, none_left))) =
      ((j, ok (res, payload)), rw (one, whole) refl, inr (one, len, none_left), inv, omega arith)

-- Whatever bytes and whatever state a connection has, the loop ends, after at most one round more than
-- there are unread bytes: at a chunk that is refused, and left where it is; at one that is not there in
-- full, where the call that ended it would wait again; or with a message of its announced length. The
-- buffer and the registry are well formed behind it, and no unread bytes have been added.
pub next_message-Ends :
    (fuel : ℕ) (msg : ChunkMessage) (i : Input)
    → InputInv i
    → available i.buf < fuel
    → Ends msg i (next_message fuel msg i)
unfolding next_message
next_message-Ends zero msg i v h = absurd (omega arith)
next_message-Ends (suc fuel) msg i v h =
    round-Ends msg i v (next_message fuel msg)
      (λ j w less. next_message-Ends fuel msg j w (omega arith)) (chunk_read_owned msg i) refl
      (chunk_read_owned_cases msg i v)
