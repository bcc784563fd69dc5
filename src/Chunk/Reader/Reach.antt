-- ===== src/Chunk/Reader/Reach.antt =====
-- src/chunk/reader.rs, src/chunk/state.rs: a connection's receive side, as steps on its buffer and
-- registry in any order.
use librtmp.Common.{ℕ, List, All, All-append}
use librtmp.Common.Result.{Result, ok, err}
use librtmp.Bytes.{IsByte}
use librtmp.Buffer.{Buffer, peek, write}
use librtmp.Buffer.Wf.{IsValid}
use librtmp.Buffer.Queue.{Wrote, write-Wrote}
use librtmp.Chunk.State.{new, set_all_chunk_size, abort_stream, reset_stream, get_or_create_index}
use librtmp.Chunk.State.Ops.{
  new-RegInv, abort_stream-Dropped, reset_stream-Dropped, get_or_create_index-RegInv,
}
use librtmp.Chunk.State.Resize.{set_all_chunk_size-RegInv}
use librtmp.Chunk.Reader.{ChunkMessage, Input, chunk_read}
use librtmp.Chunk.Reader.Semantics.{InputInv, chunk_read-InputInv}

-- One event: bytes arrive, a chunk is read, or a control message changes the registry.
pub data Step : Input → Input → Type 0 where
  arrive :
      (i : Input) (bytes : List ℕ)
      → All IsByte bytes
      → Step i (record i { buf = (write bytes i.buf).0 })
  read_chunk : (i : Input) (msg : ChunkMessage) → Step i (chunk_read msg i).0
  resize : (i : Input) (size : ℕ) → Step i (record i { reg = set_all_chunk_size size i.reg })
  abort : (i : Input) (csid : ℕ) → Step i (record i { reg = abort_stream csid i.reg })
  reset : (i : Input) (csid : ℕ) → Step i (record i { reg = reset_stream csid i.reg })
  open_slot :
      (i : Input) (csid : ℕ) → Step i (record i { reg = (get_or_create_index csid i.reg).0 })

-- What a connection that starts with the buffer `b` can come to.
pub data Reaches (b : Buffer) : Input → Type 0 where
  start : Reaches b (record { buf = b; reg = new })
  next : {i j : Input} → Reaches b i → Step i j → Reaches b j

arrive-InputInv :
    (i : Input) (bytes : List ℕ)
    → All IsByte bytes
    → InputInv i
    → InputInv (record i { buf = (write bytes i.buf).0 })
arrive-InputInv i bytes h v = of_write (write bytes i.buf) (write-Wrote bytes i.buf v.valid)
  where
    of_write : (r : Buffer × Result ℕ) → Wrote bytes i.buf r → InputInv (record i { buf = r.0 })
    of_write (b, ok n) (w, seen, n_ok, own, fits) = record {
      valid = w;
      reg_inv = v.reg_inv;
      bytes = rw seen (All-append IsByte (peek i.buf) bytes v.bytes h);
    }
    of_write (b, err e) (kept, k, over) = record {
      valid = kept.valid;
      reg_inv = v.reg_inv;
      bytes = rw kept.unread v.bytes;
    }

step-InputInv : {i j : Input} → Step i j → InputInv i → InputInv j
step-InputInv (arrive i bytes h) v = arrive-InputInv i bytes h v
step-InputInv (read_chunk i msg) v = chunk_read-InputInv msg i v
step-InputInv (resize i size) v = record {
  valid = v.valid;
  reg_inv = set_all_chunk_size-RegInv size i.reg v.reg_inv;
  bytes = v.bytes;
}
step-InputInv (abort i csid) v = record {
  valid = v.valid;
  reg_inv = (abort_stream-Dropped csid i.reg v.reg_inv).inv;
  bytes = v.bytes;
}
step-InputInv (reset i csid) v = record {
  valid = v.valid;
  reg_inv = (reset_stream-Dropped csid i.reg v.reg_inv).inv;
  bytes = v.bytes;
}
step-InputInv (open_slot i csid) v = record {
  valid = v.valid;
  reg_inv = get_or_create_index-RegInv i.reg csid v.reg_inv;
  bytes = v.bytes;
}

-- Whatever arrives and in whatever order the events come, the receive side stays well formed.
pub Reaches-InputInv :
    (b : Buffer) → IsValid b → All IsByte (peek b) → (i : Input) → Reaches b i → InputInv i
Reaches-InputInv b w h _ start = record { valid = w; reg_inv = new-RegInv; bytes = h }
Reaches-InputInv b w h _ (next r s) = step-InputInv s (Reaches-InputInv b w h _ r)
