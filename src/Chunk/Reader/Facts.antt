-- ===== src/Chunk/Reader/Facts.antt =====
-- src/chunk/reader.rs: what phase 1 has established when it lets a chunk be read.
use librtmp.Common.{
  ℕ, ◌+◌, ◌/◌, ◌^◌, ◌≤◌, ◌<◌, ◌≡◌, refl, sym, subst, ◌⊎◌, inl, inr, Bool, true, false, Option, none,
  some, List, arith, ltb, ◌==◌, if◌then◌else◌, Bool-cases, ltb→lt,
}
use librtmp.Common.Result.{ErrorCode}
use librtmp.Bytes.{at}
use librtmp.Chunk.State.{ChunkStream, ChunkRegistry, get, can_get_or_create}
use librtmp.Chunk.Reader.Peek.{
  Plan, Peeked, go, wait, reject, peek_stream, peek_bytes, basic_header, msg_field_size,
  effective_length, part_length, budget_exceeded,
}

-- The bytes of the message header of each format.
abbrev pub field_bytes : ℕ → ℕ
field_bytes fmt = if fmt == 0 then 11 else if fmt == 1 then 7 else if fmt == 2 then 3 else 0

abbrev pub ext_bytes : Bool → ℕ
ext_bytes b = if b then 4 else 0

-- A chunk of format 2 or 3 continues a known header, and one of format 2 no message.
abbrev pub Continues : ℕ → Option ChunkStream → Type 0
Continues fmt none = fmt < 2
Continues fmt (some s) =
    (fmt < 2) ⊎ ((s.has_message_header ≡ true) × ((fmt ≡ 2) → s.reassembly_bytes_read ≡ 0))

pub record Ready (bytes : List ℕ) (avail : ℕ) (reg : ChunkRegistry) (p : Plan) : Type 0 where
  pub eff_len : ℕ
  pub fits : p.header_size + field_bytes p.fmt + ext_bytes p.ext_ts + p.to_read ≤ avail
  pub format : p.fmt ≤ 3
  pub continues : Continues p.fmt (get reg p.csid)
  pub length_known : effective_length bytes p.fmt p.header_size (get reg p.csid) ≡ go eff_len
  pub short : eff_len ≤ reg.max_msg_length
  pub part : p.to_read ≡ part_length reg p.fmt eff_len (get reg p.csid)
  pub in_budget : budget_exceeded reg p.fmt (get reg p.csid) p.to_read ≡ false
  pub can_open : can_get_or_create reg p.csid ≡ true

Peeked-cases {ℓ} :
    {A : Type ℓ} (m : Peeked A)
    → ((a : A) × (m ≡ go a)) ⊎ ((m ≡ wait) ⊎ ((e : ErrorCode) × (m ≡ reject e)))
Peeked-cases (go a) = inl (a, refl)
Peeked-cases wait = inr (inl refl)
Peeked-cases (reject x) = inr (inr (x, refl))

module _ (bytes : List ℕ) (avail : ℕ) (reg : ChunkRegistry) (fmt csid header_size : ℕ)
    (stream : Option ChunkStream) (p : Plan)
    (h : peek_stream bytes avail reg fmt csid header_size (header_size + field_bytes fmt) stream
      ≡ go p) where
  plan_fields : (p.fmt ≡ fmt) × (p.csid ≡ csid) × (p.header_size ≡ header_size)
  unfolding peek_stream
  plan_fields = ground arith

  plan_open : can_get_or_create reg csid ≡ true
  unfolding peek_stream
  plan_open = ground arith

  plan_fits : header_size + field_bytes fmt + ext_bytes p.ext_ts + p.to_read ≤ avail
  unfolding peek_stream
  plan_fits = ground arith

  plan_budget : budget_exceeded reg fmt stream p.to_read ≡ false
  unfolding peek_stream
  plan_budget = ground arith

  plan_length :
      (n : ℕ) × (effective_length bytes fmt header_size stream ≡ go n)
      × (n ≤ reg.max_msg_length)
      × (p.to_read ≡ part_length reg fmt n stream)
  unfolding peek_stream
  plan_length = elim (Peeked-cases (effective_length bytes fmt header_size stream)) [
    | inl (n, e) ↦ (n, e, ground arith, ground arith)
    | inr (inl e) ↦ absurd (ground arith)
    | inr (inr (x, e)) ↦ absurd (ground arith)
  ]

  plan-Continues : fmt ≤ 3 → Continues fmt stream
  unfolding peek_stream
  plan-Continues = continues_of stream refl
    where
      continues_of : (o : Option ChunkStream) → stream ≡ o → fmt ≤ 3 → Continues fmt o
      continues_of none e k = ground arith
      continues_of (some s) e k = elim (Bool-cases (ltb fmt 2)) [
        | inl low ↦ inl (ltb→lt fmt 2 low)
        | inr high ↦ inr (ground arith, λ two. ground arith)
      ]

field_size_lem : (fmt n : ℕ) → msg_field_size fmt ≡ go n → (n ≡ field_bytes fmt) × (fmt ≤ 3)
unfolding msg_field_size
field_size_lem fmt n h = ground arith

peek_stream-Ready :
    (bytes : List ℕ) (avail : ℕ) (reg : ChunkRegistry) (fmt csid header_size : ℕ) (p : Plan)
    → fmt ≤ 3
    → peek_stream bytes avail reg fmt csid header_size
        (header_size + field_bytes fmt)
        (get reg csid)
      ≡ go p
    → Ready bytes avail reg p × (p.fmt ≡ fmt)
peek_stream-Ready bytes avail reg fmt csid header_size p k h =
    let (ef, ec, es) = plan_fields bytes avail reg fmt csid header_size (get reg csid) p h in
    let (n, known, short, part) =
      plan_length bytes avail reg fmt csid header_size (get reg csid) p h in
    let plan : p ≡ record {
      fmt = fmt;
      csid = csid;
      header_size = header_size;
      ext_ts = p.ext_ts;
      to_read = p.to_read;
    } =
      λ i. record {
        fmt = ef i;
        csid = ec i;
        header_size = es i;
        ext_ts = p.ext_ts;
        to_read = p.to_read;
      } in
    (
      subst (Ready bytes avail reg) (sym plan) (record {
        eff_len = n;
        fits = plan_fits bytes avail reg fmt csid header_size (get reg csid) p h;
        format = k;
        continues = plan-Continues bytes avail reg fmt csid header_size (get reg csid) p h k;
        length_known = known;
        short = short;
        part = part;
        in_budget = plan_budget bytes avail reg fmt csid header_size (get reg csid) p h;
        can_open = plan_open bytes avail reg fmt csid header_size (get reg csid) p h;
      }),
      ef,
    )

-- Phase 1 lets a chunk be read only when all of it is there and nothing in it will be refused.
pub peek_bytes-Ready :
    (bytes : List ℕ) (avail : ℕ) (reg : ChunkRegistry) (p : Plan)
    → peek_bytes bytes avail reg ≡ go p
    → Ready bytes avail reg p × (p.fmt ≡ at bytes 0 / 2 ^ 6)
unfolding peek_bytes
peek_bytes-Ready bytes avail reg p h = elim (Peeked-cases (basic_header bytes avail)) [
  | inr (inl e) ↦ absurd (ground arith)
  | inr (inr (x, e)) ↦ absurd (ground arith)
  | inl ((csid, size), e) ↦ elim (Peeked-cases (msg_field_size (at bytes 0 / 2 ^ 6))) [
    | inr (inl k) ↦ absurd (ground arith)
    | inr (inr (x, k)) ↦ absurd (ground arith)
    | inl (n, k) ↦
        let (en, ef) = field_size_lem (at bytes 0 / 2 ^ 6) n k in
        peek_stream-Ready bytes avail reg (at bytes 0 / 2 ^ 6) csid size p ef (ground arith)
  ]
]

basic_header_size :
    (bytes : List ℕ) (avail csid size : ℕ) → basic_header bytes avail ≡ go (csid, size) → 1 ≤ size
unfolding basic_header
basic_header_size bytes avail csid size e = ground arith

-- A chunk has a basic header.
pub peek_bytes-header :
    (bytes : List ℕ) (avail : ℕ) (reg : ChunkRegistry) (p : Plan)
    → peek_bytes bytes avail reg ≡ go p
    → 1 ≤ p.header_size
unfolding peek_bytes
peek_bytes-header bytes avail reg p h = elim (Peeked-cases (basic_header bytes avail)) [
  | inr (inl e) ↦ absurd (ground arith)
  | inr (inr (x, e)) ↦ absurd (ground arith)
  | inl ((csid, size), e) ↦ elim (Peeked-cases (msg_field_size (at bytes 0 / 2 ^ 6))) [
    | inr (inl k) ↦ absurd (ground arith)
    | inr (inr (x, k)) ↦ absurd (ground arith)
    | inl (n, k) ↦
        let (en, ef) = field_size_lem (at bytes 0 / 2 ^ 6) n k in
        let (_, _, es) =
          plan_fields bytes avail reg (at bytes 0 / 2 ^ 6) csid size (get reg csid) p
            (ground arith) in
        omega (arith, es, basic_header_size bytes avail csid size e)
  ]
]
