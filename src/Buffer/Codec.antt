-- ===== src/Buffer/Codec.antt =====
-- src/buffer.rs, as the encoders and decoders use it: code that reads a buffer is described by the
-- unread bytes that it takes, and code that writes one by the bytes that it adds.
use librtmp.Buffer.{Buffer, peek, write, read, buffer_max_size}
use librtmp.Buffer.Wf.{IsValid, length-peek}
use librtmp.Buffer.Queue.{Wrote, write-Wrote, ReadOut, read-ReadOut}
use librtmp.Common.{
  ℕ, ◌+◌, ◌≤◌, ◌<◌, ◌≡◌, refl, ◌∙◌, ap, inl, inr, true, List, [], ◌++◌, arith, length, take, drop,
  length-append, take-append, drop-append, append_assoc,
}
use librtmp.Common.Result.{
  Result, ok, err, ErrorCode, M, ◌>>=◌, ◌>>◌, and_then, map_err, set_err, pure,
}

-- On every well-formed buffer whose unread bytes are `xs`, `m` returns `a` and leaves `rest`.
abbrev pub Parses {ℓ} : {A : Type ℓ} → M Buffer A → List ℕ → A → List ℕ → Type ℓ
Parses m xs a rest =
    (b : Buffer)
    → IsValid b
    → peek b ≡ xs
    → (c : Buffer) × (m b ≡ (c, ok a)) × IsValid c × (peek c ≡ rest) × (c.owned ≡ b.owned)

-- On every well-formed buffer whose unread bytes are `xs`, `m` fails with `e`.
abbrev pub Rejects {ℓ} : {A : Type ℓ} → M Buffer A → List ℕ → ErrorCode → Type ℓ
Rejects m xs e =
    (b : Buffer) → IsValid b → peek b ≡ xs → (c : Buffer) × (m b ≡ (c, err e)) × IsValid c

-- On every well-formed buffer that can grow far enough, `m` adds the bytes `ys`.
abbrev pub Emits : M Buffer (Unit {0}) → List ℕ → Type 0
Emits m ys =
    (b : Buffer)
    → IsValid b
    → b.owned ≡ true
    → length (peek b) + length ys ≤ buffer_max_size
    → (c : Buffer) × (m b ≡ (c, ok tt)) × IsValid c × (peek c ≡ peek b ++ ys) × (c.owned ≡ true)

-- `buf.write(xs).map_err(|_| ErrorCode::Internal)?`
abbrev pub put : List ℕ → M Buffer (Unit {0})
put xs = map_err ErrorCode.internal (write xs) >>= λ _. pure tt

module _ {ℓ κ} {A : Type ℓ} {B : Type κ} (m : M Buffer A) (f : A → M Buffer B) where
  pub Parses-bind :
      (xs ys zs : List ℕ) (a : A) (c : B)
      → Parses m xs a ys
      → Parses (f a) ys c zs
      → Parses (m >>= f) xs c zs
  Parses-bind xs ys zs a c p q b v e =
      let (d, r, w, seen, own) = p b v e in
      let (d', r', w', seen', own') = q d w seen in
      (d', ap (λ t. and_then t f) r ∙ r', w', seen', own' ∙ own)

  pub Rejects-bind :
      (xs ys : List ℕ) (a : A) (e : ErrorCode)
      → Parses m xs a ys
      → Rejects (f a) ys e
      → Rejects (m >>= f) xs e
  Rejects-bind xs ys a e p q b v h =
      let (d, r, w, seen, _) = p b v h in
      let (d', r', w') = q d w seen in (d', ap (λ t. and_then t f) r ∙ r', w')

  pub Rejects-first : (xs : List ℕ) (e : ErrorCode) → Rejects m xs e → Rejects (m >>= f) xs e
  Rejects-first xs e p b v h = let (d, r, w) = p b v h in (d, ap (λ t. and_then t f) r, w)

pub Parses-pure {ℓ} : {A : Type ℓ} (a : A) (xs : List ℕ) → Parses (pure a) xs a xs
Parses-pure a xs b v e = (b, refl, v, e, refl)

pub Parses-map_err {ℓ} :
    {A : Type ℓ} (e : ErrorCode) (m : M Buffer A) (xs ys : List ℕ) (a : A)
    → Parses m xs a ys
    → Parses (map_err e m) xs a ys
Parses-map_err e m xs ys a p b v h =
    let (c, r, w, seen, own) = p b v h in (c, ap (set_err e) r, w, seen, own)

pub Rejects-map_err {ℓ} :
    {A : Type ℓ} (e e' : ErrorCode) (m : M Buffer A) (xs : List ℕ)
    → Rejects m xs e'
    → Rejects (map_err e m) xs e
Rejects-map_err e e' m xs p b v h = let (c, r, w) = p b v h in (c, ap (set_err e) r, w)

read_front :
    (xs ys : List ℕ) (b : Buffer) (r : Buffer × Result (List ℕ))
    → IsValid b
    → peek b ≡ xs ++ ys
    → ReadOut (length xs) b r
    → (c : Buffer) × (r ≡ (c, ok xs)) × IsValid c × (peek c ≡ ys) × (c.owned ≡ b.owned)
read_front xs ys b (c, ok zs) v e (fits, w, front, back, own) = (
  c,
  ap (λ t. (c, ok t)) (front ∙ ap (take (length xs)) e ∙ take-append (length xs) xs ys refl),
  w,
  back ∙ ap (drop (length xs)) e ∙ drop-append (length xs) xs ys refl,
  own,
)
read_front xs ys b (c, err k) v e (short, same, code) =
    absurd (omega (arith, length-peek b v, ap length e, length-append xs ys))

-- `read` takes what is in front.
pub Parses-read : (n : ℕ) (xs ys : List ℕ) → n ≡ length xs → Parses (read n) (xs ++ ys) xs ys
Parses-read n xs ys h b v e =
    rw h (read_front xs ys b (read (length xs) b) v e (read-ReadOut (length xs) b v))

read_short :
    (n : ℕ) (b : Buffer) (r : Buffer × Result (List ℕ))
    → IsValid b
    → length (peek b) < n
    → ReadOut n b r
    → (c : Buffer) × (r ≡ (c, err ErrorCode.io)) × IsValid c
read_short n b (c, ok zs) v short (fits, w, front, back, own) =
    absurd (omega (arith, length-peek b v))
read_short n b (c, err k) v short (_, same, code) = (b, cc (same, code), v)

pub Rejects-read : (n : ℕ) (xs : List ℕ) → length xs < n → Rejects (read n) xs ErrorCode.io
Rejects-read n xs h b v e =
    read_short n b (read n b) v (omega (arith, ap length e)) (read-ReadOut n b v)

pub write_back :
    (xs : List ℕ) (b : Buffer) (r : Buffer × Result ℕ)
    → IsValid b
    → b.owned ≡ true
    → length (peek b) + length xs ≤ buffer_max_size
    → Wrote xs b r
    → (c : Buffer) × (r ≡ (c, ok (length xs)))
      × IsValid c
      × (peek c ≡ peek b ++ xs)
      × (c.owned ≡ true)
write_back xs b (c, ok n) v o h (w, seen, count, own, _) =
    (c, ap (λ t. (c, ok t)) count, w, seen, own ∙ o)
write_back xs b (c, err e) v o h (kept, code, inl big) = absurd (omega (arith, length-peek b v))
write_back xs b (c, err e) v o h (kept, code, inr (fixed, _)) = absurd (cc (o, fixed))

pub Emits-put : (xs : List ℕ) → Emits (put xs) xs
Emits-put xs b v o h =
    let (c, r, w, seen, own) = write_back xs b (write xs b) v o h (write-Wrote xs b v) in
    (c, ap (λ t. and_then (set_err ErrorCode.internal t) (λ _. pure tt)) r, w, seen, own)

pub Emits-seq :
    (m k : M Buffer (Unit {0})) (xs ys : List ℕ)
    → Emits m xs
    → Emits k ys
    → Emits (m >> k) (xs ++ ys)
Emits-seq m k xs ys p q b v o h =
    let (c, r, w, seen, own) = p b v o (omega (arith, length-append xs ys)) in
    let (c', r', w', seen', own') =
      q c w own (omega (arith, ap length seen, length-append (peek b) xs, length-append xs ys)) in
    (
      c',
      ap (λ t. and_then t (λ _. k)) r ∙ r',
      w',
      seen' ∙ ap (λ t. t ++ ys) seen ∙ append_assoc (peek b) xs ys,
      own',
    )

-- What is written behind nothing unread is read back, whatever was written behind it.
pub Parses-Emits {ℓ} :
    {A : Type ℓ} (w : M Buffer (Unit {0})) (r : M Buffer A) (xs rest : List ℕ) (a : A)
    → Emits w xs
    → Parses r (xs ++ rest) a rest
    → (b : Buffer) → IsValid b
    → b.owned ≡ true
    → peek b ≡ []
    → length xs + length rest ≤ buffer_max_size
    → (c d : Buffer) × ((w >> put rest) b ≡ (c, ok tt)) × (r c ≡ (d, ok a)) × (peek d ≡ rest)
Parses-Emits w r xs rest a p q b v o e h =
    let (c, run, valid, seen, _) =
      Emits-seq w (put rest) xs rest p (Emits-put rest) b v o
        (omega (arith, ap length e, length-append xs rest)) in
    let (d, run', _, left, _) = q c valid (seen ∙ ap (λ t. t ++ (xs ++ rest)) e) in
    (c, d, run, run', left)
