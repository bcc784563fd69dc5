-- ===== src/Chunk/State/Slots.antt =====
-- src/chunk/state.rs: the slots of the stream table, and the two sums that the registry caches.
use librtmp.Common.{
  ℕ, zero, suc, ◌+◌, ◌≤◌, ◌<◌, ◌≡◌, refl, ap, List, [], ◌∷◌, ◌++◌, arith, length, get_or,
  if◌then◌else◌, All,
}
use librtmp.Buffer.{available}
use librtmp.Chunk.State.{ChunkStream, modify, default_stream}

-- What `reassembly_bytes_in_use` and `reassembling_count` are to stand for.
unfoldable pub total_bytes : List ChunkStream → ℕ
total_bytes [] = 0
total_bytes (s ∷ ss) = available s.reassembly_buf + total_bytes ss

abbrev pub flag : ChunkStream → ℕ
flag s = if s.reassembling then 1 else 0

unfoldable pub active_count : List ChunkStream → ℕ
active_count [] = 0
active_count (s ∷ ss) = flag s + active_count ss

abbrev pub nth : List ChunkStream → ℕ → ChunkStream
nth ss i = get_or ss i default_stream

pub length-modify :
    (ss : List ChunkStream) (i : ℕ) (f : ChunkStream → ChunkStream)
    → length (modify ss i f) ≡ length ss
length-modify [] i f = refl
length-modify (s ∷ ss) zero f = refl
length-modify (s ∷ ss) (suc i) f = ap suc (length-modify ss i f)

pub nth-modify_self :
    (ss : List ChunkStream) (i : ℕ) (f : ChunkStream → ChunkStream)
    → i < length ss
    → nth (modify ss i f) i ≡ f (nth ss i)
nth-modify_self [] i f h = absurd (omega arith)
nth-modify_self (s ∷ ss) zero f h = refl
nth-modify_self (s ∷ ss) (suc i) f h = nth-modify_self ss i f (omega arith)

pub nth-modify_ne :
    (ss : List ChunkStream) (i j : ℕ) (f : ChunkStream → ChunkStream)
    → (i ≡ j → ⊥)
    → nth (modify ss i f) j ≡ nth ss j
nth-modify_ne [] i j f h = refl
nth-modify_ne (s ∷ ss) zero zero f h = absurd (h refl)
nth-modify_ne (s ∷ ss) zero (suc j) f h = refl
nth-modify_ne (s ∷ ss) (suc i) zero f h = refl
nth-modify_ne (s ∷ ss) (suc i) (suc j) f h = nth-modify_ne ss i j f (λ e. h (ap suc e))

pub modify-modify :
    (ss : List ChunkStream) (i : ℕ) (f g : ChunkStream → ChunkStream)
    → modify (modify ss i f) i g ≡ modify ss i (λ s. g (f s))
modify-modify [] i f g = refl
modify-modify (s ∷ ss) zero f g = refl
modify-modify (s ∷ ss) (suc i) f g = ap (◌∷◌ s) (modify-modify ss i f g)

pub total_bytes-modify :
    (ss : List ChunkStream) (i : ℕ) (f : ChunkStream → ChunkStream)
    → i < length ss
    → total_bytes (modify ss i f) + available (nth ss i).reassembly_buf
      ≡ total_bytes ss + available (f (nth ss i)).reassembly_buf
unfolding total_bytes
total_bytes-modify [] i f h = absurd (omega arith)
total_bytes-modify (s ∷ ss) zero f h = omega arith
total_bytes-modify (s ∷ ss) (suc i) f h = omega (arith, total_bytes-modify ss i f (omega arith))

pub active_count-modify :
    (ss : List ChunkStream) (i : ℕ) (f : ChunkStream → ChunkStream)
    → i < length ss
    → active_count (modify ss i f) + flag (nth ss i) ≡ active_count ss + flag (f (nth ss i))
unfolding active_count
active_count-modify [] i f h = absurd (omega arith)
active_count-modify (s ∷ ss) zero f h = omega arith
active_count-modify (s ∷ ss) (suc i) f h = omega (arith, active_count-modify ss i f (omega arith))

pub total_bytes-append :
    (ss ts : List ChunkStream) → total_bytes (ss ++ ts) ≡ total_bytes ss + total_bytes ts
unfolding total_bytes
total_bytes-append [] ts = omega arith
total_bytes-append (s ∷ ss) ts = omega (arith, total_bytes-append ss ts)

pub active_count-append :
    (ss ts : List ChunkStream) → active_count (ss ++ ts) ≡ active_count ss + active_count ts
unfolding active_count
active_count-append [] ts = omega arith
active_count-append (s ∷ ss) ts = omega (arith, active_count-append ss ts)

pub nth-append_lt : (ss ts : List ChunkStream) (i : ℕ) → i < length ss → nth (ss ++ ts) i ≡ nth ss i
nth-append_lt [] ts i h = absurd (omega arith)
nth-append_lt (s ∷ ss) ts zero h = refl
nth-append_lt (s ∷ ss) ts (suc i) h = nth-append_lt ss ts i (omega arith)

pub nth-append_last :
    (ss : List ChunkStream) (t : ChunkStream) → nth (ss ++ (t ∷ [])) (length ss) ≡ t
nth-append_last [] t = refl
nth-append_last (s ∷ ss) t = nth-append_last ss t

module _ {ℓ} (P : ChunkStream → Type ℓ) where
  pub All-modify :
      (ss : List ChunkStream) (i : ℕ) (f : ChunkStream → ChunkStream)
      → All P ss
      → P (f (nth ss i))
      → All P (modify ss i f)
  All-modify [] i f h p = tt
  All-modify (s ∷ ss) zero f h p = (p, h.1)
  All-modify (s ∷ ss) (suc i) f h p = (h.0, All-modify ss i f h.1 p)

  pub All-nth : (ss : List ChunkStream) (i : ℕ) → i < length ss → All P ss → P (nth ss i)
  All-nth [] i h p = absurd (omega arith)
  All-nth (s ∷ ss) zero h p = p.0
  All-nth (s ∷ ss) (suc i) h p = All-nth ss i (omega arith) p.1

pub modify_ext :
    (ss : List ChunkStream) (i : ℕ) (f g : ChunkStream → ChunkStream)
    → f (nth ss i) ≡ g (nth ss i)
    → modify ss i f ≡ modify ss i g
modify_ext [] i f g e = refl
modify_ext (s ∷ ss) zero f g e = ap (λ t. t ∷ ss) e
modify_ext (s ∷ ss) (suc i) f g e = ap (◌∷◌ s) (modify_ext ss i f g e)

pub modify_id : (ss : List ChunkStream) (i : ℕ) → modify ss i (λ s. s) ≡ ss
modify_id [] i = refl
modify_id (s ∷ ss) zero = refl
modify_id (s ∷ ss) (suc i) = ap (◌∷◌ s) (modify_id ss i)

-- Each stream counts in the sums.
pub sums_ge :
    (ss : List ChunkStream) (i : ℕ)
    → i < length ss
    → (available (nth ss i).reassembly_buf ≤ total_bytes ss) × (flag (nth ss i) ≤ active_count ss)
unfolding total_bytes active_count
sums_ge [] i h = absurd (omega arith)
sums_ge (s ∷ ss) zero h = (omega arith, omega arith)
sums_ge (s ∷ ss) (suc i) h = let (a, b) = sums_ge ss i (omega arith) in (omega arith, omega arith)
