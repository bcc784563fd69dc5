-- ===== src/Media/Modex/Layer.antt =====
-- src/media/modex.rs: one ModEx layer is read as the format lays it out.
use librtmp.Common.{
  ℕ, zero, suc, ◌+◌, ◌-◌, ◌*◌, ◌/◌, ◌%◌, ◌^◌, ◌≤◌, ◌<◌, ◌≡◌, refl, sym, ap, ◌∙◌, inl, inr, false,
  some, List, [], ◌∷◌, ◌++◌, arith, leb, leb→le, ◌==◌, Bool-cases, if◌then◌else◌, length, take,
  drop, get_elem?, drop-drop, drop-append, take-append, append_assoc,
}
use librtmp.Buffer.{slice}
use librtmp.Media.Modex.{ModexLayer, layer_size, parse_modex_layer}

-- The type and the data of a layer.
pub record Layer : Type 0 where
  pub kind : ℕ
  pub content : List ℕ

-- A layer that the format can carry.
pub record Valid (l : Layer) : Type 0 where
  pub small_kind : l.kind < 2 ^ 4
  pub some_content : 1 ≤ length l.content
  pub short_content : length l.content ≤ 2 ^ 16

-- The size field: one byte, or the marker 0xFF and two.
abbrev pub size_wire : ℕ → List ℕ
size_wire n = if leb n 255 then (n - 1) ∷ [] else 255 ∷ ((n - 1) / 2 ^ 8) ∷ ((n - 1) % 2 ^ 8) ∷ []

-- A layer followed by a packet of type `next`.
abbrev pub layer_wire : Layer → ℕ → List ℕ
layer_wire l next = size_wire (length l.content) ++ (l.content ++ ((l.kind * 2 ^ 4 + next) ∷ []))

get_elem?-drop {ℓ} :
    {A : Type ℓ} (n k : ℕ) (xs : List A) → get_elem? (drop n xs) k ≡ get_elem? xs (n + k)
get_elem?-drop zero k xs = ap (get_elem? xs) (omega arith)
get_elem?-drop (suc n) k [] = refl
get_elem?-drop (suc n) k (x ∷ xs) =
    get_elem?-drop n k xs ∙ (let e : suc n + k ≡ suc (n + k) = omega arith in rw e refl)

get_elem?-append {ℓ} :
    {A : Type ℓ} (xs : List A) (y : A) (ys : List A)
    → get_elem? (xs ++ (y ∷ ys)) (length xs) ≡ some y
get_elem?-append [] y ys = refl
get_elem?-append (x ∷ xs) y ys = get_elem?-append xs y ys

-- What is found of a layer.
pub record Parsed (payload : List ℕ) (l : Layer) (next : ℕ) (rest : List ℕ) (p : ModexLayer)
    : Type 0 where
  pub kind : p.modex_type ≡ l.kind
  pub follows : p.next_packet_type ≡ next
  pub content : slice payload p.data_start p.data_end ≡ l.content
  pub behind : drop p.next_pos payload ≡ rest

module _ (payload : List ℕ) (pos : ℕ) (head : List ℕ) (l : Layer) (next : ℕ) (rest : List ℕ)
    (small : next < 2 ^ 4) (v : Valid l)
    (e : drop pos payload ≡ head ++ (l.content ++ ((l.kind * 2 ^ 4 + next) ∷ rest))) where
  abbrev cursor : ℕ
  cursor = pos + length head

  abbrev tail : List ℕ
  tail = (l.kind * 2 ^ 4 + next) ∷ rest

  at_cursor : drop cursor payload ≡ l.content ++ tail
  at_cursor =
      sym (drop-drop (length head) pos payload)
      ∙ ap (drop (length head)) e
      ∙ drop-append (length head) head (l.content ++ tail) refl

  option_there : get_elem? payload (cursor + length l.content) ≡ some (l.kind * 2 ^ 4 + next)
  option_there =
      sym (get_elem?-drop cursor (length l.content) payload)
      ∙ ap (λ xs. get_elem? xs (length l.content)) at_cursor
      ∙ get_elem?-append l.content (l.kind * 2 ^ 4 + next) rest

  abbrev found : ModexLayer
  found = record {
    modex_type = (l.kind * 2 ^ 4 + next) / 2 ^ 4;
    next_packet_type = (l.kind * 2 ^ 4 + next) % 2 ^ 4;
    data_start = cursor;
    data_end = cursor + length l.content;
    next_pos = cursor + length l.content + 1;
  }

  found-Parsed : Parsed payload l next rest found
  found-Parsed =
      let n : cursor + length l.content - cursor ≡ length l.content = omega arith in
      let behind_content : drop (cursor + length l.content) payload ≡ tail =
        sym (drop-drop (length l.content) cursor payload)
        ∙ ap (drop (length l.content)) at_cursor
        ∙ drop-append (length l.content) l.content tail refl in
      record {
        kind = omega arith;
        follows = omega arith;
        content = rw n (
            ap (take (length l.content)) at_cursor
            ∙ take-append (length l.content) l.content tail refl);
        behind = sym (drop-drop 1 (cursor + length l.content) payload) ∙ ap (drop 1) behind_content;
      }

  size_at :
      (k x : ℕ)
      → get_elem? (head ++ (l.content ++ tail)) k ≡ some x
      → get_elem? payload (pos + k) ≡ some x
  size_at k x h = sym (get_elem?-drop pos k payload) ∙ ap (λ xs. get_elem? xs k) e ∙ h

  parsed_by :
      (x : ℕ)
      → get_elem? (head ++ (l.content ++ tail)) 0 ≡ some x
      → layer_size payload pos x ≡ some (cursor, length l.content)
      → parse_modex_layer payload pos ≡ some found
  unfolding parse_modex_layer
  parsed_by x h k =
      let first : get_elem? payload pos ≡ some x =
        ap (get_elem? payload) (omega arith) ∙ size_at 0 x h in
      rw (first, k, option_there) refl

short_size :
    (payload : List ℕ) (pos n : ℕ)
    → 1 ≤ n
    → n ≤ 255
    → layer_size payload pos (n - 1) ≡ some (pos + 1, n)
unfolding layer_size
short_size payload pos n h k =
    let e : n - 1 + 1 ≡ n = omega arith in
    let f : (n - 1 == 255) ≡ false = ground arith in rw (f, e) refl

long_size :
    (payload : List ℕ) (pos hi lo n : ℕ)
    → get_elem? payload (pos + 1) ≡ some hi
    → get_elem? payload (pos + 2) ≡ some lo
    → hi * 2 ^ 8 + lo + 1 ≡ n
    → layer_size payload pos 255 ≡ some (pos + 3, n)
unfolding layer_size
long_size payload pos hi lo n h k e = rw (h, k, e) refl

-- A layer in front of the rest of a payload is parsed as it was laid out, with a short size field or a
-- long one, and the next position is where the rest starts.
pub parse_modex_layer_lem :
    (payload : List ℕ) (pos : ℕ) (l : Layer) (next : ℕ) (rest : List ℕ)
    → next < 2 ^ 4
    → Valid l
    → drop pos payload ≡ layer_wire l next ++ rest
    → (p : ModexLayer) × (parse_modex_layer payload pos ≡ some p) × Parsed payload l next rest p
parse_modex_layer_lem payload pos l next rest small v e =
    elim (Bool-cases (leb (length l.content) 255)) [
      | inl short ↦
          let head : List ℕ = (length l.content - 1) ∷ [] in
          let e' : drop pos payload ≡ head ++ (l.content ++ ((l.kind * 2 ^ 4 + next) ∷ rest)) =
            (rw short at e)
            ∙ ap (λ xs. (length l.content - 1) ∷ xs)
                (append_assoc l.content ((l.kind * 2 ^ 4 + next) ∷ []) rest) in
          let le = leb→le _ _ short in
          let vs = v.some_content in
          (
            found payload pos head l next rest small v e',
            parsed_by payload pos head l next rest small v e' (length l.content - 1) refl
                (short_size payload pos (length l.content) vs le),
            found-Parsed payload pos head l next rest small v e',
          )
      | inr long ↦
          let head : List ℕ =
            255 ∷ ((length l.content - 1) / 2 ^ 8) ∷ ((length l.content - 1) % 2 ^ 8) ∷ [] in
          let e' : drop pos payload ≡ head ++ (l.content ++ ((l.kind * 2 ^ 4 + next) ∷ rest)) =
            (rw long at e)
            ∙ ap (λ xs. head ++ xs) (append_assoc l.content ((l.kind * 2 ^ 4 + next) ∷ []) rest) in
          (
            found payload pos head l next rest small v e',
            parsed_by payload pos head l next rest small v e' 255 refl (
                long_size payload pos ((length l.content - 1) / 2 ^ 8)
                  ((length l.content - 1) % 2 ^ 8) (length l.content)
                  (size_at payload pos head l next rest small v e' 1 _ refl)
                  (size_at payload pos head l next rest small v e' 2 _ refl)
                  (omega (arith, v.some_content))),
            found-Parsed payload pos head l next rest small v e',
          )
    ]
