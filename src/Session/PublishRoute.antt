-- ===== src/Session/PublishRoute.antt =====
-- src/session/publish_route.rs: one owner for each published route. The map is a function on keys;
-- a route is a key whose equality test is a parameter, and a poisoned lock is not modelled.
use librtmp.Common.{
  ℕ, ◌≡◌, refl, ◌⊎◌, inl, inr, Bool, true, false, not, Option, none, some, ◌==◌, if◌then◌else◌,
  Bool-cases, ==_iff, List, [], ◌∷◌, All, sym, ap, ◌∙◌, arith,
}

-- The owner of each route.
abbrev pub Routes : Type 0 → Type 0
Routes K = K → Option ℕ

module _ (K : Type 0) (same : K → K → Bool) where
  abbrev pub insert : K → ℕ → Routes K → Routes K
  insert key owner map other = if same other key then some owner else map other

  abbrev pub remove : K → Routes K → Routes K
  remove key map other = if same other key then none else map other

  -- `claim` behind the lookup.
  abbrev claim_at : ℕ → K → Option ℕ → Routes K → Routes K × Bool
  claim_at conn_id key none map = (insert key conn_id map, true)
  claim_at conn_id key (some owner) map =
      if not (owner == conn_id) then (map, false) else (insert key conn_id map, true)

  unfoldable pub claim : ℕ → K → Routes K → Routes K × Bool
  claim conn_id key map = claim_at conn_id key (map key) map

  abbrev owned_by : ℕ → Option ℕ → Bool
  owned_by conn_id none = false
  owned_by conn_id (some owner) = owner == conn_id

  unfoldable pub release : ℕ → K → Routes K → Routes K
  release conn_id key map = if owned_by conn_id (map key) then remove key map else map

  unfoldable pub force_release : K → Routes K → Routes K
  force_release key map = remove key map

  -- What a claim does: it gives the route to the caller, or another connection has it and keeps it.
  abbrev pub Claimed : ℕ → K → Routes K → Routes K × Bool → Type 0
  Claimed conn_id key map (next, true) =
      (next key ≡ some conn_id) × ((map key ≡ none) ⊎ (map key ≡ some conn_id))
  Claimed conn_id key map (next, false) =
      (next ≡ map) × ((owner : ℕ) × (map key ≡ some owner) × ((owner == conn_id) ≡ false))

  -- What the connections ask for, one call after the other.
  pub data Call : Type 0 where
    claims releases : ℕ → K → Call

  -- The connection that makes the call.
  abbrev pub caller : Call → ℕ
  caller (claims conn_id key) = conn_id
  caller (releases conn_id key) = conn_id

  abbrev pub call : Call → Routes K → Routes K
  call (claims conn_id key) map = (claim conn_id key map).0
  call (releases conn_id key) map = release conn_id key map

  abbrev pub calls : List Call → Routes K → Routes K
  calls [] map = map
  calls (c ∷ cs) map = calls cs (call c map)

  module _ (same_sound : (a b : K) → same a b ≡ true → a ≡ b) where
    insert_kept :
        (conn_id owner : ℕ) (k key : K) (map : Routes K) (o : Option ℕ)
        → map k ≡ o
        → map key ≡ some owner
        → (owner == conn_id) ≡ false
        → (claim_at conn_id k o map).0 key ≡ some owner
    insert_kept conn_id owner k key map none free e ne = elim (Bool-cases (same key k)) [
      | inl there ↦ absurd (cc (sym e ∙ ap map (same_sound key k there) ∙ free))
      | inr other ↦ rw other e
    ]
    insert_kept conn_id owner k key map (some taken) held e ne =
        elim (Bool-cases (taken == conn_id)) [
          | inr theirs ↦ rw theirs e
          | inl mine ↦ elim (Bool-cases (same key k)) [
            | inl there ↦
                let q : some owner ≡ some taken = sym e ∙ ap map (same_sound key k there) ∙ held in
                absurd (ground arith)
            | inr other ↦ rw (mine, other) e
          ]
        ]

    remove_kept :
        (conn_id owner : ℕ) (k key : K) (map : Routes K) (o : Option ℕ)
        → map k ≡ o
        → map key ≡ some owner
        → (owner == conn_id) ≡ false
        → (if owned_by conn_id o then remove k map else map) key ≡ some owner
    remove_kept conn_id owner k key map none free e ne = e
    remove_kept conn_id owner k key map (some taken) held e ne =
        elim (Bool-cases (taken == conn_id)) [
          | inr theirs ↦ rw theirs e
          | inl mine ↦ elim (Bool-cases (same key k)) [
            | inl there ↦
                let q : some owner ≡ some taken = sym e ∙ ap map (same_sound key k there) ∙ held in
                absurd (ground arith)
            | inr other ↦ rw (mine, other) e
          ]
        ]

    call_kept :
        (c : Call) (owner : ℕ) (key : K) (map : Routes K)
        → map key ≡ some owner
        → (owner == caller c) ≡ false
        → call c map key ≡ some owner
    unfolding claim release
    call_kept (claims conn_id k) owner key map e ne =
        insert_kept conn_id owner k key map (map k) refl e ne
    call_kept (releases conn_id k) owner key map e ne =
        remove_kept conn_id owner k key map (map k) refl e ne

    -- With an equality test that is true of equal keys only, a route stays with its owner through any
    -- sequence of claims and releases, of any routes, by other connections.
    pub calls_kept :
        (cs : List Call) (owner : ℕ) (key : K) (map : Routes K)
        → map key ≡ some owner
        → All (λ c. (owner == caller c) ≡ false) cs
        → calls cs map key ≡ some owner
    calls_kept [] owner key map e others = e
    calls_kept (c ∷ cs) owner key map e others =
        calls_kept cs owner key (call c map) (call_kept c owner key map e others.0) others.1

  module _ (refl_same : (key : K) → same key key ≡ true) where
    claim_at_cases :
        (conn_id : ℕ) (key : K) (map : Routes K) (o : Option ℕ)
        → map key ≡ o
        → Claimed conn_id key map (claim_at conn_id key o map)
    claim_at_cases conn_id key map none e = (rw (refl_same key), inl e)
    claim_at_cases conn_id key map (some owner) e = elim (Bool-cases (owner == conn_id)) [
      | inl mine ↦ rw mine (rw (refl_same key), inr (rw ((==_iff owner conn_id).0 mine) at e))
      | inr other ↦ rw other (refl, (owner, e, other))
    ]

    -- A route has one owner: a claim succeeds exactly if the route is free or already the caller's.
    pub claim_cases :
        (conn_id : ℕ) (key : K) (map : Routes K) → Claimed conn_id key map (claim conn_id key map)
    unfolding claim
    claim_cases conn_id key map = claim_at_cases conn_id key map (map key) refl

    -- After the owner's release, and after a forced one whoever the owner is, any connection can
    -- claim the route.
    pub released_claim :
        (conn_id owner : ℕ) (key : K) (map : Routes K)
        → map key ≡ some owner
        → ((claim conn_id key (release owner key map)).1 ≡ true)
          × ((claim conn_id key (force_release key map)).1 ≡ true)
    unfolding claim release force_release
    released_claim conn_id owner key map e =
        let mine : (owner == owner) ≡ true = (==_iff owner owner).1 refl in
        (rw (e, mine, refl_same key), rw (refl_same key))
