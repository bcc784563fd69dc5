-- ===== src/Session/Tests.antt =====
-- src/session: the state machine and the routes on concrete calls.
use librtmp.Common.{
  ℕ, List, ◌≤◌, ◌≡◌, refl, Bool, true, some, none, [], ◌∷◌, ◌==◌, ==_iff, if◌then◌else◌,
}
use librtmp.Session.StateMachine.{
  tcp_accepted, publishing, playing, closed, handshake, phase, transitions, transitions_forward,
}
use librtmp.Session.PublishRoute.{
  Routes, claim, release, force_release, Claimed, claim_cases, Call, claims, releases, calls,
  calls_kept, released_claim,
}

transitions_forward_example :
    phase handshake
    ≤ phase (transitions (publishing ∷ tcp_accepted ∷ playing ∷ publishing ∷ closed ∷ []) handshake)
transitions_forward_example =
    transitions_forward (publishing ∷ tcp_accepted ∷ playing ∷ publishing ∷ closed ∷ []) handshake

abbrev same_key : ℕ → ℕ → Bool
same_key a b = a == b

same_key_refl : (key : ℕ) → (key == key) ≡ true
same_key_refl key = (==_iff key key).1 refl

same_key_sound : (a b : ℕ) → same_key a b ≡ true → a ≡ b
same_key_sound a b = (==_iff a b).0

-- The route 5 belongs to connection 1.
abbrev taken : Routes ℕ
taken key = if key == 5 then some 1 else none

claim_cases_example : Claimed ℕ same_key 2 5 taken (claim ℕ same_key 2 5 taken)
claim_cases_example = claim_cases ℕ same_key same_key_refl 2 5 taken

-- Connection 2 claims the route, another one, and releases both.
abbrev rival : List (Call ℕ same_key)
rival = claims 2 5 ∷ claims 2 6 ∷ releases 2 5 ∷ releases 2 6 ∷ []

calls_kept_example : calls ℕ same_key rival taken 5 ≡ some 1
calls_kept_example =
    calls_kept ℕ same_key same_key_sound rival 1 5 taken refl (refl, (refl, (refl, (refl, tt))))

released_claim_example :
    ((claim ℕ same_key 2 5 (release ℕ same_key 1 5 taken)).1 ≡ true)
    × ((claim ℕ same_key 2 5 (force_release ℕ same_key 5 taken)).1 ≡ true)
released_claim_example = released_claim ℕ same_key same_key_refl 2 1 5 taken refl
