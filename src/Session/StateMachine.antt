-- ===== src/Session/StateMachine.antt =====
-- src/session/state_machine.rs: the transitions of a connection.
use librtmp.Common.{
  ℕ, ◌≤◌, ◌<◌, ◌≡◌, refl, ap, Bool, true, false, not, ◌&&◌, arith, ltb, if◌then◌else◌, List, [],
  ◌∷◌,
}
use librtmp.Common.Result.{Result, ok, err, ErrorCode, M}

pub data ConnState : Type 0 where
  tcp_accepted handshake connected caps_negotiated app_connected stream_created publishing playing
        closing closed :
      ConnState

-- The order that `PartialOrd` derives.
abbrev pub rank : ConnState → ℕ
rank tcp_accepted = 0
rank handshake = 1
rank connected = 2
rank caps_negotiated = 3
rank app_connected = 4
rank stream_created = 5
rank publishing = 6
rank playing = 7
rank closing = 8
rank closed = 9

abbrev pub peer_role_switch : ConnState → ConnState → Bool
peer_role_switch playing publishing = true
peer_role_switch publishing playing = true
peer_role_switch current new_state = false

unfoldable pub conn_transition : ConnState → M ConnState (Unit {0})
conn_transition new_state current =
    if not (peer_role_switch current new_state) && ltb (rank new_state) (rank current)
    then (current, err ErrorCode.protocol)
    else (new_state, ok tt)

-- The phase of a connection: the two peer roles are one phase.
abbrev pub phase : ConnState → ℕ
phase publishing = 7
phase s = rank s

-- What a call does: it enters the new state, or it fails and stays.
abbrev pub Moves : ConnState → ConnState → ConnState × Result (Unit {0}) → Type 0
Moves current new_state (s, ok u) = (s ≡ new_state) × (phase current ≤ phase new_state)
Moves current new_state (s, err e) =
    (s ≡ current) × (e ≡ ErrorCode.protocol) × (phase new_state < phase current)

-- A test on all states.
abbrev all_states : (ConnState → Bool) → Bool
all_states f =
    f tcp_accepted
    && (f handshake
        && (f connected
            && (f caps_negotiated
                && (f app_connected
                    && (f stream_created
                        && (f publishing && (f playing && (f closing && f closed))))))))

all_states_sound : (f : ConnState → Bool) → all_states f ≡ true → (s : ConnState) → f s ≡ true
all_states_sound f e tcp_accepted = ground arith
all_states_sound f e handshake = ground arith
all_states_sound f e connected = ground arith
all_states_sound f e caps_negotiated = ground arith
all_states_sound f e app_connected = ground arith
all_states_sound f e stream_created = ground arith
all_states_sound f e publishing = ground arith
all_states_sound f e playing = ground arith
all_states_sound f e closing = ground arith
all_states_sound f e closed = ground arith

abbrev refuses : ConnState → ConnState → Bool
refuses current new_state =
    not (peer_role_switch current new_state) && ltb (rank new_state) (rank current)

abbrev back : ConnState → ConnState → Bool
back current new_state = ltb (phase new_state) (phase current)

-- The code's test is the test on phases.
refuses_lem :
    (current new_state : ConnState)
    → ((if refuses current new_state then back current new_state else not (back current new_state))
        ≡ true)
refuses_lem current =
    all_states_sound (λ t. if refuses current t then back current t else not (back current t))
      (all_states_sound (λ s. all_states (λ t. if refuses s t then back s t else not (back s t)))
        refl current)

refuses-Moves :
    (current new_state : ConnState) (b : Bool)
    → refuses current new_state ≡ b
    → (if b then back current new_state else not (back current new_state)) ≡ true
    → Moves current new_state (if b then (current, err ErrorCode.protocol) else (new_state, ok tt))
refuses-Moves current new_state true e h = (refl, refl, ground arith)
refuses-Moves current new_state false e h = (refl, ground arith)

-- A transition succeeds exactly if it does not go back to an earlier phase, where publishing and
-- playing are one phase; a call that fails leaves the state as it was.
pub conn_transition_cases :
    (current new_state : ConnState) → Moves current new_state (conn_transition new_state current)
unfolding conn_transition
conn_transition_cases current new_state =
    refuses-Moves current new_state (refuses current new_state) refl (refuses_lem current new_state)

-- Calls in any order, failed ones included.
pub transitions : List ConnState → ConnState → ConnState
transitions [] s = s
transitions (t ∷ ts) s = transitions ts (conn_transition t s).0

-- A connection never comes back to an earlier phase; once closed it stays closed.
pub transitions_forward : (ts : List ConnState) (s : ConnState) → phase s ≤ phase (transitions ts s)
unfolding transitions
transitions_forward [] s = omega arith
transitions_forward (t ∷ ts) s =
    let rest = transitions_forward ts (conn_transition t s).0 in
    of_move (conn_transition t s) (conn_transition_cases s t) rest
  where
    of_move :
        (r : ConnState × Result (Unit {0}))
        → Moves s t r
        → phase r.0 ≤ phase (transitions ts r.0)
        → phase s ≤ phase (transitions ts r.0)
    of_move (u, ok x) (e, le) rest = omega (arith, ap phase e)
    of_move (u, err x) (e, k, lt) rest = omega (arith, ap phase e)
