-- ===== src/Amf/Amf0/Utf8.antt =====
-- `String::from_utf8`, which src/amf/amf0.rs calls: the well-formed byte sequences of UTF-8.
use librtmp.Common.{
  ℕ, zero, suc, Bool, true, false, ◌&&◌, Option, none, some, List, [], ◌∷◌, ltb, leb, ◌==◌,
  if◌then◌else◌,
}

abbrev in_range : ℕ → ℕ → ℕ → Bool
in_range lo hi b = leb lo b && leb b hi

-- The range of the second byte behind the lead byte `b`, and how many follow that one.
second_range : ℕ → Option (ℕ × ℕ × ℕ)
second_range b =
    if in_range 0xC2 0xDF b
    then some (0x80, 0xBF, 0)
    else if b == 0xE0
    then some (0xA0, 0xBF, 1)
    else if b == 0xED
    then some (0x80, 0x9F, 1)
    else if in_range 0xE1 0xEF b
    then some (0x80, 0xBF, 1)
    else if b == 0xF0
    then some (0x90, 0xBF, 2)
    else if in_range 0xF1 0xF3 b
    then some (0x80, 0xBF, 2)
    else if b == 0xF4
    then some (0x80, 0x8F, 2)
    else none

-- The range that the next byte must lie in, with the number of continuation bytes behind it;
-- `none` between characters.
abbrev Pending : Type 0
Pending = Option (ℕ × ℕ × ℕ)

advance : Pending → ℕ → Option Pending
unfolding second_range
advance none b =
    if ltb b 0x80
    then some none
    else (elim (second_range b) [ none ↦ none | some r ↦ some (some r) ])
advance (some (lo, hi, more)) b =
    if in_range lo hi b
    then (elim more [ zero ↦ some none | suc n ↦ some (some (0x80, 0xBF, n)) ])
    else none

unfoldable pub scan_utf8 : Pending → List ℕ → Bool
unfolding advance
scan_utf8 none [] = true
scan_utf8 (some r) [] = false
scan_utf8 p (b ∷ bs) = elim (advance p b) [ none ↦ false | some q ↦ scan_utf8 q bs ]

unfoldable pub from_utf8 : List ℕ → Option (List ℕ)
unfolding scan_utf8
from_utf8 bytes = if scan_utf8 none bytes then some bytes else none
