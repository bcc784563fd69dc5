-- ===== src/Amf/Amf0/Tests.antt =====
-- src/amf/amf0.rs: the encoder and the decoder on concrete values.
use librtmp.Common.{ℕ, ◌≡◌, refl, true, some, List, [], ◌∷◌, ◌++◌, arith}
use librtmp.Buffer.{Buffer, from_slice, with_capacity}
use librtmp.Buffer.New.{
  from_slice-IsValid, peek-from_slice, with_capacity-IsValid, peek-with_capacity,
}
use librtmp.Amf.Amf0.Value.{
  Value, number, string, object, strict_array, null, nil, cons, done, prop, encode,
}
use librtmp.Amf.Amf0.Read.{read_string_alloc}
use librtmp.Amf.Amf0.Write.{write_string}
use librtmp.Amf.Amf0.Utf8.{from_utf8}
use librtmp.Amf.Amf0.Skip.{skip_value}
use librtmp.Amf.Amf0.RoundTrip.{Returns, RoundTrips, skip_value_takes, string_round_trip}

-- `{"a": [1.0, null], "b": "hi"}`
abbrev sample : Value
sample = object (
    prop (97 ∷ []) (strict_array (cons (number 0x3FF0000000000000) (cons null nil)))
      (prop (98 ∷ []) (string (104 ∷ 105 ∷ [])) done))

abbrev sample_buffer : Buffer
sample_buffer = from_slice (encode sample ++ (7 ∷ []))

skip_value_takes_example : Returns skip_value sample_buffer tt (7 ∷ [])
skip_value_takes_example =
    skip_value_takes sample (7 ∷ []) sample_buffer
      (
        omega arith,
        (omega arith, (omega arith, (omega arith, (tt, tt))), (omega arith, omega arith, tt)),
      )
      (from_slice-IsValid (encode sample ++ (7 ∷ []))) (peek-from_slice (encode sample ++ (7 ∷ [])))

abbrev out : Buffer
out = with_capacity 0

owned_out : out.owned ≡ true
unfolding with_capacity
owned_out = refl

abbrev greeting : List ℕ
greeting = 104 ∷ 0xC3 ∷ 0xA9 ∷ []

greeting_utf8 : from_utf8 greeting ≡ some greeting
unfolding from_utf8
greeting_utf8 = refl

string_round_trip_example :
    RoundTrips (write_string greeting) read_string_alloc greeting (7 ∷ []) out
string_round_trip_example =
    string_round_trip out (with_capacity-IsValid 0) owned_out (peek-with_capacity 0) (7 ∷ [])
      greeting (omega arith) greeting_utf8 (omega arith)
