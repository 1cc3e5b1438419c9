-- ===== src/Core/Warp/Bytes.antt =====
-- core/warp.go: the reserved bytes of a runtime are bytes, and a sidecar keeps them.
use zicnode.Prelude.{
  ℕ, true, false, Bool, Option, none, some, List, [], ◌∷◌, ℤ, pos, negsuc, ◌≡◌, refl, arith, Json,
  Members, null, truth, number, string, array, object, String, string_key, items, if◌then◌else◌,
  ◌==◌,
}
use zicnode.Core.Warp.{AreBytes, byte_slice_to_ints, ints_to_byte_slice}
use zicnode.Core.Warp.Base64.{Encoding, AllBytes, decode_string, decode_string-AllBytes}
use zicnode.Core.Warp.Response.{
  or_bytes, three, all_bytes, byte_and, or_nothing, int_from_any, reserved_array, decode_first,
  client_bytes, reserved_from_warp_response, encodings, client_id, entry,
}

-- What is saved is read again.
pub ints_to_byte_slice-byte_slice_to_ints :
    (bs : List ℕ) → AreBytes bs → ints_to_byte_slice (byte_slice_to_ints bs) ≡ bs
ints_to_byte_slice-byte_slice_to_ints [] h = refl
ints_to_byte_slice-byte_slice_to_ints (b ∷ bs) h =
    ground (arith, ints_to_byte_slice-byte_slice_to_ints bs h.1)

pub ints_to_byte_slice-AreBytes : (ns : List ℤ) → AreBytes (ints_to_byte_slice ns)
ints_to_byte_slice-AreBytes [] = tt
ints_to_byte_slice-AreBytes (pos n ∷ ns) = ground (arith, ints_to_byte_slice-AreBytes ns)
ints_to_byte_slice-AreBytes (negsuc n ∷ ns) = ints_to_byte_slice-AreBytes ns

pub or_bytes-AreBytes : (xs ys : List ℕ) → AreBytes xs → AreBytes ys → AreBytes (or_bytes xs ys)
or_bytes-AreBytes [] ys h k = k
or_bytes-AreBytes (x ∷ xs) ys h k = h

byte_and-AllBytes : (n : Option ℤ) (r : Option (List ℕ)) → AllBytes r → AllBytes (byte_and n r)
byte_and-AllBytes (some (pos n)) (some bs) h = ground arith
byte_and-AllBytes (some (pos n)) none h = tt
byte_and-AllBytes (some (negsuc n)) r h = tt
byte_and-AllBytes none r h = tt

all_bytes-AllBytes : (vs : List Json) → AllBytes (all_bytes vs)
all_bytes-AllBytes [] = tt
all_bytes-AllBytes (v ∷ vs) =
    byte_and-AllBytes (int_from_any (some v)) (all_bytes vs) (all_bytes-AllBytes vs)

or_nothing-AreBytes : (r : Option (List ℕ)) → AllBytes r → AreBytes (or_nothing r)
or_nothing-AreBytes none h = tt
or_nothing-AreBytes (some bs) h = h

reserved_array-AreBytes : (v : Option Json) → AreBytes (reserved_array v)
unfolding reserved_array
reserved_array-AreBytes (some (array vs)) =
    or_nothing-AreBytes (all_bytes (items vs)) (all_bytes-AllBytes (items vs))
reserved_array-AreBytes none = tt
reserved_array-AreBytes (some null) = tt
reserved_array-AreBytes (some (truth b)) = tt
reserved_array-AreBytes (some (number n)) = tt
reserved_array-AreBytes (some (string s)) = tt
reserved_array-AreBytes (some (object ms)) = tt

three-AreBytes :
    (r : Option (List ℕ)) (rest : List ℕ) → AllBytes r → AreBytes rest → AreBytes (three r rest)
three-AreBytes (some (a ∷ b ∷ c ∷ bs)) rest h k = ground arith
three-AreBytes none rest h k = k
three-AreBytes (some []) rest h k = k
three-AreBytes (some (a ∷ [])) rest h k = k
three-AreBytes (some (a ∷ b ∷ [])) rest h k = k

decode_first-AreBytes : (es : List Encoding) (s : String) → AreBytes (decode_first es s)
unfolding decode_first
decode_first-AreBytes [] s = tt
decode_first-AreBytes (e ∷ es) s =
    three-AreBytes (decode_string e s) (decode_first es s) (decode_string-AllBytes e s)
      (decode_first-AreBytes es s)

choice-AreBytes : (b : Bool) (xs : List ℕ) → AreBytes xs → AreBytes (if b then [] else xs)
choice-AreBytes true xs h = tt
choice-AreBytes false xs h = h

client_bytes-AreBytes : (id : String) → AreBytes (client_bytes id)
unfolding client_bytes
client_bytes-AreBytes id =
    choice-AreBytes (id == "") (decode_first encodings id) (decode_first-AreBytes encodings id)

pub reserved_from_warp_response-AreBytes :
    (raw config : Option Members) → AreBytes (reserved_from_warp_response raw config)
unfolding reserved_from_warp_response
reserved_from_warp_response-AreBytes raw config =
    or_bytes-AreBytes (reserved_array (entry raw "reserved"))
      (or_bytes (reserved_array (entry config "reserved")) (client_bytes (client_id raw config)))
      (reserved_array-AreBytes (entry raw "reserved"))
      (or_bytes-AreBytes (reserved_array (entry config "reserved"))
        (client_bytes (client_id raw config)) (reserved_array-AreBytes (entry config "reserved"))
        (client_bytes-AreBytes (client_id raw config)))
