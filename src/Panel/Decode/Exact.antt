-- ===== src/Panel/Decode/Exact.antt =====
-- api/zicboard/node.go and core/warp.go: what the panel's WARP settings are after they are decoded.
use zicnode.Prelude.{
  subst, ℕ, String, Option, some, List, [], ◌∷◌, ℤ, pos, negsuc, ◌≡◌, refl, arith, str_iff,
  string_key, trim_space, trim_space_twice, fields_of, Json, Members, object, field_of,
}
use zicnode.Panel.Config.{WarpSettings}
use zicnode.Panel.Decode.{
  Decoder, flexible_string, flexible_csv_string_slice, flexible_byte_slice, flexible_string_slice,
  trim_parts, split_all, byte_in_front, bytes_of, parse_int_string,
}
use zicnode.Panel.Decode.Records.{unmarshal_warp, read_warp, is_warp_domain_strategy}
use zicnode.Core.Warp.{AreBytes, normalize_warp_settings, valid_warp_domain_strategy}
use zicnode.Core.Warp.Normal.{
  AreTrimmed, IsNormal, strategy_or_default, endpoint_or_default, addresses_or_default,
  normalize_warp_settings-exact,
}

byte_in_front-AreBytes : (n : ℤ) (bs : List ℕ) → AreBytes bs → AreBytes (byte_in_front n bs)
byte_in_front-AreBytes (pos n) bs h = ground arith
byte_in_front-AreBytes (negsuc n) bs h = h

bytes_of-AreBytes : (d : Decoder) (ss : List String) → AreBytes (bytes_of d ss)
bytes_of-AreBytes d [] = tt
bytes_of-AreBytes d (s ∷ ss) =
    byte_in_front-AreBytes (parse_int_string d s) (bytes_of d ss) (bytes_of-AreBytes d ss)

pub flexible_byte_slice-AreBytes :
    (d : Decoder) (raw : Option Json) → AreBytes (flexible_byte_slice d raw)
unfolding flexible_byte_slice
flexible_byte_slice-AreBytes d raw = bytes_of-AreBytes d (flexible_csv_string_slice d raw)

trim_parts-AreTrimmed :
    (parts rest : List String) → AreTrimmed rest → AreTrimmed (trim_parts parts rest)
trim_parts-AreTrimmed [] rest h = h
trim_parts-AreTrimmed (part ∷ parts) rest h =
    ground (
      arith,
      str_iff (trim_space part) "",
      trim_space_twice part,
      trim_parts-AreTrimmed parts rest h,
    )

split_all-AreTrimmed : (ss : List String) → AreTrimmed (split_all ss)
split_all-AreTrimmed [] = tt
split_all-AreTrimmed (s ∷ ss) =
    trim_parts-AreTrimmed (fields_of s) (split_all ss) (split_all-AreTrimmed ss)

flexible_csv_string_slice-AreTrimmed :
    (d : Decoder) (raw : Option Json) → AreTrimmed (flexible_csv_string_slice d raw)
unfolding flexible_csv_string_slice
flexible_csv_string_slice-AreTrimmed d raw = split_all-AreTrimmed (flexible_string_slice d raw)

-- The panel's test and the core's are one.
strategies_agree : (v : String) → is_warp_domain_strategy v ≡ valid_warp_domain_strategy v
unfolding is_warp_domain_strategy valid_warp_domain_strategy
strategies_agree v = refl

read_warp-IsNormal : (d : Decoder) (ms : Members) → IsNormal (read_warp d ms)
unfolding read_warp
read_warp-IsNormal d ms = record {
  mode = ground arith;
  fail_policy = ground arith;
  mtu = ground arith;
  domain_strategy =
      let t = trim_space (flexible_string d (field_of "domain_strategy" ms)) in
      rw (strategies_agree t) (strategy_or_default (valid_warp_domain_strategy t) t refl);
  private_key = trim_space_twice (flexible_string d (field_of "private_key" ms));
  peer_public_key = trim_space_twice (flexible_string d (field_of "peer_public_key" ms));
  endpoint =
      endpoint_or_default (trim_space (flexible_string d (field_of "endpoint" ms)))
        (trim_space_twice (flexible_string d (field_of "endpoint" ms)));
  addresses =
      addresses_or_default (flexible_csv_string_slice d (field_of "addresses" ms))
        (flexible_csv_string_slice-AreTrimmed d (field_of "addresses" ms));
}

read_warp-AreBytes : (d : Decoder) (ms : Members) → AreBytes (read_warp d ms).reserved
unfolding read_warp
read_warp-AreBytes d ms = flexible_byte_slice-AreBytes d (field_of "reserved" ms)

-- The WARP settings that are decoded from an object, whatever it holds, are normal already, so that
-- the core's second normalization leaves them as they are, and their reserved numbers are bytes.
pub unmarshal_warp-normalized :
    (d : Decoder) (ms : Members) (s : WarpSettings)
    → unmarshal_warp d (object ms) ≡ some s
    → (normalize_warp_settings s ≡ s) × AreBytes s.reserved
unfolding unmarshal_warp
unmarshal_warp-normalized d ms s h =
    let e : read_warp d ms ≡ s = ground (arith, h) in
    subst (λ s. (normalize_warp_settings s ≡ s) × AreBytes s.reserved) e
      (
        (normalize_warp_settings-exact (read_warp d ms)).0.1 (read_warp-IsNormal d ms),
        read_warp-AreBytes d ms,
      )
