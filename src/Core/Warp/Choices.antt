-- ===== src/Core/Warp/Choices.antt =====
-- core/warp.go: choices among texts, addresses and bytes that are made again.
use zicnode.Prelude.{
  ℕ, String, List, [], ◌∷◌, ◌≡◌, ◌≢◌, refl, ◌∙◌, arith, inl, inr, Bool-cases, if◌then◌else◌, ◌==◌,
  str_iff, string_key, trim_space, trim_space_twice,
}
use zicnode.Core.Warp.{
  AreBytes, first_non_empty, clean_string_list, byte_slice_to_ints, ints_to_byte_slice,
  is_default_warp_addresses,
}
use zicnode.Core.Warp.Normal.{AreTrimmed, clean_string_list_of_AreTrimmed}
use zicnode.Core.Warp.Response.{or_bytes, choose_addresses}
use zicnode.Core.Warp.Bytes.{ints_to_byte_slice-byte_slice_to_ints}

-- The first text that is not empty is trimmed.
pub first_non_empty_trimmed :
    (xs : List String) → trim_space (first_non_empty xs) ≡ first_non_empty xs
unfolding first_non_empty trim_space
first_non_empty_trimmed [] = refl
first_non_empty_trimmed (x ∷ xs) = elim (Bool-cases (trim_space x == "")) [
  | inl e ↦ rw e (first_non_empty_trimmed xs)
  | inr e ↦ rw e (trim_space_twice x)
]

second_choice :
    (x r : String) (zs : List String)
    → trim_space r ≡ r
    → r ≢ ""
    → first_non_empty (x ∷ r ∷ zs) ≡ (if trim_space x == "" then r else trim_space x)
unfolding first_non_empty
second_choice x r zs h k = rw h (ground (arith, str_iff r ""))

-- A choice that is made again with the first choice in place of the alternatives.
pub first_non_empty_again :
    (x : String) (ys zs : List String)
    → first_non_empty (x ∷ ys) ≢ ""
    → first_non_empty (x ∷ first_non_empty (x ∷ ys) ∷ zs) ≡ first_non_empty (x ∷ ys)
unfolding first_non_empty
first_non_empty_again x ys zs h =
    second_choice x (first_non_empty (x ∷ ys)) zs (first_non_empty_trimmed (x ∷ ys)) h
    ∙ elim (Bool-cases (trim_space x == "")) [ inl e ↦ rw e refl | inr e ↦ rw e refl ]

choose_same : (own : List String) → choose_addresses own own ≡ own
choose_same [] = refl
choose_same (x ∷ own) = ground arith

pub choose_addresses_again :
    (xs own : List String)
    → AreTrimmed xs
    → AreTrimmed own
    → choose_addresses (clean_string_list (choose_addresses xs own)) own ≡ choose_addresses xs own
choose_addresses_again [] own h k = rw (clean_string_list_of_AreTrimmed own k) (choose_same own)
choose_addresses_again (x ∷ xs) own h k = elim (Bool-cases (is_default_warp_addresses own)) [
  | inl e ↦ rw (e, clean_string_list_of_AreTrimmed (x ∷ xs) h) (rw e refl)
  | inr e ↦ rw (e, clean_string_list_of_AreTrimmed own k) (choose_same own)
]

pub or_bytes_again :
    (own xs : List ℕ)
    → AreBytes xs
    → or_bytes own (ints_to_byte_slice (byte_slice_to_ints (or_bytes own xs))) ≡ or_bytes own xs
or_bytes_again [] xs h = ints_to_byte_slice-byte_slice_to_ints xs h
or_bytes_again (x ∷ own) xs h = refl
