-- ===== src/Dispatcher/Sniff/Ends.antt =====
-- core/app/dispatcher/sniffer.go and default.go: which sniffer answers, and when sniffing ends.
use zicnode.Prelude.{
  ℕ, suc, Bool, not, ◌&&◌, ◌≡◌, refl, sym, ◌<◌, Option, none, some, List, [], ◌∷◌, ◌++◌, arith, inl,
  inr, ◌⊎◌, if◌then◌else◌,
}
use mathlib.Core.List.{append-nil}
use zicnode.Dispatcher.Sniff.{
  Network, same_network, no_clue, unknown_content, found, nothing, fails, Answer, sniffed, failed,
  ProtocolSniffer, Round, cached, cancelled, cache_fails, Stepped, ends, again, sniff_loop,
  answer_loop, sniff, continue_or_stop, round, sniff_content,
}

append_one {ℓ} :
    {A : Type ℓ} (xs : List A) (y : A) (ys : List A) → (xs ++ y ∷ []) ++ ys ≡ xs ++ y ∷ ys
append_one [] y ys = refl
append_one (x ∷ xs) y ys = ground (arith, append_one xs y ys)

module _ {ℓ κ} {P : Type ℓ} {R : Type κ} (payload : P) (network : Network) where
  abbrev pub applies : ProtocolSniffer P R → Bool
  applies si = not si.metadata_sniffer && same_network si.network network

  -- The result of the first sniffer for this network that has one.
  abbrev pub first_found : List (ProtocolSniffer P R) → Option R
  first_found [] = none
  first_found (si ∷ rest) =
      let later = first_found rest in
      if applies si
      then elim (si.protocol_sniffer payload) [
        | found r ↦ some r
        | nothing ↦ later
        | fails e ↦ later
      ]
      else later

  -- The sniffers for this network that have no clue yet.
  abbrev pub clueless : List (ProtocolSniffer P R) → List (ProtocolSniffer P R)
  clueless [] = []
  clueless (si ∷ rest) =
      let later = clueless rest in
      if applies si
      then elim (si.protocol_sniffer payload) [
        | found r ↦ later
        | nothing ↦ later
        | fails e ↦ elim e [ no_clue ↦ si ∷ later | _ ↦ later ]
      ]
      else later

  sniff_loop-first :
      (sniffers pending : List (ProtocolSniffer P R))
      → (sniff_loop payload network sniffers pending).1 ≡ first_found sniffers
  unfolding sniff_loop
  sniff_loop-first [] pending = refl
  sniff_loop-first (si ∷ rest) pending =
      ground (arith, sniff_loop-first rest pending, sniff_loop-first rest (pending ++ si ∷ []))

  sniff_loop-clueless :
      (sniffers pending : List (ProtocolSniffer P R))
      → first_found sniffers ≡ none
      → (sniff_loop payload network sniffers pending).0 ≡ pending ++ clueless sniffers
  unfolding sniff_loop
  sniff_loop-clueless [] pending h = sym (append-nil pending)
  sniff_loop-clueless (si ∷ rest) pending h = ground (
    arith,
    sniff_loop-clueless rest pending,
    sniff_loop-clueless rest (pending ++ si ∷ []),
    append_one pending si (clueless rest),
  )

  -- `Sniff` answers with the result of the first sniffer for the network that has one. Where none
  -- has, it keeps the sniffers that have no clue yet, and says whether there are any.
  pub sniff-first :
      (sniffers : List (ProtocolSniffer P R))
      → sniff payload network sniffers ≡ elim (first_found sniffers) [
        | some r ↦ (sniffers, sniffed r)
        | none ↦ elim (clueless sniffers) [
          | [] ↦ (sniffers, failed unknown_content)
          | si ∷ rest ↦ (si ∷ rest, failed no_clue)
        ]
      ]
  unfolding sniff answer_loop
  sniff-first sniffers =
      ground (arith, sniff_loop-first sniffers [], sniff_loop-clueless sniffers [])

-- Sniffing ends with the second round at the latest.
module _ {ℓ κ} {P : Type ℓ} {R : Type κ} where
  round-advances :
      (network : Network) (r : Round P) (deadline attempts : ℕ)
      (sniffers : List (ProtocolSniffer P R)) (d a : ℕ) (s : List (ProtocolSniffer P R))
      → round network r deadline attempts sniffers ≡ again d a s
      → (a ≡ suc attempts) × (a < 2)
  unfolding round continue_or_stop
  round-advances network cancelled deadline attempts sniffers d a s h = ground arith
  round-advances network cache_fails deadline attempts sniffers d a s h = ground arith
  round-advances network (cached elapsed none) deadline attempts sniffers d a s h = ground arith
  round-advances network (cached elapsed (some p)) deadline attempts sniffers d a s h =
      ground (arith, sniff-first p network sniffers)

  Stepped-cases :
      (x : Stepped P R)
      → ((answer : Answer R) × (x ≡ ends answer))
        ⊎ ((d : ℕ) × (a : ℕ) × (s : List (ProtocolSniffer P R)) × (x ≡ again d a s))
  Stepped-cases (ends answer) = inl (answer, refl)
  Stepped-cases (again d a s) = inr (d, a, s, refl)

  -- The loop over the content has an answer after two rounds at the latest, whatever the later
  -- rounds are: a sniffer that needs more data is not given the time to read it.
  pub sniff_content-ends :
      (network : Network) (first second : Round P) (rest : List (Round P)) (deadline : ℕ)
      (sniffers : List (ProtocolSniffer P R))
      → (answer : Answer R) × (sniff_content network (first ∷ second ∷ rest) deadline 0 sniffers
          ≡ some answer)
  unfolding sniff_content
  sniff_content-ends network first second rest deadline sniffers =
      elim (Stepped-cases (round network first deadline 0 sniffers)) [
        | inl (answer, e) ↦ (answer, (rw (e, sniff_content) refl))
        | inr (d, a, s, e) ↦ elim (Stepped-cases (round network second d a s)) [
          | inl (answer, e') ↦ (answer, (rw (e, sniff_content, e') refl))
          | inr (d', a', s', e') ↦
              let one = round-advances network first deadline 0 sniffers d a s e in
              let two = round-advances network second d a s d' a' s' e' in
              absurd (omega (arith, one.0, two.0, two.1))
        ]
      ]
