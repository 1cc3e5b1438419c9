-- ===== src/Dispatcher/Sniff.antt =====
-- core/app/dispatcher/sniffer.go, and `sniffer` and `cachedReader.Cache` of default.go: which
-- protocol a connection speaks. The sniffers of the single protocols are parameters: a `Sniffer` is
-- a function of the payload.
pub mod Ends
use zicnode.Prelude.{
  ℕ, suc, ◌+◌, ◌-◌, Bool, true, false, not, ◌&&◌, ◌||◌, Option, none, some, List, [], ◌∷◌, ◌++◌,
  leb, if◌then◌else◌,
}

pub data Network : Type 0 where
  tcp udp : Network

unfoldable pub same_network : Network → Network → Bool
same_network tcp tcp = true
same_network udp udp = true
same_network _ _ = false

-- The errors that are told apart; `other` is every other error.
pub data SniffError : Type 0 where
  no_clue need_more_data unknown_content sniffing_timeout other : SniffError

-- A pair of result and error; `nothing` is (nil, nil).
pub data Sniffed {ℓ} (R : Type ℓ) : Type ℓ where
  found : R → Sniffed R
  nothing : Sniffed R
  fails : SniffError → Sniffed R

-- What `Sniff` and the rest return: a result, which is never nil, or an error.
pub data Answer {ℓ} (R : Type ℓ) : Type ℓ where
  sniffed : R → Answer R
  failed : SniffError → Answer R

pub record ProtocolSniffer {ℓ κ} (P : Type ℓ) (R : Type κ) : Type (ℓ ⊔ κ) where
  pub protocol_sniffer : P → Sniffed R
  pub metadata_sniffer : Bool
  pub network : Network

-- One call of `Cache`: it fails, or takes some nanoseconds and leaves a payload, `none` if it is
-- empty.
pub data Round {ℓ} (P : Type ℓ) : Type ℓ where
  cancelled cache_fails : Round P
  cached : ℕ → Option P → Round P

-- What one round does: an end, or the next deadline, attempts and sniffers. The deadline is in
-- nanoseconds and stops at 0, where the code ends too.
pub data Stepped {ℓ κ} (P : Type ℓ) (R : Type κ) : Type (ℓ ⊔ κ) where
  ends : Answer R → Stepped P R
  again : ℕ → ℕ → List (ProtocolSniffer P R) → Stepped P R

-- 200 milliseconds
abbrev pub cache_deadline : ℕ
cache_deadline = 200000000

unfoldable pub combine {ℓ} : {R : Type ℓ} → (R → R → R) → Answer R → Answer R → Answer R
combine composite (failed _) content = content
combine composite (sniffed m) (failed _) = sniffed m
combine composite (sniffed m) (sniffed c) = sniffed (composite m c)

module _ {ℓ κ} {P : Type ℓ} {R : Type κ} where
  -- What a loop over the sniffers ends with: the pending ones, and a result.
  unfoldable pub sniff_loop :
      P
      → Network
      → List (ProtocolSniffer P R)
      → List (ProtocolSniffer P R)
      → List (ProtocolSniffer P R) × Option R
  sniff_loop payload network [] pending = (pending, none)
  sniff_loop payload network (si ∷ rest) pending =
      let skipped = sniff_loop payload network rest pending in
      let waiting = sniff_loop payload network rest (pending ++ si ∷ []) in
      if si.metadata_sniffer || not (same_network si.network network)
      then skipped
      else elim (si.protocol_sniffer payload) [
        | found r ↦ (pending, some r)
        | nothing ↦ skipped
        | fails e ↦ elim e [ no_clue ↦ waiting | _ ↦ skipped ]
      ]

  unfoldable pub metadata_loop :
      P
      → List (ProtocolSniffer P R)
      → List (ProtocolSniffer P R)
      → List (ProtocolSniffer P R) × Option R
  metadata_loop empty [] pending = (pending, none)
  metadata_loop empty (si ∷ rest) pending =
      let skipped = metadata_loop empty rest pending in
      let waiting = metadata_loop empty rest (pending ++ si ∷ []) in
      if not si.metadata_sniffer then waiting else elim (si.protocol_sniffer empty) [
        | found r ↦ (pending, some r)
        | nothing ↦ skipped
        | fails e ↦ elim e [ no_clue ↦ waiting | _ ↦ skipped ]
      ]

  -- After the loop: the sniffers of the `Sniffer`, and the answer.
  unfoldable pub answer_loop :
      List (ProtocolSniffer P R)
      → List (ProtocolSniffer P R) × Option R
      → List (ProtocolSniffer P R) × Answer R
  answer_loop before (pending, some r) = (before, sniffed r)
  answer_loop before ([], none) = (before, failed unknown_content)
  answer_loop before (si ∷ pending, none) = (si ∷ pending, failed no_clue)

  unfoldable pub sniff :
      P → Network → List (ProtocolSniffer P R) → List (ProtocolSniffer P R) × Answer R
  unfolding sniff_loop answer_loop
  sniff payload network sniffers = answer_loop sniffers (sniff_loop payload network sniffers [])

  -- `empty` is the nil payload.
  unfoldable pub sniff_metadata :
      P → List (ProtocolSniffer P R) → List (ProtocolSniffer P R) × Answer R
  unfolding metadata_loop answer_loop
  sniff_metadata empty sniffers = answer_loop sniffers (metadata_loop empty sniffers [])

  -- totalAttempt >= 2 || cacheDeadline <= 0
  unfoldable pub continue_or_stop : ℕ → ℕ → List (ProtocolSniffer P R) → Stepped P R
  continue_or_stop deadline attempts sniffers =
      if leb 2 attempts || leb deadline 0
      then ends (failed sniffing_timeout)
      else again deadline attempts sniffers

  unfoldable pub round : Network → Round P → ℕ → ℕ → List (ProtocolSniffer P R) → Stepped P R
  unfolding continue_or_stop
  round network r deadline attempts sniffers = elim r [
    | cancelled ↦ ends (failed other)
    | cache_fails ↦ ends (failed other)
    | cached elapsed payload ↦
        let left = deadline - elapsed in
        elim payload [
          | none ↦ continue_or_stop left (suc attempts) sniffers
          | some p ↦
              let (sniffers', answer) = sniff p network sniffers in
              elim answer [
                | sniffed x ↦ ends (sniffed x)
                | failed e ↦ elim e [
                  | no_clue ↦ continue_or_stop left (suc attempts) sniffers'
                  | need_more_data ↦ continue_or_stop left attempts sniffers'
                  | unknown_content ↦ ends (failed unknown_content)
                  | sniffing_timeout ↦ ends (failed sniffing_timeout)
                  | other ↦ ends (failed other)
                ]
              ]
        ]
  ]

  -- The loop of `sniffer` over the rounds that are to come, `none` where they run out.
  unfoldable pub sniff_content :
      Network → List (Round P) → ℕ → ℕ → List (ProtocolSniffer P R) → Option (Answer R)
  unfolding round
  sniff_content network [] deadline attempts sniffers = none
  sniff_content network (r ∷ rs) deadline attempts sniffers =
      elim (round network r deadline attempts sniffers) [
        | ends answer ↦ some answer
        | again deadline' attempts' sniffers' ↦
            sniff_content network rs deadline' attempts' sniffers'
      ]

  unfoldable pub sniffer :
      (R → R → R)
      → P
      → Bool
      → Network
      → List (Round P)
      → List (ProtocolSniffer P R)
      → Option (Answer R)
  unfolding sniff_content combine
  sniffer composite empty metadata_only network rounds sniffers =
      let (sniffers', meta) = sniff_metadata empty sniffers in
      if metadata_only
      then some meta
      else elim (sniff_content network rounds cache_deadline 0 sniffers') [
        | none ↦ none
        | some content ↦ some (combine composite meta content)
      ]
