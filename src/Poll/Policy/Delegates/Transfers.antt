-- ===== src/Poll/Policy/Delegates/Transfers.antt =====
-- What the check of a transfer guarantees, and that every vote goes to exactly one user.
use voteit.Prelude.{
  ℕ, suc, ◌≡◌, ◌≢◌, refl, Bool, true, false, ◌&&◌, ◌||◌, not, none, some, List, [], ◌∷◌, ◌==◌,
  nat_eq, member, every, remove, distinct, length, arith, keys, Bool-cases, inl, inr, ap, ◌∙◌,
}
use voteit.Poll.Register.{VoteTransfer}
use voteit.Poll.Policy.{one_each}
use voteit.Poll.Policy.Delegates.{
  Membership, check, involved, is_main, common_group, add_user, main_users, transfer_all, effective,
  delegated_voters,
}

abbrev pub sources : List VoteTransfer → List ℕ
sources [] = []
sources (t ∷ ts) = t.source ∷ sources ts

abbrev pub targets : List VoteTransfer → List ℕ
targets [] = []
targets (t ∷ ts) = t.target ∷ targets ts

-- Sources are main members, targets are none, and nobody gives two votes away or is given two.
abbrev pub sound : List Membership → List VoteTransfer → Bool
sound ms ts =
    distinct (sources ts)
    && distinct (targets ts)
    && every (λ u. is_main u ms) (sources ts)
    && every (λ u. not (is_main u ms)) (targets ts)

involved-target :
    (u : ℕ) (ts : List VoteTransfer)
    → involved u ts ≡ (member u (targets ts) || member u (sources ts))
involved-target u [] = refl
involved-target u (t ∷ ts) = ground (arith, involved-target u ts)

common_group-main :
    (s t : ℕ) (ms all : List Membership) → common_group s t ms all ≡ true → is_main s ms ≡ true
common_group-main s t [] all h = h
common_group-main s t (m ∷ ms) all h = ground (arith, common_group-main s t ms all)

-- A transfer that passes the check keeps the transfers sound, where its source gives no vote away yet.
pub check_keeps_sound :
    (t : VoteTransfer) (ms : List Membership) (ts : List VoteTransfer)
    → sound ms ts ≡ true
    → member t.source (sources ts) ≡ false
    → check t.source t.target ms ts ≡ none
    → sound ms (t ∷ ts) ≡ true
unfolding check
check_keeps_sound t ms ts s first passed =
    ground (arith, involved-target t.target ts, common_group-main t.source t.target ms ms)

member-main_users : (u : ℕ) (ms : List Membership) → member u (main_users ms) ≡ is_main u ms
member-main_users u [] = refl
member-main_users u (m ∷ ms) = ground (arith, member-main_users u ms)

distinct-main_users : (ms : List Membership) → distinct (main_users ms) ≡ true
distinct-main_users [] = refl
distinct-main_users (m ∷ ms) = ground (arith, distinct-main_users ms)

length-remove : (u : ℕ) (us : List ℕ) → member u us ≡ true → suc (length (remove u us)) ≡ length us
length-remove u [] h = absurd (ground arith)
length-remove u (v ∷ vs) h = ground (arith, length-remove u vs)

member-remove_other : (u k : ℕ) (us : List ℕ) → k ≢ u → member k (remove u us) ≡ member k us
member-remove_other u k [] other = refl
member-remove_other u k (v ∷ vs) other = ground (arith, member-remove_other u k vs)

member-remove_self : (u : ℕ) (us : List ℕ) → distinct us ≡ true → member u (remove u us) ≡ false
member-remove_self u [] d = refl
member-remove_self u (v ∷ vs) d = ground (arith, member-remove_self u vs)

distinct-remove : (u : ℕ) (us : List ℕ) → distinct us ≡ true → distinct (remove u us) ≡ true
distinct-remove u [] d = refl
distinct-remove u (v ∷ vs) d = ground (arith, distinct-remove u vs, member-remove_other u v vs)

-- The state of the loop: voters and the transfers still to be made.
abbrev ready : List ℕ → List VoteTransfer → Bool
ready voters ts =
    distinct voters
    && distinct (sources ts)
    && distinct (targets ts)
    && every (λ u. member u voters) (sources ts)
    && every (λ u. not (member u voters)) (targets ts)

abbrev moved : VoteTransfer → List ℕ → List ℕ
moved t voters = remove t.source (add_user t.target voters)

member-moved :
    (t : VoteTransfer) (voters : List ℕ) (k : ℕ)
    → distinct voters ≡ true
    → member t.source voters ≡ true
    → member t.target voters ≡ false
    → member k (moved t voters) ≡ (not (k == t.source) && (t.target == k || member k voters))
member-moved t voters k d s n = elim (Bool-cases (k == t.source)) [
  | inl same ↦ ground (arith, member-remove_self t.source (t.target ∷ voters))
  | inr other ↦ ground (arith, member-remove_other t.source k (t.target ∷ voters))
]

still_in :
    (t : VoteTransfer) (voters us : List ℕ)
    → distinct voters ≡ true
    → member t.source voters ≡ true
    → member t.target voters ≡ false
    → member t.source us ≡ false
    → every (λ u. member u voters) us ≡ true
    → every (λ u. member u (moved t voters)) us ≡ true
still_in t voters [] d s n out h = refl
still_in t voters (u ∷ us) d s n out h =
    ground (arith, still_in t voters us, member-moved t voters u d s n)

still_out :
    (t : VoteTransfer) (voters us : List ℕ)
    → distinct voters ≡ true
    → member t.source voters ≡ true
    → member t.target voters ≡ false
    → member t.target us ≡ false
    → every (λ u. not (member u voters)) us ≡ true
    → every (λ u. not (member u (moved t voters))) us ≡ true
still_out t voters [] d s n out h = refl
still_out t voters (u ∷ us) d s n out h =
    ground (arith, still_out t voters us, member-moved t voters u d s n)

ready-moved :
    (t : VoteTransfer) (ts : List VoteTransfer) (voters : List ℕ)
    → ready voters (t ∷ ts) ≡ true
    → ready (moved t voters) ts ≡ true
ready-moved t ts voters h = ground (
  arith,
  distinct-remove t.source (t.target ∷ voters),
  still_in t voters (sources ts),
  still_out t voters (targets ts),
)

outsider :
    (k : ℕ) (voters us : List ℕ)
    → every (λ u. member u voters) us ≡ true
    → member k voters ≡ false
    → member k us ≡ false
outsider k voters [] h out = refl
outsider k voters (u ∷ us) h out = ground (arith, outsider k voters us)

transfer_all-ready :
    (k : ℕ) (ts : List VoteTransfer) (voters : List ℕ)
    → ready voters ts ≡ true
    → (us : List ℕ) × (transfer_all ts voters ≡ some us)
      × (length us ≡ length voters)
      × (distinct us ≡ true)
      × (member k us ≡ ((member k voters && not (member k (sources ts))) || member k (targets ts)))
transfer_all-ready k [] voters h = (voters, refl, refl, ground arith, ground arith)
transfer_all-ready k (t ∷ ts) voters h =
    let (us, done, len, d, mem) =
      transfer_all-ready k ts (moved t voters) (ready-moved t ts voters h) in
    (
      us,
      ground arith,
      ground (arith, length-remove t.source (t.target ∷ voters)),
      d,
      ground (arith, mem, member-moved t voters k, outsider t.target voters (sources ts)),
    )

effective-sources :
    (voters : List ℕ) (ts : List VoteTransfer)
    → every (λ u. member u voters) (sources ts) ≡ true
    → effective voters ts ≡ ts
effective-sources voters [] h = refl
effective-sources voters (t ∷ ts) h = ground (arith, effective-sources voters ts)

every-main :
    (ms : List Membership) (us : List ℕ)
    → every (λ u. member u (main_users ms)) us ≡ every (λ u. is_main u ms) us
every-main ms [] = refl
every-main ms (u ∷ us) = ground (arith, every-main ms us, member-main_users u ms)

every-not_main :
    (ms : List Membership) (us : List ℕ)
    → every (λ u. not (member u (main_users ms))) us ≡ every (λ u. not (is_main u ms)) us
every-not_main ms [] = refl
every-not_main ms (u ∷ us) = ground (arith, every-not_main ms us, member-main_users u ms)

length-one_each : (us : List ℕ) → length (one_each us) ≡ length us
length-one_each [] = refl
length-one_each (u ∷ us) = ground (arith, length-one_each us)

keys-one_each : (us : List ℕ) → keys (one_each us) ≡ us
keys-one_each [] = refl
keys-one_each (u ∷ us) = ap (λ (vs : List ℕ). u ∷ vs) (keys-one_each us)

opened :
    (ms : List Membership) (ts : List VoteTransfer) (us : List ℕ)
    → effective (main_users ms) ts ≡ ts
    → transfer_all ts (main_users ms) ≡ some us
    → delegated_voters ms ts ≡ some (one_each us)
unfolding delegated_voters
opened ms ts us all done =
    ground (arith, ap (λ (xs : List VoteTransfer). transfer_all xs (main_users ms)) all)

-- With sound transfers the voters are found without an exception, are as many as there are users with
-- the role main, each once, and are the main members who gave no vote away and the targets of the
-- transfers.
pub delegated_voters_lem :
    (k : ℕ) (ms : List Membership) (ts : List VoteTransfer)
    → sound ms ts ≡ true
    → (voters : List (ℕ × ℕ)) × (delegated_voters ms ts ≡ some voters)
      × (length voters ≡ length (main_users ms))
      × (distinct (keys voters) ≡ true)
      × (member k (keys voters)
          ≡ ((is_main k ms && not (member k (sources ts))) || member k (targets ts)))
delegated_voters_lem k ms ts s =
    let start : ready (main_users ms) ts ≡ true =
      ground (
        arith,
        distinct-main_users ms,
        every-main ms (sources ts),
        every-not_main ms (targets ts),
      ) in
    let all : effective (main_users ms) ts ≡ ts =
      effective-sources (main_users ms) ts (ground arith) in
    let (us, done, len, d, mem) = transfer_all-ready k ts (main_users ms) start in
    (
      one_each us,
      opened ms ts us all done,
      length-one_each us ∙ len,
      rw (keys-one_each us) d,
      rw (keys-one_each us, mem, member-main_users k ms) refl,
    )
