-- ===== src/Merger/Registers.antt =====
-- Electoral registers after a merge.
use voteit.Prelude.{
  ℕ, ◌+◌, ◌≡◌, refl, sym, ap, ◌∙◌, true, false, Option, none, some, [], ◌∷◌, ◌++◌, ◌==◌, ==_iff,
  if◌then◌else◌, member, get, keys, values_sum, length, length-append, distinct, nat_eq, Bool-cases,
  Option-cases, inl, inr, arith,
}
use voteit.Merger.{VoterData, without, move_voter, has_key, merge_register}

-- `get_total_vote_weight` and the number of voters
abbrev pub size : VoterData → ℕ × ℕ
size d = (values_sum d, length d)

values_sum-append : (d : VoterData) (k n : ℕ) → values_sum (d ++ (k, n) ∷ []) ≡ values_sum d + n
values_sum-append [] k n = omega arith
values_sum-append ((j, m) ∷ d) k n = ground (arith, values_sum-append d k n)

values_sum-without :
    (k n : ℕ) (d : VoterData) → get k d ≡ some n → values_sum (without k d) + n ≡ values_sum d
values_sum-without k n [] h = cc
values_sum-without k n ((j, m) ∷ d) h = ground (arith, values_sum-without k n d)

length-without : (k n : ℕ) (d : VoterData) → get k d ≡ some n → length (without k d) + 1 ≡ length d
length-without k n [] h = cc
length-without k n ((j, m) ∷ d) h = ground (arith, length-without k n d)

get-without_other : (k j : ℕ) (d : VoterData) → (k == j) ≡ false → get j (without k d) ≡ get j d
get-without_other k j [] h = refl
get-without_other k j ((i, m) ∷ d) h = ground (arith, get-without_other k j d)

get-absent : (k : ℕ) (d : VoterData) → member k (keys d) ≡ false → get k d ≡ none
get-absent k [] h = refl
get-absent k ((j, m) ∷ d) h = ground (arith, get-absent k d)

get-present : (k : ℕ) (d : VoterData) → get k d ≡ none → member k (keys d) ≡ false
get-present k [] h = refl
get-present k ((j, m) ∷ d) h = ground (arith, get-present k d)

get-without_self : (k : ℕ) (d : VoterData) → distinct (keys d) ≡ true → get k (without k d) ≡ none
get-without_self k [] h = refl
get-without_self k ((j, m) ∷ d) h = ground (arith, get-without_self k d, get-absent k d)

get-append :
    (k j n : ℕ) (d : VoterData)
    → get j (d ++ (k, n) ∷ [])
      ≡ (elim (get j d) [ some m ↦ some m | none ↦ if k == j then some n else none ])
get-append k j n [] = ground arith
get-append k j n ((i, m) ∷ d) = ground (arith, get-append k j n d)

-- the weights where the key of the source is now that of the target
abbrev pub renamed : ℕ → ℕ → VoterData → ℕ → Option ℕ
renamed source target d j =
    if j == target then get source d else if j == source then none else get j d

moved_size :
    (source target n : ℕ) (d : VoterData)
    → get source d ≡ some n
    → size (without source d ++ (target, n) ∷ []) ≡ size d
moved_size source target n d e =
    let summed : values_sum (without source d ++ (target, n) ∷ []) ≡ values_sum d =
      values_sum-append (without source d) target n ∙ values_sum-without source n d e in
    let counted : length (without source d ++ (target, n) ∷ []) ≡ length d =
      length-append (without source d) ((target, n) ∷ []) ∙ length-without source n d e in
    λ i. (summed i, counted i)

moved_get :
    (source target n j : ℕ) (d : VoterData)
    → (source == target) ≡ false
    → distinct (keys d) ≡ true
    → get target d ≡ none
    → get source d ≡ some n
    → get j (without source d ++ (target, n) ∷ []) ≡ renamed source target d j
moved_get source target n j d t u a e =
    get-append target j n (without source d) ∙ elim (Bool-cases (source == j)) [
      | inl self ↦
          let gone : get j (without source d) ≡ none =
            ap (λ k. get k (without source d)) (sym ((==_iff source j).0 self))
            ∙ get-without_self source d u in
          rw gone (ground arith)
      | inr other ↦ elim (Bool-cases (target == j)) [
        | inl goal ↦
            let new : get j (without source d) ≡ none =
              get-without_other source j d other
              ∙ ap (λ k. get k d) (sym ((==_iff target j).0 goal))
              ∙ a in
            rw new (ground arith)
        | inr third ↦ ground (arith, get-without_other source j d other)
      ]
    ]

-- For a register in which no voter is twice, and two different users: a merge keeps the number of voters
-- and the sum of the weights. If the target was a voter already nothing changes; otherwise the weight of
-- the source, if it is a voter, is that of the target, the source is no voter, and the others keep their
-- weights.
pub merge_register_lem :
    (source target pk : ℕ) (d : VoterData) (j : ℕ)
    → (source == target) ≡ false
    → distinct (keys d) ≡ true
    → (size (merge_register false source target pk d) ≡ size d)
      × (get j (merge_register false source target pk d)
          ≡ (if has_key target d then get j d else renamed source target d j))
unfolding move_voter
merge_register_lem source target pk d j t u = elim (Bool-cases (has_key target d)) [
  | inl voter ↦ rw voter (ground arith)
  | inr new ↦ elim (Option-cases (get source d)) [
    | inl none_there ↦
        let absent = get-present source d none_there in
        rw (absent, new) (refl, ground (arith, get-absent target d new, none_there))
    | inr (n, e) ↦ elim (Bool-cases (has_key source d)) [
      | inl there ↦
          let made : merge_register false source target pk d
              ≡ without source d ++ (target, n) ∷ [] =
            rw (there, new, e, move_voter) refl in
          (
            ap size made ∙ moved_size source target n d e,
            ap (λ c. get j c) made
                ∙ moved_get source target n j d t u (get-absent target d new) e
                ∙ rw new refl,
          )
      | inr gone ↦ absurd (ground (arith, get-absent source d gone))
    ]
  ]
]
