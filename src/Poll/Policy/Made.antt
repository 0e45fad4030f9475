-- ===== src/Poll/Policy/Made.antt =====
-- What making and applying a register comes to.
use voteit.Prelude.{
  ℕ, suc, ◌≡◌, refl, Bool, true, false, ◌||◌, not, Option, none, some, List, [], ◌∷◌, ◌==◌,
  distinct, nat_eq, keys, member, select, arith, Option-cases, inl, inr, ◌⊎◌, sym,
}
use voteit.Poll.Register.{Register, set_voters_from_dict}
use voteit.Poll.Policy.{
  Meeting, Policy, Failure, Outcome, made, failed, latest, within, dict_eq, is_nil, new_er_needed,
  cleanup_unused_ers, create_er, apply,
}

within_skip :
    (k v : ℕ) (a b : List (ℕ × ℕ))
    → member k (keys a) ≡ false
    → within a b ≡ true
    → within a ((k, v) ∷ b) ≡ true
within_skip k v [] b h w = refl
within_skip k v ((j, x) ∷ a) b h w = ground (arith, within_skip k v a b)

within_self : (a : List (ℕ × ℕ)) → distinct (keys a) ≡ true → within a a ≡ true
within_self [] d = refl
within_self ((k, v) ∷ a) d = ground (arith, within_self a, within_skip k v a a)

dict_eq_self : (a : List (ℕ × ℕ)) → distinct (keys a) ≡ true → dict_eq a a ≡ true
unfolding dict_eq
dict_eq_self a d = ground (arith, within_self a d)

-- The register holds just these voters; without one there are none.
abbrev pub represents : List (ℕ × ℕ) → Option Register → Bool
represents voters none = is_nil voters
represents voters (some er) = dict_eq voters er.voter_data

latest-cleanup :
    (er : Register) (m : Meeting) (rs : List Register)
    → m.registers ≡ er ∷ rs
    → latest (cleanup_unused_ers er m) ≡ some er
unfolding cleanup_unused_ers
latest-cleanup er m rs h = ground arith

needed-none :
    (p : Policy) (m : Meeting) (voters : List (ℕ × ℕ))
    → p.get_voters ≡ some voters
    → m.is_ongoing ≡ true
    → new_er_needed p m ≡ some false
    → represents voters (latest m) ≡ true
unfolding new_er_needed
needed-none p m voters named ongoing h = ground arith

-- a register that was just made
made-new :
    (p : Policy) (m m' : Meeting) (voters : List (ℕ × ℕ)) (r : Option Register)
    → p.get_voters ≡ some voters
    → distinct (keys voters) ≡ true
    → new_er_needed p m ≡ some true
    → create_er false p m ≡ made (m', r)
    → (latest m' ≡ r) × (represents voters r ≡ true) × (m'.is_ongoing ≡ m.is_ongoing)
unfolding create_er set_voters_from_dict
made-new p m m' voters r named d needed h =
    let new : Register = record {
      pk = m.next_pk;
      source = p.name;
      voter_data = voters;
      allow_voter_data_write = false;
    } in
    let grown : Meeting = record m { registers = new ∷ m.registers; next_pk = suc m.next_pk } in
    ground (arith, dict_eq_self voters d, latest-cleanup new grown m.registers refl)

made-old :
    (p : Policy) (m m' : Meeting) (r : Option Register)
    → new_er_needed p m ≡ some false
    → create_er false p m ≡ made (m', r)
    → (m' ≡ m) × (r ≡ latest m)
unfolding create_er
made-old p m m' r needed h = (ground arith, ground arith)

needed-quiet :
    (p : Policy) (m : Meeting) (voters : List (ℕ × ℕ)) (er : Register)
    → p.get_voters ≡ some voters
    → latest m ≡ some er
    → dict_eq voters er.voter_data ≡ true
    → new_er_needed p m ≡ some false
unfolding new_er_needed
needed-quiet p m voters er named l same = ground arith

needed-cases :
    (p : Policy) (m m' : Meeting) (r : Option Register)
    → create_er false p m ≡ made (m', r)
    → (new_er_needed p m ≡ some false) ⊎ (new_er_needed p m ≡ some true)
unfolding create_er
needed-cases p m m' r h = elim (Option-cases (new_er_needed p m)) [
  | inl raised ↦ absurd (ground arith)
  | inr (true, wanted) ↦ inr wanted
  | inr (false, unwanted) ↦ inl unwanted
]

-- When `create_er` of a policy returned for an ongoing meeting, the register that it returns is the
-- meeting's latest and holds exactly the voters, with their weights, that the policy names, and none
-- is returned only if the policy names nobody.
pub create_er_lem :
    (p : Policy) (m m' : Meeting) (voters : List (ℕ × ℕ)) (r : Option Register)
    → p.get_voters ≡ some voters
    → distinct (keys voters) ≡ true
    → m.is_ongoing ≡ true
    → create_er false p m ≡ made (m', r)
    → (latest m' ≡ r) × (represents voters r ≡ true)
create_er_lem p m m' voters r named d ongoing h = elim (needed-cases p m m' r h) [
  | inr needed ↦ let (a, b, _) = made-new p m m' voters r named d needed h in (a, b)
  | inl unneeded ↦
      let (same, is_latest) = made-old p m m' r unneeded h in
      (rw same (sym is_latest), rw is_latest (needed-none p m voters named ongoing unneeded))
]

-- Running it again at once makes no other register and changes nothing.
pub create_er_again :
    (p : Policy) (m m' : Meeting) (voters : List (ℕ × ℕ)) (er : Register)
    → p.get_voters ≡ some voters
    → distinct (keys voters) ≡ true
    → m.is_ongoing ≡ true
    → create_er false p m ≡ made (m', some er)
    → create_er false p m' ≡ made (m', some er)
unfolding create_er
create_er_again p m m' voters er named d ongoing h =
    let done = create_er_lem p m m' voters (some er) named d ongoing h in
    ground (arith, done.0, needed-quiet p m' voters er named done.0 done.1)

Outcome-cases :
    (o : Outcome (Meeting × Option Register))
    → ((m : Meeting) × ((r : Option Register) × (o ≡ made (m, r))))
      ⊎ ((e : Failure) × (o ≡ failed e))
Outcome-cases (made (m, r)) = inl (m, (r, refl))
Outcome-cases (failed e) = inr (e, refl)

-- A policy that makes registers before polls, applied in an ongoing meeting to a poll: if it names
-- any voters the poll gets the meeting's latest register, which holds exactly them.
pub apply_lem :
    (p : Policy) (m m' : Meeting) (voters : List (ℕ × ℕ)) (old r : Option Register)
    → p.creates_before_poll ≡ true
    → p.get_voters ≡ some voters
    → distinct (keys voters) ≡ true
    → is_nil voters ≡ false
    → m.is_ongoing ≡ true
    → apply p old m ≡ made (m', r)
    → (r ≡ latest m') × (represents voters r ≡ true)
unfolding apply
apply_lem p m m' voters old r before named d some_voters ongoing h =
    elim (Outcome-cases (create_er false p m)) [
      | inr (e, stop) ↦ absurd (ground arith)
      | inl (n, (x, done)) ↦
          let same : n ≡ m' = ground arith in
          let (a, b) = create_er_lem p m n voters x named d ongoing done in
          ground (arith, same, a, b)
    ]

select-select :
    (used keep : Register → Bool) (rs : List Register)
    → ((e : Register) → used e ≡ true → keep e ≡ true)
    → select used (select keep rs) ≡ select used rs
select-select used keep [] h = refl
select-select used keep (e ∷ es) h = ground (arith, select-select used keep es h, h e)

-- The registers that polls have are kept, in their order, whatever is made: only `AutoAlways`
-- removes registers, and only those that no poll has.
pub create_er_keeps :
    (force : Bool) (p : Policy) (m m' : Meeting) (r : Option Register)
    → member m.next_pk m.in_use ≡ false
    → create_er force p m ≡ made (m', r)
    → select (λ e. member e.pk m.in_use) m'.registers
      ≡ select (λ e. member e.pk m.in_use) m.registers
unfolding create_er set_voters_from_dict cleanup_unused_ers
create_er_keeps force p m m' r fresh h = ground (
  arith,
  select-select (λ e. member e.pk m.in_use)
      (λ e. not (e.source == p.name) || member e.pk m.in_use || e.pk == m.next_pk) m.registers
      (λ e used. rw used (ground arith)),
)
