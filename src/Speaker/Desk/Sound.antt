-- ===== src/Speaker/Desk/Sound.antt =====
-- What every request keeps true of a speaker list.
use voteit.Prelude.{
  ℕ, ◌+◌, ◌≤◌, ◌≡◌, refl, Bool, true, false, ◌&&◌, not, none, some, List, [], ◌∷◌, ◌++◌, ◌==◌, leb,
  is_some, select, exists, every, tally, tally-append, tally-select, arith, Option-cases,
  Bool-cases, inl, inr,
}
use mathlib.Core.Path.{subst}
use voteit.Speaker.{
  Speaker, SpeakerList, ListMethod, unfinished, current, queued, in_queue, find, max_seconds,
  reorder,
}
use voteit.Speaker.Reordered.{waiting, reorder-order}
use voteit.Speaker.Desk.{ok, alter, delete, insert, enter, leave, shuffle_list, create, destroy}

-- A finished speaker has started and has a number of seconds that the column can hold.
abbrev pub recorded : Speaker → Bool
recorded s = elim s.seconds [ none ↦ true | some n ↦ leb n max_seconds && is_some s.started ]

pub record IsSound (l : SpeakerList) : Type 0 where
  pub one_item : (u : ℕ) → tally (waiting u) l.items ≤ 1
  pub one_speaks : tally current l.items ≤ 1
  pub all_recorded : every recorded l.items ≡ true
  pub ordered : (u : ℕ) → tally (λ v. v == u) l.order ≡ tally (waiting u) l.items

abbrev pub one_if : Bool → ℕ
one_if true = 1
one_if false = 0

pub find-fits :
    (p : Speaker → Bool) (ss : List Speaker) (s : Speaker) → find p ss ≡ some s → p s ≡ true
find-fits p [] s h = ground arith
find-fits p (x ∷ xs) s h = elim (Bool-cases (p x)) [
  | inl e ↦ ground arith
  | inr e ↦ find-fits p xs s (ground arith)
]

pub find-head :
    (p q : Speaker → Bool) (x : Speaker) (xs : List Speaker) (s : Speaker)
    → p x ≡ true
    → find p (x ∷ xs) ≡ some s
    → q x ≡ q s
find-head p q x xs s e h = ground arith

pub tally-alter :
    (p q : Speaker → Bool) (ss : List Speaker) (s s' : Speaker)
    → find p ss ≡ some s
    → tally q (alter p s' ss) + one_if (q s) ≡ tally q ss + one_if (q s')
tally-alter p q [] s s' h = ground arith
tally-alter p q (x ∷ xs) s s' h = elim (Bool-cases (p x)) [
  | inl e ↦ ground (arith, find-head p q x xs s e h)
  | inr e ↦ ground (arith, tally-alter p q xs s s')
]

pub every-alter :
    (p q : Speaker → Bool) (ss : List Speaker) (s' : Speaker)
    → every q ss ≡ true
    → q s' ≡ true
    → every q (alter p s' ss) ≡ true
every-alter p q [] s' h k = refl
every-alter p q (x ∷ xs) s' h k = ground (arith, every-alter p q xs s')

tally-delete :
    (p q : Speaker → Bool) (ss : List Speaker) (s : Speaker)
    → find p ss ≡ some s
    → tally q (delete p ss) + one_if (q s) ≡ tally q ss
tally-delete p q [] s h = ground arith
tally-delete p q (x ∷ xs) s h = elim (Bool-cases (p x)) [
  | inl e ↦ ground (arith, find-head p q x xs s e h)
  | inr e ↦ ground (arith, tally-delete p q xs s)
]

every-delete :
    (p q : Speaker → Bool) (ss : List Speaker) → every q ss ≡ true → every q (delete p ss) ≡ true
every-delete p q [] h = refl
every-delete p q (x ∷ xs) h = ground (arith, every-delete p q xs)

every-select :
    (p q : Speaker → Bool) (ss : List Speaker) → every q ss ≡ true → every q (select p ss) ≡ true
every-select p q [] h = refl
every-select p q (x ∷ xs) h = ground (arith, every-select p q xs)

every-append_one :
    (q : Speaker → Bool) (ss : List Speaker) (s : Speaker)
    → every q ss ≡ true
    → q s ≡ true
    → every q (ss ++ s ∷ []) ≡ true
every-append_one q [] s h k = ground arith
every-append_one q (x ∷ xs) s h k = ground (arith, every-append_one q xs s)

tally-fewer : (p q : Speaker → Bool) (ss : List Speaker) → tally (λ s. p s && q s) ss ≤ tally q ss
tally-fewer p q [] = ground arith
tally-fewer p q (s ∷ ss) = ground (arith, tally-fewer p q ss)

abbrev pub new_speaker : ℕ → ℕ → ℕ → Speaker
new_speaker pk user now = record {
  pk = pk;
  user = user;
  created = now;
  started = none;
  seconds = none;
}

module _ (method : ListMethod) where
  -- Reordering gives the order, whatever it was.
  pub reorder-IsSound :
      (order : List ℕ) (l : SpeakerList)
      → ((u : ℕ) → tally (waiting u) l.items ≤ 1)
      → tally current l.items ≤ 1
      → every recorded l.items ≡ true
      → IsSound (reorder method order l)
  unfolding reorder
  reorder-IsSound order l items speaks times = record {
    one_item = items;
    one_speaks = speaks;
    all_recorded = times;
    ordered = reorder-order method order l;
  }

  exists-waiting :
      (user : ℕ) (ss : List Speaker)
      → exists (λ s. unfinished s && s.user == user) ss ≡ false
      → tally (waiting user) ss ≡ 0
  exists-waiting user [] h = refl
  exists-waiting user (s ∷ ss) h = ground (arith, exists-waiting user ss)

  insert-IsSound :
      (user now : ℕ) (l l' : SpeakerList)
      → IsSound l
      → insert user now l ≡ some l'
      → IsSound (reorder method l'.order l')
  insert-IsSound user now l l' h e =
      reorder-IsSound l'.order l'
        (λ u. ground (
          arith,
          tally-append (waiting u) l.items (new_speaker l.next_pk user now ∷ []),
          exists-waiting user l.items,
          h.one_item u,
        ))
        (ground
          (arith, tally-append current l.items (new_speaker l.next_pk user now ∷ []), h.one_speaks))
        (ground (
          arith,
          every-append_one recorded l.items (new_speaker l.next_pk user now),
          h.all_recorded,
        ))

  pub enter-IsSound :
      (user now : ℕ) (l l' : SpeakerList) → IsSound l → enter method user now l ≡ ok l' → IsSound l'
  unfolding enter reorder
  enter-IsSound user now l l' h e =
      elim (Option-cases (find (λ s. s.user == user && in_queue s) l.items)) [
        | inr (s, found) ↦ subst IsSound (ground arith) h
        | inl absent ↦ elim (Option-cases (insert user now l)) [
          | inl taken ↦ absurd (ground arith)
          | inr (l1, stored) ↦ subst IsSound (ground arith) (insert-IsSound user now l l1 h stored)
        ]
      ]

  -- Fewer items are reordered.
  kept-IsSound :
      (p : Speaker → Bool) (l : SpeakerList)
      → IsSound l
      → IsSound (reorder method l.order (record l { items = select p l.items }))
  kept-IsSound p l h =
      reorder-IsSound l.order (record l { items = select p l.items })
        (λ u. ground (
          arith,
          tally-select (waiting u) p l.items,
          tally-fewer p (waiting u) l.items,
          h.one_item u,
        ))
        (ground
          (arith, tally-select current p l.items, tally-fewer p current l.items, h.one_speaks))
        (every-select p recorded l.items h.all_recorded)

  pub leave-IsSound :
      (user : ℕ) (l l' : SpeakerList) → IsSound l → leave method user l ≡ ok l' → IsSound l'
  unfolding leave reorder
  leave-IsSound user l l' h e =
      elim (Bool-cases (exists (λ s. queued s && s.user == user) l.items)) [
        | inr nobody ↦ absurd (ground arith)
        | inl somebody ↦
            subst IsSound (ground arith) (kept-IsSound (λ s. not (queued s && s.user == user)) l h)
      ]

  pub create-IsSound :
      (is_participant : ℕ → Bool) (user now : ℕ) (l l' : SpeakerList)
      → IsSound l
      → create method is_participant user now l ≡ ok l'
      → IsSound l'
  unfolding create reorder
  create-IsSound is_participant user now l l' h e = elim (Option-cases (insert user now l)) [
    | inl taken ↦ absurd (ground arith)
    | inr (l1, stored) ↦ subst IsSound (ground arith) (insert-IsSound user now l l1 h stored)
  ]

  pub shuffle_list-IsSound :
      (sample : List ℕ → List ℕ) (l l' : SpeakerList)
      → IsSound l
      → shuffle_list method sample l ≡ ok l'
      → IsSound l'
  unfolding shuffle_list reorder
  shuffle_list-IsSound sample l l' h e =
      subst IsSound (ground arith)
        (reorder-IsSound (sample l.order) l h.one_item h.one_speaks h.all_recorded)

  pub destroy-IsSound :
      (pk : ℕ) (l l' : SpeakerList) → IsSound l → destroy method pk l ≡ ok l' → IsSound l'
  unfolding destroy reorder
  destroy-IsSound pk l l' h e = elim (Option-cases (find (λ s. s.pk == pk) l.items)) [
    | inl absent ↦ absurd (ground arith)
    | inr (s, found) ↦
        let p : Speaker → Bool = λ s. s.pk == pk in
        subst IsSound (ground arith) (
          reorder-IsSound l.order (record l { items = delete p l.items })
            (λ u. ground (arith, tally-delete p (waiting u) l.items s found, h.one_item u))
            (ground (arith, tally-delete p current l.items s found, h.one_speaks))
            (every-delete p recorded l.items h.all_recorded))
  ]
