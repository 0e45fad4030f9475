-- ===== src/Speaker/Desk/Turns.antt =====
-- What starting a speaker does, and what undoes it.
use voteit.Prelude.{
  ℕ, ◌+◌, ◌≡◌, refl, ◌∙◌, Bool, true, ◌&&◌, not, none, some, List, [], ◌∷◌, ◌==◌, is_some, select,
  tally, arith, Option-cases, Bool-cases, inl, inr,
}
use mathlib.Core.Path.{subst}
use voteit.Speaker.{Speaker, SpeakerList, current, queued, find, active_speaker, start, stop, undo}
use voteit.Speaker.Desk.{ok, alter, stop_active, start_speaker, undo_speaker, closed}
use voteit.Speaker.Desk.Sound.{IsSound, find-fits, tally-alter, one_if}
use voteit.Speaker.Desk.Timing.{stop_active-Stopped, Answer-cases, stop-kept, stop-current}

alter-alter :
    (p q : Speaker → Bool) (ss : List Speaker) (s s' : Speaker)
    → find p ss ≡ some s
    → tally q ss ≡ 0
    → q s' ≡ true
    → alter q s (alter p s' ss) ≡ ss
alter-alter p q [] s s' f h k = ground arith
alter-alter p q (x ∷ xs) s s' f h k = elim (Bool-cases (p x)) [
  | inl e ↦ ground arith
  | inr e ↦ ground (arith, alter-alter p q xs s s')
]

find-alter :
    (p q : Speaker → Bool) (ss : List Speaker) (s s' : Speaker)
    → find p ss ≡ some s
    → tally q ss ≡ 0
    → q s' ≡ true
    → find q (alter p s' ss) ≡ some s'
find-alter p q [] s s' f h k = ground arith
find-alter p q (x ∷ xs) s s' f h k = ground (arith, find-alter p q xs s s')

nobody_current : (ss : List Speaker) → find current ss ≡ none → tally current ss ≡ 0
nobody_current [] h = refl
nobody_current (s ∷ ss) h = ground (arith, nobody_current ss)

tally-current_with :
    (pk : ℕ) (ss : List Speaker)
    → tally current ss ≡ 0
    → tally (λ s. s.pk == pk && current s) ss ≡ 0
tally-current_with pk [] h = refl
tally-current_with pk (s ∷ ss) h = ground (arith, tally-current_with pk ss)

-- What starting a speaker makes of a list.
pub record Started (pk now : ℕ) (l l' : SpeakerList) : Type 0 where
  pub speaks :
      (s : Speaker) × (find (λ x. x.pk == pk && queued x) l.items ≡ some s)
      × (find current l'.items ≡ some (record s { started = some now }))
  pub alone : tally current l'.items ≡ 1
  pub finished :
      tally closed l'.items ≡ tally closed l.items + one_if (is_some (find current l.items))
  pub order_left : l'.order ≡ elim (find current l.items) [
    | none ↦ l.order
    | some s ↦ select (λ u. not (u == s.user)) l.order
  ]

stop_active-rest :
    (now : ℕ) (l l' : SpeakerList)
    → stop_active now l ≡ some l'
    → (tally closed l'.items ≡ tally closed l.items + one_if (is_some (find current l.items)))
      × (l'.order ≡ elim (find current l.items) [
        | none ↦ l.order
        | some s ↦ select (λ u. not (u == s.user)) l.order
      ])
stop_active-rest now l l' e = elim (Option-cases (find current l.items)) [
  | inl nobody ↦ ground arith
  | inr (s, found) ↦
      let fits = find-fits current l.items s found in
      elim (Answer-cases (stop now s)) [
        | inr other ↦ absurd (ground (arith, fits, stop-current now s))
        | inl (s', answer) ↦
            let k = stop-kept now s s' answer in
            ground (arith, fits, k.2, k.3, tally-alter current closed l.items s s' found)
      ]
]

-- A waiting speaker of a sound list who is started is the one who speaks then, since the time of
-- the request, and nobody else does; who spoke before is finished and loses his place in the order,
-- which is the same otherwise.
pub start_speaker_lem :
    (pk now : ℕ) (l l' : SpeakerList)
    → IsSound l
    → start_speaker pk now l ≡ ok l'
    → Started pk now l l'
unfolding start_speaker start
start_speaker_lem pk now l l' h e =
    let p : Speaker → Bool = λ s. s.pk == pk && queued s in
    elim (Option-cases (find p l.items)) [
      | inl absent ↦ absurd (ground arith)
      | inr (s, found) ↦ elim (Option-cases (stop_active now l)) [
        | inl failure ↦ absurd (ground arith)
        | inr (l1, stopped) ↦
            let st = stop_active-Stopped now l l1 h stopped in
            let fits = find-fits p l.items s found in
            let still = st.same_queue p (λ x. ground arith) ∙ found in
            let (closings, order) = stop_active-rest now l l1 stopped in
            let s' : Speaker = record s { started = some now } in
            let l2 : SpeakerList = record l1 { items = alter p s' l1.items } in
            let same : l2 ≡ l' = ground (arith, fits) in
            subst (Started pk now l) same (record {
              speaks = (
                s,
                found,
                find-alter p current l1.items s s' still st.nobody_speaks (ground (arith, fits)),
              );
              alone =
                  ground (arith, tally-alter p current l1.items s s' still, st.nobody_speaks, fits);
              finished = ground (arith, tally-alter p closed l1.items s s' still, closings, fits);
              order_left = order;
            })
      ]
    ]

-- Where nobody speaks, undoing a start gives the sound list back as it was.
pub undo-start :
    (pk now : ℕ) (l l' : SpeakerList)
    → active_speaker l ≡ none
    → start_speaker pk now l ≡ ok l'
    → undo_speaker pk l' ≡ ok l
unfolding start_speaker undo_speaker active_speaker start undo
undo-start pk now l l' quiet e =
    let p : Speaker → Bool = λ s. s.pk == pk && queued s in
    let q : Speaker → Bool = λ s. s.pk == pk && current s in
    elim (Option-cases (find p l.items)) [
      | inl absent ↦ absurd (ground arith)
      | inr (s, found) ↦
          let fits = find-fits p l.items s found in
          let s' : Speaker = record s { started = some now } in
          let nobody = tally-current_with pk l.items (nobody_current l.items quiet) in
          let fits' : q s' ≡ true = ground (arith, fits) in
          let back = find-alter p q l.items s s' found nobody fits' in
          ground (arith, fits, back, alter-alter p q l.items s s' found nobody fits')
    ]
