-- ===== src/Speaker/Desk/Timing.antt =====
-- What starting and stopping keep true of a speaker list.
use voteit.Prelude.{
  ℕ, ◌+◌, ◌*◌, ◌≤◌, ◌<◌, ◌≡◌, ◌⊎◌, ◌≢◌, refl, ◌∙◌, Bool, true, false, ◌&&◌, not, none, some, List,
  [], ◌∷◌, ◌==◌, leb, is_some, if◌then◌else◌, select, tally, arith, Option-cases, inl, inr,
}
use mathlib.Core.Path.{subst}
use voteit.Speaker.{
  Speaker, SpeakerList, Answer, answered, nothing, raised, unfinished, current, queued, find,
  max_seconds, start, stop, undo, seconds_between,
}
use voteit.Speaker.Reordered.{waiting}
use voteit.Speaker.Desk.{
  ok, alter, leave_order, closed, stop_active, start_speaker, stop_speaker, undo_speaker, update,
}
use voteit.Speaker.Desk.Sound.{IsSound, recorded, one_if, find-fits, tally-alter, every-alter}

seconds_between_lem :
    (started now n : ℕ)
    → started ≤ now
    → seconds_between started now ≡ some n
    → (1 ≤ n)
      × (n ≤ max_seconds)
      × ((n ≡ max_seconds) ⊎ (now ≤ started + n * 1000000))
      × ((n ≡ 1) ⊎ (started + n * 1000000 < now + 1000000))
seconds_between_lem started now n le h = ground arith

-- Stopping a speaker who has started, at a time that is not before his start, records at least one second
-- and at most 32767, the number of seconds begun if it lies between.
pub stop_lem :
    (now started : ℕ) (s : Speaker)
    → s.seconds ≡ none
    → s.started ≡ some started
    → started ≤ now
    → (n : ℕ) × (stop now s ≡ answered (record s { seconds = some n }))
      × (1 ≤ n)
      × (n ≤ max_seconds)
      × ((n ≡ max_seconds) ⊎ (now ≤ started + n * 1000000))
      × ((n ≡ 1) ⊎ (started + n * 1000000 < now + 1000000))
unfolding stop
stop_lem now started s h k le = elim (Option-cases (seconds_between started now)) [
  | inl late ↦ absurd (ground arith)
  | inr (n, e) ↦
      let (least, most, enough, tight) = seconds_between_lem started now n le e in
      (n, ground arith, least, most, enough, tight)
]

pub Answer-cases :
    {A : Type 0} (a : Answer A) → ((x : A) × (a ≡ answered x)) ⊎ ((a ≡ nothing) ⊎ (a ≡ raised))
Answer-cases (answered x) = inl (x, refl)
Answer-cases nothing = inr (inl refl)
Answer-cases raised = inr (inr refl)

pub stop-current : (now : ℕ) (s : Speaker) → unfinished s ≡ true → stop now s ≢ nothing
unfolding stop
stop-current now s h = ground arith

-- what stopping leaves alone
pub stop-kept :
    (now : ℕ) (s s' : Speaker)
    → stop now s ≡ answered s'
    → (s'.user ≡ s.user)
      × (s'.pk ≡ s.pk)
      × (s'.started ≡ s.started)
      × (unfinished s' ≡ false)
      × (recorded s' ≡ true)
      × (is_some s.started ≡ true)
unfolding stop
stop-kept now s s' h = ground arith

tally-leave_order :
    (user u : ℕ) (order : List ℕ)
    → tally (λ v. v == u) (select (λ v. not (v == user)) order)
      ≡ (if user == u then 0 else tally (λ v. v == u) order)
tally-leave_order user u [] = ground arith
tally-leave_order user u (v ∷ vs) = ground (arith, tally-leave_order user u vs)

-- An item that waits is finished, and its user gives up his place.
finish-IsSound :
    (p : Speaker → Bool) (l : SpeakerList) (s s' : Speaker)
    → IsSound l
    → find p l.items ≡ some s
    → unfinished s ≡ true
    → s'.user ≡ s.user
    → unfinished s' ≡ false
    → recorded s' ≡ true
    → IsSound (leave_order s.user (record l { items = alter p s' l.items }))
finish-IsSound p l s s' h found waits same done times = record {
  one_item = λ u. ground (arith, tally-alter p (waiting u) l.items s s', h.one_item u);
  one_speaks = ground (arith, tally-alter p current l.items s s', h.one_speaks);
  all_recorded = every-alter p recorded l.items s' h.all_recorded times;
  ordered = λ u. ground (
    arith,
    tally-alter p (waiting u) l.items s s',
    h.ordered u,
    h.one_item u,
    tally-leave_order s.user u l.order,
  );
}

-- An item that stays as unfinished as it was.
change-IsSound :
    (p : Speaker → Bool) (l : SpeakerList) (s s' : Speaker)
    → IsSound l
    → find p l.items ≡ some s
    → s'.user ≡ s.user
    → unfinished s' ≡ unfinished s
    → recorded s' ≡ true
    → (tally current l.items ≡ 0) ⊎ (leb (one_if (current s')) (one_if (current s)) ≡ true)
    → IsSound (record l { items = alter p s' l.items })
change-IsSound p l s s' h found same alike times free = record {
  one_item = λ u. ground (arith, tally-alter p (waiting u) l.items s s', h.one_item u);
  one_speaks = ground (arith, tally-alter p current l.items s s', h.one_speaks);
  all_recorded = every-alter p recorded l.items s' h.all_recorded times;
  ordered = λ u. ground (arith, tally-alter p (waiting u) l.items s s', h.ordered u);
}

pub stop_speaker-IsSound :
    (pk now : ℕ) (l l' : SpeakerList) → IsSound l → stop_speaker pk now l ≡ ok l' → IsSound l'
unfolding stop_speaker
stop_speaker-IsSound pk now l l' h e =
    let p : Speaker → Bool = λ s. s.pk == pk && current s in
    elim (Option-cases (find p l.items)) [
      | inl absent ↦ absurd (ground arith)
      | inr (s, found) ↦ elim (Answer-cases (stop now s)) [
        | inr other ↦ absurd (ground arith)
        | inl (s', answer) ↦
            let k = stop-kept now s s' answer in
            subst IsSound (ground arith) (
              finish-IsSound p l s s' h found (ground (arith, find-fits p l.items s found)) k.0 k.3
                k.4)
      ]
    ]

pub undo_speaker-IsSound :
    (pk : ℕ) (l l' : SpeakerList) → IsSound l → undo_speaker pk l ≡ ok l' → IsSound l'
unfolding undo_speaker undo
undo_speaker-IsSound pk l l' h e =
    let p : Speaker → Bool = λ s. s.pk == pk && current s in
    elim (Option-cases (find p l.items)) [
      | inl absent ↦ absurd (ground arith)
      | inr (s, found) ↦
          let fits = find-fits p l.items s found in
          subst IsSound (ground (arith, fits)) (
            change-IsSound p l s (record s { started = none }) h found refl refl (ground arith)
              (inr (ground arith)))
    ]

none-current : (ss : List Speaker) → find current ss ≡ none → tally current ss ≡ 0
none-current [] h = refl
none-current (s ∷ ss) h = ground (arith, none-current ss)

find-alter-current :
    (p : Speaker → Bool) (ss : List Speaker) (s' : Speaker)
    → ((s : Speaker) → p s ≡ true → queued s ≡ true)
    → queued s' ≡ false
    → find p (alter current s' ss) ≡ find p ss
find-alter-current p [] s' m h = refl
find-alter-current p (s ∷ ss) s' m h = ground (arith, find-alter-current p ss s' m h, m s, m s')

-- Stopping the active speaker leaves nobody speaking and those who wait in the queue as they are.
pub record Stopped (l l' : SpeakerList) : Type 0 where
  pub still_sound : IsSound l'
  pub nobody_speaks : tally current l'.items ≡ 0
  pub same_queue :
      (p : Speaker → Bool)
      → ((s : Speaker) → p s ≡ true → queued s ≡ true)
      → find p l'.items ≡ find p l.items

pub stop_active-Stopped :
    (now : ℕ) (l l' : SpeakerList) → IsSound l → stop_active now l ≡ some l' → Stopped l l'
stop_active-Stopped now l l' h e = elim (Option-cases (find current l.items)) [
  | inl nobody ↦ subst (Stopped l) (ground arith) (record {
    still_sound = h;
    nobody_speaks = none-current l.items nobody;
    same_queue = λ p m. refl;
  })
  | inr (s, found) ↦ elim (Answer-cases (stop now s)) [
    | inr other ↦ absurd (ground (arith, find-fits current l.items s found, stop-current now s))
    | inl (s', answer) ↦
        let k = stop-kept now s s' answer in
        let waits : unfinished s ≡ true = ground (arith, find-fits current l.items s found) in
        subst (Stopped l) (ground arith) (record {
          still_sound = finish-IsSound current l s s' h found waits k.0 k.3 k.4;
          nobody_speaks = ground (
            arith,
            tally-alter current current l.items s s' found,
            k.3,
            h.one_speaks,
            find-fits current l.items s found,
          );
          same_queue = λ p m. find-alter-current p l.items s' m (ground (arith, k.3));
        })
  ]
]

pub start_speaker-IsSound :
    (pk now : ℕ) (l l' : SpeakerList) → IsSound l → start_speaker pk now l ≡ ok l' → IsSound l'
unfolding start_speaker start
start_speaker-IsSound pk now l l' h e =
    let p : Speaker → Bool = λ s. s.pk == pk && queued s in
    elim (Option-cases (find p l.items)) [
      | inl absent ↦ absurd (ground arith)
      | inr (s, found) ↦ elim (Option-cases (stop_active now l)) [
        | inl failure ↦ absurd (ground arith)
        | inr (l1, stopped) ↦
            let st = stop_active-Stopped now l l1 h stopped in
            let fits = find-fits p l.items s found in
            subst IsSound (ground (arith, fits)) (
              change-IsSound p l1 s (record s { started = some now }) st.still_sound
                (st.same_queue p (λ x. ground arith) ∙ found) refl refl (ground (arith, fits))
                (inl st.nobody_speaks))
      ]
    ]

pub update-IsSound :
    (pk n : ℕ) (l l' : SpeakerList) → IsSound l → update pk (some n) l ≡ ok l' → IsSound l'
unfolding update
update-IsSound pk n l l' h e =
    let p : Speaker → Bool = λ s. s.pk == pk && closed s in
    elim (Option-cases (find p l.items)) [
      | inl absent ↦ absurd (ground arith)
      | inr (s, found) ↦
          let fits = find-fits p l.items s found in
          subst IsSound (ground arith) (
            change-IsSound p l s (record s { seconds = some n }) h found refl (ground (arith, fits))
              (ground (arith, fits, e)) (inr (ground arith)))
    ]
