-- ===== src/Speaker/Desk.antt =====
-- The requests on a speaker list: `SpeakerListViewSet` and `SpeakerViewSet` of
-- voteit/speaker/rest_api/views.py, behind their permissions, with `CreateSpeakerSerializer.validate`
-- of serializers.py. A request runs in one transaction on a locked list. A queryset with a primary key
-- is a search for the first item that it fits.
pub mod Sound
pub mod Timing
pub mod Served
pub mod Queue
pub mod Turns
use voteit.Prelude.{
  ℕ, suc, ◌+◌, Bool, true, false, ◌&&◌, ◌||◌, not, Option, none, some, List, [], ◌∷◌, ◌++◌, ◌==◌,
  leb, is_some, is_none, if◌then◌else◌, select, exists, tally,
}
use voteit.Speaker.{
  Speaker, SpeakerList, ListMethod, Answer, answered, nothing, raised, unfinished, current, queued,
  in_queue, find, active_speaker, start, stop, undo, reorder, shuffle,
}

-- The answer to a request. After a failure, an exception that is no answer, nothing is stored.
pub data Reply : Type 0 where
  ok : SpeakerList → Reply
  not_found denied invalid bad_request failed : Reply

abbrev with_pk : ℕ → Speaker → Bool
with_pk pk s = s.pk == pk

-- storing an item again
abbrev pub alter : (Speaker → Bool) → Speaker → List Speaker → List Speaker
alter p s' [] = []
alter p s' (s ∷ ss) = let rest = alter p s' ss in if p s then s' ∷ ss else s ∷ rest

-- deleting an item
abbrev pub delete : (Speaker → Bool) → List Speaker → List Speaker
delete p [] = []
delete p (s ∷ ss) = let rest = delete p ss in if p s then ss else s ∷ rest

-- Storing a new item, under the constraint `only_unique_users_in_queue`.
abbrev pub insert : ℕ → ℕ → SpeakerList → Option SpeakerList
insert user now l =
    if exists (λ s. unfinished s && s.user == user) l.items
    then none
    else some (record l {
      items =
          l.items
          ++ record { pk = l.next_pk; user = user; created = now; started = none; seconds = none }
            ∷ [];
      next_pk = suc l.next_pk;
    })

-- `order_list` without the user
abbrev pub leave_order : ℕ → SpeakerList → SpeakerList
leave_order user l = record l { order = select (λ u. not (u == user)) l.order }

module _ (method : ListMethod) where
  -- `enter`: `get_or_create(user=…, started=None)`
  unfoldable pub enter : ℕ → ℕ → SpeakerList → Reply
  unfolding reorder
  enter user now l = elim (find (λ s. s.user == user && in_queue s) l.items) [
    | some _ ↦ ok l
    | none ↦ elim (insert user now l) [ none ↦ failed | some l' ↦ ok (reorder method l'.order l') ]
  ]

  -- `leave`
  unfoldable pub leave : ℕ → SpeakerList → Reply
  unfolding reorder
  leave user l =
      let l' = record l { items = select (λ s. not (queued s && s.user == user)) l.items } in
      if exists (λ s. queued s && s.user == user) l.items
      then ok (reorder method l'.order l')
      else not_found

  -- the action `shuffle`
  unfoldable pub shuffle_list : (List ℕ → List ℕ) → SpeakerList → Reply
  unfolding shuffle active_speaker
  shuffle_list sample l = elim (active_speaker l) [
    | some _ ↦ denied
    | none ↦ ok (shuffle sample method l)
  ]

  -- `create`: the validation, then `perform_create`
  unfoldable pub create : (ℕ → Bool) → ℕ → ℕ → SpeakerList → Reply
  unfolding reorder
  create is_participant user now l =
      if exists (λ s. unfinished s && s.user == user) l.items
      then invalid
      else if not (is_participant user)
      then invalid
      else elim (insert user now l) [ none ↦ failed | some l' ↦ ok (reorder method l'.order l') ]

  -- `perform_destroy`
  unfoldable pub destroy : ℕ → SpeakerList → Reply
  unfolding reorder
  destroy pk l = elim (find (with_pk pk) l.items) [
    | none ↦ not_found
    | some _ ↦
        let l' = record l { items = delete (with_pk pk) l.items } in ok (reorder method l'.order l')
  ]

-- Stopping the active speaker, if there is one, and the place in the order that he gives up.
abbrev pub stop_active : ℕ → SpeakerList → Option SpeakerList
stop_active now l = elim (find current l.items) [
  | none ↦ some l
  | some s ↦ elim (stop now s) [
    | answered s' ↦ some (leave_order s.user (record l { items = alter current s' l.items }))
    | nothing ↦ some (leave_order s.user l)
    | raised ↦ none
  ]
]

-- the action `start` on a speaker who waits
unfoldable pub start_speaker : ℕ → ℕ → SpeakerList → Reply
unfolding start stop
start_speaker pk now l = elim (find (λ s. with_pk pk s && queued s) l.items) [
  | none ↦ not_found
  | some s ↦ elim (stop_active now l) [
    | none ↦ failed
    | some l' ↦ elim (start now s) [
      | answered s' ↦ ok (record l' { items = alter (λ x. with_pk pk x && queued x) s' l'.items })
      | nothing ↦ bad_request
      | raised ↦ failed
    ]
  ]
]

-- the action `stop`
unfoldable pub stop_speaker : ℕ → ℕ → SpeakerList → Reply
unfolding stop
stop_speaker pk now l = elim (find (λ s. with_pk pk s && current s) l.items) [
  | none ↦ not_found
  | some s ↦ elim (stop now s) [
    | answered s' ↦ ok (
        leave_order s.user (record l { items = alter (λ x. with_pk pk x && current x) s' l.items }))
    | nothing ↦ bad_request
    | raised ↦ failed
  ]
]

-- the action `undo`
unfoldable pub undo_speaker : ℕ → SpeakerList → Reply
unfolding undo
undo_speaker pk l = elim (find (λ s. with_pk pk s && current s) l.items) [
  | none ↦ not_found
  | some s ↦ elim (undo s) [
    | answered s' ↦ ok (record l { items = alter (λ x. with_pk pk x && current x) s' l.items })
    | nothing ↦ bad_request
    | raised ↦ failed
  ]
]

-- finished speakers, whom alone an update may change
abbrev pub closed : Speaker → Bool
closed s = is_some s.seconds && is_some s.started

-- `update` of the seconds. The field takes none too, which makes the speaker an ongoing one again, as
-- far as the constraints on ongoing speakers and on users in the queue let it be stored.
unfoldable pub update : ℕ → Option ℕ → SpeakerList → Reply
update pk seconds l = elim (find (λ s. with_pk pk s && closed s) l.items) [
  | none ↦ not_found
  | some s ↦
      let l' = record l {
        items = alter (λ x. with_pk pk x && closed x) (record s { seconds = seconds }) l.items;
      } in
      elim seconds [
        | some n ↦ if leb n 32767 then ok l' else invalid
        | none ↦
            if exists current l.items || exists (λ x. unfinished x && x.user == s.user) l.items
            then failed
            else ok l'
      ]
]
