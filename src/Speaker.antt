-- ===== src/Speaker.antt =====
-- Speakers and speaker lists: `Speaker` and `SpeakerList` of voteit/speaker/models.py, and the
-- interface `ListMethod` of voteit/speaker/abcs.py. Times are in microseconds. The order of a list is
-- the list of numbers in its text (Text.antt).
pub mod Reordered
pub mod Methods
pub mod Desk
pub mod System
pub mod Permissions
use voteit.Prelude.{
  ℕ, suc, ◌+◌, ◌-◌, ◌*◌, ◌/◌, ◌≡◌, Bool, true, false, ◌&&◌, ◌||◌, Option, none, some, List, [], ◌∷◌,
  ◌++◌, ◌==◌, ltb, leb, is_some, is_none, if◌then◌else◌, map, select, exists, take, drop, tally,
  sort_with,
}

pub record Speaker : Type 0 where
  pub pk : ℕ
  pub user : ℕ
  pub created : ℕ
  pub started : Option ℕ
  pub seconds : Option ℕ

-- `current` and `in_queue`, and the filter `seconds__isnull=True`
abbrev pub unfinished : Speaker → Bool
unfinished s = is_none s.seconds

abbrev pub current : Speaker → Bool
current s = is_some s.started && is_none s.seconds

abbrev pub in_queue : Speaker → Bool
in_queue s = is_none s.started

-- the filter of `speakers_in_queue`
abbrev pub queued : Speaker → Bool
queued s = is_none s.seconds && is_none s.started

-- What a method returned: an answer, with the object after it, or none, or an exception.
pub data Answer (A : Type 0) : Type 0 where
  answered : A → Answer A
  nothing : Answer A
  raised : Answer A

-- `start`: the answer is the time, a true value
unfoldable pub start : ℕ → Speaker → Answer Speaker
start now s = elim s.started [
  | none ↦ answered (record s { started = some now })
  | some _ ↦ nothing
]

abbrev pub max_seconds : ℕ
max_seconds = 32767

-- `min(math.ceil(end_td.total_seconds()) or 1, 32767)`. A clock that was set back by a second or
-- more gives a number below zero, which the column refuses on saving.
abbrev pub seconds_between : ℕ → ℕ → Option ℕ
seconds_between started now =
    let seconds = (now - started + 999999) / 1000000 in
    if leb (now + 1000000) started
    then none
    else some (if seconds == 0 then 1 else if ltb max_seconds seconds then max_seconds else seconds)

-- `stop`, with the exceptions of it and of the saving that follows. A time minus none raises.
unfoldable pub stop : ℕ → Speaker → Answer Speaker
stop now s = elim s.seconds [
  | some _ ↦ nothing
  | none ↦ elim s.started [
    | none ↦ raised
    | some started ↦ elim (seconds_between started now) [
      | none ↦ raised
      | some n ↦ answered (record s { seconds = some n })
    ]
  ]
]

unfoldable pub undo : Speaker → Answer Speaker
undo s = if current s then answered (record s { started = none }) else nothing

-- `ended`
unfoldable pub ended : Speaker → Option ℕ
ended s = elim s.seconds [
  | none ↦ none
  | some n ↦ elim s.started [ none ↦ none | some t ↦ some (t + n * 1000000) ]
]

-- A list, with what a method reads of its system: the safe positions, and whether the list is the
-- active one. `next_pk` is the primary key of the next speaker that is stored.
pub record SpeakerList : Type 0 where
  pub is_open : Bool
  pub is_active_list : Bool
  pub safe_positions : Option ℕ
  pub order : List ℕ
  pub items : List Speaker
  pub next_pk : ℕ

-- `ListMethod.reorder(safe_speakers, incoming_order)`. What a method annotates its speakers with comes
-- from all items of the list, the first argument. A method only reorders.
pub record ListMethod : Type 0 where
  pub reorder : List Speaker → List Speaker → List Speaker → List Speaker
  pub tally-reorder :
      (items safe incoming : List Speaker) (p : Speaker → Bool)
      → tally p (reorder items safe incoming) ≡ tally p incoming

abbrev pub open_list : SpeakerList → SpeakerList
open_list l = record l { is_open = true }

abbrev pub close_list : SpeakerList → SpeakerList
close_list l = record l { is_open = false }

-- `.first()` of a filtered queryset
abbrev pub find : (Speaker → Bool) → List Speaker → Option Speaker
find p [] = none
find p (s ∷ ss) = if p s then some s else find p ss

unfoldable pub active_speaker : SpeakerList → Option Speaker
active_speaker l = find current l.items

-- `order_list.index(user)`, or the length of the list where that raises
abbrev pub index : List ℕ → ℕ → ℕ
index [] user = 0
index (v ∷ vs) user = if v == user then 0 else suc (index vs user)

-- `order_key(x) <= order_key(y)`, of pairs
abbrev pub order_le : List ℕ → Speaker → Speaker → Bool
order_le order x y =
    ltb (index order x.user) (index order y.user)
    || (index order x.user == index order y.user && leb x.created y.created)

abbrev pub incoming_order : List ℕ → SpeakerList → List Speaker
incoming_order order l = sort_with (order_le order) (select unfinished l.items)

abbrev pub or_zero : Option ℕ → ℕ
or_zero none = 0
or_zero (some n) = n

-- one more position is safe while somebody in a safe position speaks
abbrev pub safe_count : SpeakerList → List Speaker → ℕ
safe_count l incoming =
    let n = or_zero l.safe_positions in
    if exists (λ s. is_some s.started) (take n incoming) then suc n else n

abbrev pub new_order : ListMethod → List ℕ → SpeakerList → List ℕ
new_order method order l =
    let incoming = incoming_order order l in
    let n = safe_count l incoming in
    map (λ s. s.user)
      (take n incoming ++ method.reorder l.items (take n incoming) (drop n incoming))

unfoldable pub reorder : ListMethod → List ℕ → SpeakerList → SpeakerList
reorder method order l = record l { order = new_order method order l }

-- `random.sample(order_list, len(order_list))` is the parameter.
unfoldable pub shuffle : (List ℕ → List ℕ) → ListMethod → SpeakerList → SpeakerList
unfolding reorder
shuffle sample method l = reorder method (sample l.order) l
