-- ===== src/Speaker/Desk/Served.antt =====
-- Requests one after another, and what single requests do to the queue.
use voteit.Prelude.{
  ℕ, ◌≡◌, refl, Bool, true, false, not, Option, none, some, every, List, [], ◌∷◌, arith,
}
use voteit.Speaker.{SpeakerList, ListMethod}
use voteit.Speaker.Desk.{
  Reply, ok, not_found, enter, leave, shuffle_list, create, destroy, start_speaker, stop_speaker,
  undo_speaker, update,
}
use voteit.Speaker.Desk.Sound.{
  IsSound, enter-IsSound, leave-IsSound, create-IsSound, shuffle_list-IsSound, destroy-IsSound,
}
use voteit.Speaker.Desk.Timing.{
  stop_speaker-IsSound, undo_speaker-IsSound, start_speaker-IsSound, update-IsSound,
}

pub data Request : Type 0 where
  enter_by : (user now : ℕ) → Request
  leave_by : (user : ℕ) → Request
  shuffle_by : (sample : List ℕ → List ℕ) → Request
  create_for : (is_participant : ℕ → Bool) (user now : ℕ) → Request
  destroy_by : (pk : ℕ) → Request
  start_at : (pk now : ℕ) → Request
  stop_at : (pk now : ℕ) → Request
  undo_of : (pk : ℕ) → Request
  seconds_of : (pk : ℕ) (seconds : Option ℕ) → Request

-- the method that the system of the list has at the time, and what is asked
unfoldable pub serve : ListMethod → Request → SpeakerList → Reply
serve m (enter_by user now) l = enter m user now l
serve m (leave_by user) l = leave m user l
serve m (shuffle_by sample) l = shuffle_list m sample l
serve m (create_for is_participant user now) l = create m is_participant user now l
serve m (destroy_by pk) l = destroy m pk l
serve m (start_at pk now) l = start_speaker pk now l
serve m (stop_at pk now) l = stop_speaker pk now l
serve m (undo_of pk) l = undo_speaker pk l
serve m (seconds_of pk seconds) l = update pk seconds l

-- an update that takes the seconds away
abbrev pub clears_seconds : Request → Bool
clears_seconds (seconds_of pk none) = true
clears_seconds _ = false

-- no request of them does
abbrev pub keeps_seconds : List (ListMethod × Request) → Bool
keeps_seconds = every (λ (m, r). not (clears_seconds r))

serve-IsSound :
    (m : ListMethod) (r : Request) (l l' : SpeakerList)
    → clears_seconds r ≡ false
    → IsSound l
    → serve m r l ≡ ok l'
    → IsSound l'
unfolding serve
serve-IsSound m (enter_by user now) l l' k = enter-IsSound m user now l l'
serve-IsSound m (leave_by user) l l' k = leave-IsSound m user l l'
serve-IsSound m (shuffle_by sample) l l' k = shuffle_list-IsSound m sample l l'
serve-IsSound m (create_for is_participant user now) l l' k =
    create-IsSound m is_participant user now l l'
serve-IsSound m (destroy_by pk) l l' k = destroy-IsSound m pk l l'
serve-IsSound m (start_at pk now) l l' k = start_speaker-IsSound pk now l l'
serve-IsSound m (stop_at pk now) l l' k = stop_speaker-IsSound pk now l l'
serve-IsSound m (undo_of pk) l l' k = undo_speaker-IsSound pk l l'
serve-IsSound m (seconds_of pk none) l l' k = absurd (ground arith)
serve-IsSound m (seconds_of pk (some n)) l l' k = update-IsSound pk n l l'

abbrev pub stored : Reply → SpeakerList → SpeakerList
stored (ok l') l = l'
stored _ l = l

-- A request that is not answered changes nothing.
unfoldable pub serve_all : List (ListMethod × Request) → SpeakerList → SpeakerList
unfolding serve
serve_all [] l = l
serve_all ((m, r) ∷ rs) l = serve_all rs (stored (serve m r l) l)

stored-IsSound :
    (reply : Reply) (l : SpeakerList)
    → IsSound l
    → ((l' : SpeakerList) → reply ≡ ok l' → IsSound l')
    → IsSound (stored reply l)
stored-IsSound (ok l') l h k = k l' refl
stored-IsSound not_found l h k = h
stored-IsSound _ l h k = h

-- a list that was just made
abbrev pub IsNew : SpeakerList → Type 0
IsNew l = (l.items ≡ []) × (l.order ≡ [])

new-IsSound : (l : SpeakerList) → IsNew l → IsSound l
new-IsSound l (no_items, no_order) = record {
  one_item = λ u. ground arith;
  one_speaks = ground arith;
  all_recorded = ground arith;
  ordered = λ u. ground arith;
}

serve_all-keeps :
    (rs : List (ListMethod × Request)) (l : SpeakerList)
    → keeps_seconds rs ≡ true
    → IsSound l
    → IsSound (serve_all rs l)
unfolding serve_all
serve_all-keeps [] l k h = h
serve_all-keeps ((m, r) ∷ rs) l k h =
    serve_all-keeps rs (stored (serve m r l) l) (ground arith)
      (stored-IsSound (serve m r l) l h (λ l'. serve-IsSound m r l l' (ground arith) h))

-- Whatever requests a new list has served, by whatever methods, if none of them is an update that takes
-- the seconds of a speaker away: no user has two items that are not finished, at most one speaker speaks,
-- finished speakers have started and have at most 32767 seconds, and the order has each user with an
-- unfinished item once and nobody else.
pub serve_all-IsSound :
    (rs : List (ListMethod × Request)) (l : SpeakerList)
    → keeps_seconds rs ≡ true
    → IsNew l
    → IsSound (serve_all rs l)
serve_all-IsSound rs l k h = serve_all-keeps rs l k (new-IsSound l h)
