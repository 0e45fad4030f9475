-- ===== src/Speaker/Desk/Queue.antt =====
-- What single requests do to the queue of a sound list.
use voteit.Prelude.{
  ℕ, zero, suc, ◌≤◌, ◌≡◌, refl, ap, ◌∙◌, true, false, ◌&&◌, none, List, [], ◌∷◌, ◌++◌, ◌==◌, map,
  exists, every, take, drop, take-drop, tally, tally-append, arith,
}
use mathlib.Core.List.{append-nil}
use voteit.Speaker.{
  Speaker, SpeakerList, ListMethod, unfinished, in_queue, find, reorder, incoming_order, safe_count,
  new_order, or_zero,
}
use voteit.Speaker.Methods.Priority.{simple_method}
use voteit.Speaker.Reordered.{waiting, incoming_order-users}
use voteit.Speaker.Desk.{ok, enter}
use voteit.Speaker.Desk.Sound.{IsSound, recorded, new_speaker}

no_speakers : (ss : List Speaker) → tally (λ s. true) ss ≡ 0 → ss ≡ []
no_speakers [] h = refl
no_speakers (s ∷ ss) h = ground arith

-- The first places are those of the incoming order, as long as they are safe.
take-safe :
    (n m : ℕ) (ss rest : List Speaker)
    → n ≤ m
    → tally (λ s. true) rest ≡ tally (λ s. true) (drop m ss)
    → take n (map (λ s. s.user) (take m ss ++ rest)) ≡ take n (map (λ s. s.user) ss)
take-safe zero m ss rest h k = refl
take-safe (suc n) zero ss rest h k = absurd (omega arith)
take-safe (suc n) (suc m) [] rest h k =
    ap (λ r. take (suc n) (map (λ s. s.user) r)) (no_speakers rest k)
take-safe (suc n) (suc m) (s ∷ ss) rest h k =
    ap (◌∷◌ s.user) (take-safe n m ss rest (omega arith) k)

simple_order :
    (order : List ℕ) (l : SpeakerList)
    → new_order simple_method order l ≡ map (λ s. s.user) (incoming_order order l)
simple_order order l =
    ap (map (λ s. s.user))
      (take-drop (safe_count l (incoming_order order l)) (incoming_order order l))

reorder_keeps_first :
    (method : ListMethod) (order more : List ℕ) (l : SpeakerList)
    → map (λ s. s.user) (incoming_order order l) ≡ order ++ more
    → take (or_zero l.safe_positions) (reorder method order l).order
      ≡ take (or_zero l.safe_positions) (order ++ more)
unfolding reorder
reorder_keeps_first method order more l h =
    let incoming = incoming_order order l in
    let m = safe_count l incoming in
    take-safe (or_zero l.safe_positions) m incoming
      (method.reorder l.items (take m incoming) (drop m incoming)) (ground arith)
      (method.tally-reorder l.items (take m incoming) (drop m incoming) (λ s. true))
    ∙ ap (take (or_zero l.safe_positions)) h

-- Reordering a sound list, by any method, keeps the safe positions as they are.
pub reorder_keeps_safe :
    (method : ListMethod) (l : SpeakerList)
    → IsSound l
    → take (or_zero l.safe_positions) (reorder method l.order l).order
      ≡ take (or_zero l.safe_positions) l.order
reorder_keeps_safe method l h =
    reorder_keeps_first method l.order [] l (
      incoming_order-users l l.order [] refl h.one_item
        (λ u. ap (tally (λ v. v == u)) (append-nil l.order) ∙ h.ordered u))
    ∙ ap (take (or_zero l.safe_positions)) (append-nil l.order)

-- the list before it is reordered, when the user enters
abbrev entered : ℕ → ℕ → SpeakerList → SpeakerList
entered user now l = record l {
  items = l.items ++ new_speaker l.next_pk user now ∷ [];
  next_pk = suc l.next_pk;
}

waiting-exists :
    (user : ℕ) (ss : List Speaker)
    → tally (waiting user) ss ≡ 0
    → exists (λ s. unfinished s && s.user == user) ss ≡ false
waiting-exists user [] h = refl
waiting-exists user (s ∷ ss) h = ground (arith, waiting-exists user ss)

-- nobody has an item but finished ones
find-waiting :
    (user : ℕ) (ss : List Speaker)
    → every recorded ss ≡ true
    → tally (waiting user) ss ≡ 0
    → find (λ s. s.user == user && in_queue s) ss ≡ none
find-waiting user [] r h = refl
find-waiting user (s ∷ ss) r h = ground (arith, find-waiting user ss)

enter-entered :
    (method : ListMethod) (user now : ℕ) (l : SpeakerList)
    → IsSound l
    → tally (waiting user) l.items ≡ 0
    → enter method user now l ≡ ok (reorder method l.order (entered user now l))
unfolding enter reorder
enter-entered method user now l h absent =
    ground
      (arith, find-waiting user l.items h.all_recorded absent, waiting-exists user l.items absent)

entered-users :
    (user now : ℕ) (l : SpeakerList)
    → IsSound l
    → tally (waiting user) l.items ≡ 0
    → map (λ s. s.user) (incoming_order l.order (entered user now l)) ≡ l.order ++ user ∷ []
entered-users user now l h absent =
    incoming_order-users (entered user now l) l.order (user ∷ []) refl
      (λ u. ground (
        arith,
        tally-append (waiting u) l.items (new_speaker l.next_pk user now ∷ []),
        h.one_item u,
        absent,
      ))
      (λ u. ground (
        arith,
        tally-append (waiting u) l.items (new_speaker l.next_pk user now ∷ []),
        tally-append (λ v. v == u) l.order (user ∷ []),
        h.ordered u,
      ))

-- Whoever enters a sound list without an unfinished item there is answered. Whatever the method, the
-- safe positions stay as they were, the new one among them only where some are left; with the method
-- `simple` he is put behind all others, who keep their order.
pub enter_lem :
    (method : ListMethod) (user now : ℕ) (l : SpeakerList)
    → IsSound l
    → tally (waiting user) l.items ≡ 0
    → (l' : SpeakerList) × (enter method user now l ≡ ok l')
      × (take (or_zero l.safe_positions) l'.order
          ≡ take (or_zero l.safe_positions) (l.order ++ user ∷ []))
      × (enter simple_method user now l ≡ ok (record l' { order = l.order ++ user ∷ [] }))
unfolding reorder
enter_lem method user now l h absent =
    let l1 = entered user now l in
    let users = entered-users user now l h absent in
    (
      reorder method l.order l1,
      enter-entered method user now l h absent,
      reorder_keeps_first method l.order (user ∷ []) l1 users,
      enter-entered simple_method user now l h absent
          ∙ ap (λ order. ok (record l1 { order = order })) (simple_order l.order l1 ∙ users),
    )
