-- ===== src/Scenarios/Messages.antt =====
-- Runs of the packing and the batching of messages.
use voteit.Prelude.{ℕ, ◌+◌, ◌≡◌, refl, Bool, true, false, some, List, [], ◌∷◌, map, arith}
use voteit.Messaging.{Message, single, batch}
use voteit.Messaging.Bundles.{
  Sizes, StateSection, BundleSection, AppStateBundle, iter_bundles, usable_bytes, sized,
  split_batch,
}
use voteit.Messaging.Bundles.Reader.{reassembled}
use voteit.Messaging.Bundles.Reassembled.{iter_bundles_lem, said, given}
use voteit.Messaging.Bundles.Bounds.{iter_bundles_fit, EachFits}
use voteit.Messaging.Bundles.Measured.{Additive, items_size}
use voteit.Messaging.Batcher.{Target, collapse, same_key}
use voteit.Messaging.Batcher.Told.{collapse_lem, told}

-- a payload is its length in bytes
abbrev json : Message ℕ → ℕ
json (single a p) = 20 + p
json (batch a ps) =
    30 + items_size (record { message_size = λ m. 0; item_size = λ p. p; envelope = λ a. 0 }) ps

abbrev json_sizes : Sizes ℕ
json_sizes = record { message_size = json; item_size = λ p. p; envelope = λ a. 30 }

json_sizes-Additive : Additive json_sizes
json_sizes-Additive a ps = omega arith

-- two messages and a batch of three, of the collectors `ab` and `c`
abbrev proposals : StateSection ℕ
proposals = record {
  name = 97 ∷ 98 ∷ [];
  messages = single 1 20 ∷ batch 2 (40 ∷ 40 ∷ 40 ∷ []) ∷ single 1 10 ∷ [];
  failed = false;
}

abbrev broken : StateSection ℕ
broken = record { name = 99 ∷ []; messages = []; failed = true }

abbrev both : List (StateSection ℕ)
both = proposals ∷ broken ∷ []

abbrev ab : ℕ → List (BundleSection ℕ) → AppStateBundle ℕ
ab n sections = record { seq = n; sections = sections }

abbrev piece : Bool → List (Message ℕ) → BundleSection ℕ
piece complete messages = record {
  name = 97 ∷ 98 ∷ [];
  complete = complete;
  failed = false;
  messages = messages;
}

abbrev ending : BundleSection ℕ
ending = record { name = 99 ∷ []; complete = true; failed = true; messages = [] }

-- with 450 bytes, of which 194 are left
abbrev packed : List (AppStateBundle ℕ)
packed =
    ab 0 (piece false (single 1 20 ∷ []) ∷ [])
    ∷ ab 1 (piece false (batch 2 (40 ∷ 40 ∷ []) ∷ []) ∷ [])
    ∷ ab 2 (piece true (batch 2 (40 ∷ []) ∷ single 1 10 ∷ []) ∷ ending ∷ [])
    ∷ []

both-packed : iter_bundles json_sizes 450 both ≡ some packed
unfolding iter_bundles sized split_batch
both-packed = refl

iter_bundles_lem_example :
    (bundles : List (AppStateBundle ℕ)) × (iter_bundles json_sizes 450 both ≡ some bundles)
    × (map said (reassembled bundles).done ≡ map given both)
    × ((reassembled bundles).partial ≡ [])
iter_bundles_lem_example = iter_bundles_lem json_sizes 450 both

iter_bundles_fit_example : EachFits json_sizes (usable_bytes 450) packed
iter_bundles_fit_example =
    iter_bundles_fit json_sizes 450 both packed json_sizes-Additive both-packed

abbrev meeting_channel : Target
meeting_channel = record { name = 109 ∷ []; group = true; layer = 100 ∷ [] }

abbrev user_channel : Target
user_channel = record { name = 117 ∷ []; group = false; layer = 100 ∷ [] }

-- three messages of action 1 to the meeting, with others in between
abbrev sent : List (Message ℕ × Target)
sent =
    (single 1 11, meeting_channel)
    ∷ (single 1 12, user_channel)
    ∷ (single 2 13, meeting_channel)
    ∷ (single 1 14, meeting_channel)
    ∷ (single 1 15, meeting_channel)
    ∷ []

abbrev every_action : ℕ → Bool
every_action action = true

sent-collapsed :
    collapse every_action 3 sent
    ≡ (batch 1 (11 ∷ 14 ∷ 15 ∷ []), meeting_channel)
      ∷ (single 1 12, user_channel)
      ∷ (single 2 13, meeting_channel)
      ∷ []
unfolding collapse same_key
sent-collapsed = refl

collapse_lem_example :
    told 1 meeting_channel (collapse every_action 3 sent) ≡ told 1 meeting_channel sent
collapse_lem_example = collapse_lem every_action 3 1 meeting_channel sent refl
