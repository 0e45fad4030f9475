-- ===== src/Messaging.antt =====
-- Messages to browsers: voteit/messaging. `Bundles` packs the initial state of a channel
-- (voteit/messaging/bundle.py), `Batcher` collapses what one transaction sends
-- (voteit/messaging/utils.py). What a message says is its payload, of any type.
pub mod Batcher
pub mod Bundles
use voteit.Prelude.{ℕ, List, [], ◌∷◌, ◌++◌}

-- A message of an action with its payload, or the generated `<action>.batch` with several.
pub data Message (P : Type 0) : Type 0 where
  single : ℕ → P → Message P
  batch : ℕ → List P → Message P

module _ {P : Type 0} where
  abbrev labelled : ℕ → List P → List (ℕ × P)
  labelled action [] = []
  labelled action (p ∷ ps) = (action, p) ∷ labelled action ps

  -- what a message says
  abbrev pub payloads : Message P → List (ℕ × P)
  payloads (single action p) = (action, p) ∷ []
  payloads (batch action ps) = labelled action ps

  abbrev pub all_payloads : List (Message P) → List (ℕ × P)
  all_payloads [] = []
  all_payloads (m ∷ ms) = payloads m ++ all_payloads ms
