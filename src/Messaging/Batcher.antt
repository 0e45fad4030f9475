-- ===== src/Messaging/Batcher.antt =====
-- `TransactionBatcher` of voteit/messaging/utils.py: messages of one action to one target, sent in one
-- transaction, go out as one batch. Whether an action is registered, so that it has a batch, and the
-- threshold of the settings are parameters.
pub mod Kept
pub mod Order
pub mod Told
use voteit.Prelude.{
  ℕ, zero, suc, ◌+◌, ◌≡◌, ◌↔◌, refl, Bool, true, false, not, ◌&&◌, ◌||◌, List, [], ◌∷◌, ◌++◌, ◌==◌,
  leb, if◌then◌else◌, length, map, arith,
}
use voteit.Text.{Text, same_text}
use voteit.Messaging.{Message, single, batch}

pub record Target : Type 0 where
  pub name : Text
  pub group : Bool
  pub layer : Text

abbrev pub same_bool : Bool → Bool → Bool
same_bool true b = b
same_bool false b = not b

-- The action of a batch is not that of its messages.
pub record Key : Type 0 where
  pub batched : Bool
  pub action : ℕ
  pub target : Target

abbrev pub same_target : Target → Target → Bool
same_target s t = same_text s.name t.name && same_bool s.group t.group && same_text s.layer t.layer

unfoldable pub same_key : Key → Key → Bool
same_key k l =
    same_bool k.batched l.batched && k.action == l.action && same_target k.target l.target

abbrev pub has_key : Key → List Key → Bool
has_key k [] = false
has_key k (j ∷ ks) = same_key j k || has_key k ks

abbrev pub Grouped : Type 0 → Type 0
Grouped P = List (Key × List (Message P))

-- `maybe_batch_for(type(messages[0]))` is there
abbrev pub has_batch : (ℕ → Bool) → Key → Bool
has_batch registered k = not k.batched && registered k.action

module _ {P : Type 0} where
  -- `(message.action, target)`
  abbrev pub key_of : Message P × Target → Key
  key_of (single a p, t) = record { batched = false; action = a; target = t }
  key_of (batch a ps, t) = record { batched = true; action = a; target = t }

  -- `grouped[key].append(message)`
  abbrev pub append_to : Key → Message P → Grouped P → Grouped P
  append_to k m [] = (k, m ∷ []) ∷ []
  append_to k m ((j, ms) ∷ g) =
      let rest = append_to k m g in if same_key j k then (j, ms ++ m ∷ []) ∷ g else (j, ms) ∷ rest

  abbrev pub group_of : Key → Grouped P → List (Message P)
  group_of k [] = []
  group_of k ((j, ms) ∷ g) = if same_key j k then ms else group_of k g

  -- `key in grouped`
  abbrev pub in_grouped : Key → Grouped P → Bool
  in_grouped k [] = false
  in_grouped k ((j, ms) ∷ g) = same_key j k || in_grouped k g

  -- the loop over `self.data`
  abbrev pub group_all : List (Message P × Target) → List Key → Grouped P → List Key × Grouped P
  group_all [] order grouped = (order, grouped)
  group_all ((m, t) ∷ sent) order grouped =
      let key = key_of (m, t) in
      group_all sent (if in_grouped key grouped then order else order ++ key ∷ [])
        (append_to key m grouped)

  -- `[m.payload for m in messages]` for messages that are no batches; batches have no batch
  abbrev pub items_of : List (Message P) → List P
  items_of [] = []
  items_of (single a p ∷ ms) = p ∷ items_of ms
  items_of (batch a ps ∷ ms) = items_of ms

  module _ (registered : ℕ → Bool) (threshold : ℕ) where
    abbrev pub emit : Key → List (Message P) → List (Message P × Target)
    emit key messages =
        if leb threshold (length messages) && has_batch registered key
        then (batch key.action (items_of messages), key.target) ∷ []
        else map (λ m. (m, key.target)) messages

    abbrev pub emit_all : List Key → Grouped P → List (Message P × Target)
    emit_all [] grouped = []
    emit_all (key ∷ order) grouped = emit key (group_of key grouped) ++ emit_all order grouped

    unfoldable pub collapse : List (Message P × Target) → List (Message P × Target)
    collapse sent = let (order, grouped) = group_all sent [] [] in emit_all order grouped
