-- ===== src/Messaging/Bundles.antt =====
-- voteit/messaging/bundle.py: the sections that the collectors of a channel made are packed into
-- bundles that keep to a budget of bytes. How long the JSON of a message, of a payload and of an empty
-- batch is, are parameters.
use voteit.Prelude.{
  ℕ, zero, suc, ◌+◌, ◌-◌, Bool, true, false, not, ◌&&◌, ◌||◌, Option, none, some, List, [], ◌∷◌,
  ◌++◌, ltb, leb, if◌then◌else◌, length, map,
}
use mathlib.Core.Option
use voteit.Text.{Text}
use voteit.Messaging.{Message, single, batch}
pub mod Measured
pub mod Bounds
pub mod Reader
pub mod Reassembled
pub mod Split

abbrev pub frame_overhead : ℕ
frame_overhead = 256

abbrev pub section_overhead : ℕ
section_overhead = 64

pub record Sizes (P : Type 0) : Type 0 where
  pub message_size : Message P → ℕ
  pub item_size : P → ℕ
  pub envelope : ℕ → ℕ

-- `name` is the bytes of the collector's name.
pub record StateSection (P : Type 0) : Type 0 where
  pub name : Text
  pub messages : List (Message P)
  pub failed : Bool

pub record BundleSection (P : Type 0) : Type 0 where
  pub name : Text
  pub complete : Bool
  pub failed : Bool
  pub messages : List (Message P)

pub record AppStateBundle (P : Type 0) : Type 0 where
  pub seq : ℕ
  pub sections : List (BundleSection P)

-- what `iter_bundles` has yielded, and its variables
pub record Packing (P : Type 0) : Type 0 where
  pub bundles : List (AppStateBundle P)
  pub seq : ℕ
  pub packed : List (BundleSection P)
  pub used : ℕ

abbrev pub filled {ℓ} : {A : Type ℓ} → List A → Bool
filled [] = false
filled (x ∷ xs) = true

abbrev pub overhead_of : Text → ℕ
overhead_of name = section_overhead + length name

-- `max(budget - FRAME_OVERHEAD, SECTION_OVERHEAD + 1)`
abbrev pub usable_bytes : ℕ → ℕ
usable_bytes budget =
    let left = budget - frame_overhead in
    if ltb left (section_overhead + 1) then section_overhead + 1 else left

module _ {P : Type 0} where
  abbrev pub entry : StateSection P → Bool → List (Message P) → BundleSection P
  entry section done head = record {
    name = section.name;
    complete = done;
    failed = section.failed;
    messages = head;
  }

  -- `if head or done`
  abbrev pub with_entry : StateSection P → Bool → List (Message P) → ℕ → Packing P → Packing P
  with_entry section done head head_size p =
      if filled head || done
      then record p {
        packed = p.packed ++ entry section done head ∷ [];
        used = p.used + (overhead_of section.name + head_size);
      }
      else p

  -- `yield bundle(seq, packed)`
  abbrev pub flush : Packing P → Packing P
  flush p = record p {
    bundles = p.bundles ++ record { seq = p.seq; sections = p.packed } ∷ [];
    seq = suc p.seq;
    packed = [];
    used = 0;
  }

  abbrev pub close_last : Packing P → List (AppStateBundle P)
  close_last p =
      if filled p.packed
      then p.bundles ++ record { seq = p.seq; sections = p.packed } ∷ []
      else p.bundles

module _ {P : Type 0} (sizes : Sizes P) (usable : ℕ) where
  open sizes use {message_size, item_size, envelope}

  -- The limit of a section is `usable - overhead`, which may be negative: the overhead is added on the
  -- other side.
  abbrev pub split_items : ℕ → ℕ → List P → ℕ → List P → List (Message P × ℕ)
  split_items overhead action chunk chunk_size [] = elim (filled chunk) [
    | true ↦ (batch action chunk, envelope action + chunk_size) ∷ []
    | false ↦ []
  ]
  split_items overhead action chunk chunk_size (item ∷ items) =
      elim (filled chunk
        && ltb usable (envelope action + chunk_size + (item_size item + 1) + overhead)) [
          | true ↦
              (batch action chunk, envelope action + chunk_size)
              ∷ split_items overhead action (item ∷ []) (item_size item + 1) items
          | false ↦
              split_items overhead action (chunk ++ item ∷ []) (chunk_size + (item_size item + 1))
                items
        ]

  unfoldable pub split_batch : ℕ → Message P → List (Message P × ℕ)
  split_batch overhead (single action p) = (single action p, message_size (single action p)) ∷ []
  split_batch overhead (batch action []) = (batch action [], message_size (batch action [])) ∷ []
  split_batch overhead (batch action (p ∷ ps)) = split_items overhead action [] 0 (p ∷ ps)

  unfoldable pub sized : ℕ → List (Message P) → List (Message P × ℕ)
  sized overhead [] = []
  sized overhead (m ∷ ms) =
      (if leb (message_size m + overhead) usable
        then (m, message_size m) ∷ []
        else split_batch overhead m)
      ++ sized overhead ms

  -- `while index < len(pieces)`: the messages that are taken, their size, and the pieces that are left
  abbrev pub take_pieces :
      Bool
      → ℕ
      → List (Message P)
      → ℕ
      → List (Message P × ℕ)
      → List (Message P) × ℕ × List (Message P × ℕ)
  take_pieces started base head head_size [] = (head, head_size, [])
  take_pieces started base head head_size ((m, size) ∷ pieces) =
      elim ((started || filled head) && ltb usable (base + head_size + size)) [
        | true ↦ (head, head_size, (m, size) ∷ pieces)
        | false ↦ take_pieces started base (head ++ m ∷ []) (head_size + size) pieces
      ]

  -- `while True`, by rounds; `done` is whether no piece is left
  abbrev pub pack_section :
      ℕ → StateSection P → List (Message P × ℕ) → Packing P → Option (Packing P)
  pack_section zero section pieces p = none
  pack_section (suc rounds) section pieces p =
      let (head, head_size, rest) =
        take_pieces (filled p.packed) (p.used + overhead_of section.name) [] 0 pieces in
      elim (filled rest) [
        | true ↦
            pack_section rounds section rest (flush (with_entry section false head head_size p))
        | false ↦ some (with_entry section true head head_size p)
      ]

  abbrev pub pack_all : List (StateSection P) → Packing P → Option (Packing P)
  pack_all [] p = some p
  pack_all (s ∷ ss) p =
      let pieces = sized (overhead_of s.name) s.messages in
      elim (pack_section (suc (suc (length pieces))) s pieces p) [
        | none ↦ none
        | some p' ↦ pack_all ss p'
      ]

abbrev pub nothing_packed : {P : Type 0} → Packing P
nothing_packed = record { bundles = []; seq = 0; packed = []; used = 0 }

-- `budget` is the one that was asked for, or that of the settings. A section is given two rounds more than
-- it has pieces.
unfoldable pub iter_bundles :
    {P : Type 0} → Sizes P → ℕ → List (StateSection P) → Option (List (AppStateBundle P))
iter_bundles sizes budget sections =
    Option.map close_last (pack_all sizes (usable_bytes budget) sections nothing_packed)
