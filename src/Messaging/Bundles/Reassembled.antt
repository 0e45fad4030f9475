-- ===== src/Messaging/Bundles/Reassembled.antt =====
-- A client that puts the pieces of each section together has what the collectors made.
use voteit.Prelude.{
  ℕ, zero, suc, ◌+◌, ◌≤◌, ◌<◌, ◌≡◌, ◌≢◌, refl, sym, ap, ◌∙◌, Bool, true, false, none, some, List,
  [], ◌∷◌, ◌++◌, if◌then◌else◌, map, length, arith, Bool-cases, Option-cases, inl, inr,
}
use mathlib.Core.List.{append_assoc, append-nil}
use voteit.Text.{Text}
use voteit.Messaging.{Message, all_payloads}
use voteit.Messaging.Bundles.{
  Sizes, StateSection, AppStateBundle, Packing, filled, overhead_of, usable_bytes, take_pieces,
  with_entry, flush, pack_section, pack_all, close_last, nothing_packed, sized, iter_bundles,
}
use voteit.Messaging.Bundles.Split.{pieces_of, sized-payloads}
use voteit.Messaging.Bundles.Reader.{
  Received, Reader, reassembled, unfilled, never, read_so_far, read-close_last, finish,
  finish-with_entry, read-finished,
}

module _ {P : Type 0} (sizes : Sizes P) (usable : ℕ) where
  take_pieces-all :
      (started : Bool) (base : ℕ) (head : List (Message P)) (n : ℕ) (pieces : List (Message P × ℕ))
      → let t = take_pieces sizes usable started base head n pieces in
        t.0 ++ pieces_of t.2 ≡ head ++ pieces_of pieces
  take_pieces-all started base head n [] = refl
  take_pieces-all started base head n ((m, k) ∷ pieces) = ground (
    arith,
    take_pieces-all started base (head ++ m ∷ []) (n + k) pieces,
    append_assoc head (m ∷ []) (pieces_of pieces),
  )

  take_pieces-fewer :
      (started : Bool) (base : ℕ) (head : List (Message P)) (n : ℕ) (pieces : List (Message P × ℕ))
      → length (take_pieces sizes usable started base head n pieces).2 ≤ length pieces
  take_pieces-fewer started base head n [] = omega arith
  take_pieces-fewer started base head n ((m, k) ∷ pieces) =
      ground (arith, take_pieces-fewer started base (head ++ m ∷ []) (n + k) pieces)

  take_pieces_some :
      (base : ℕ) (x : Message P × ℕ) (pieces : List (Message P × ℕ))
      → length (take_pieces sizes usable false base [] 0 (x ∷ pieces)).2 ≤ length pieces
  take_pieces_some base (m, k) pieces = take_pieces-fewer false base (m ∷ []) (0 + k) pieces

  pack_section-read :
      (rounds : ℕ) (section : StateSection P) (pieces : List (Message P × ℕ)) (p p' : Packing P)
      → pack_section sizes usable rounds section pieces p ≡ some p'
      → read_so_far p' ≡ finish section (pieces_of pieces) (read_so_far p)
  pack_section-read zero section pieces p p' h = cc
  pack_section-read (suc rounds) section pieces p p' h =
      let base = p.used + overhead_of section.name in
      let t = take_pieces sizes usable (filled p.packed) base [] 0 pieces in
      elim (Bool-cases (filled t.2)) [
        | inl more ↦
            pack_section-read rounds section t.2 (flush (with_entry section false t.0 t.1 p)) p'
              (rw (more, pack_section) at h)
            ∙ finish-with_entry section t.0 (pieces_of t.2) t.1 p
            ∙ ap (λ ms. finish section ms (read_so_far p))
                (take_pieces-all (filled p.packed) base [] 0 pieces)
        | inr over ↦
            let ended : some (with_entry section true t.0 t.1 p) ≡ some p' =
              rw (over, pack_section) at h in
            let e : with_entry section true t.0 t.1 p ≡ p' = cc in
            ap read_so_far (sym e)
            ∙ read-finished section t.0 t.1 p
            ∙ ap (λ ms. finish section ms (read_so_far p))
                (sym (append-nil t.0)
                  ∙ ap (λ ps. t.0 ++ pieces_of ps) (sym (unfilled t.2 over))
                  ∙ take_pieces-all (filled p.packed) base [] 0 pieces)
      ]

  -- a section as its collector made it, in pieces that fit
  abbrev whole : StateSection P → Received P
  whole s = record {
    name = s.name;
    failed = s.failed;
    messages = pieces_of (sized sizes usable (overhead_of s.name) s.messages);
  }

  abbrev complete : List (Received P) → Reader P
  complete done = record { done = done; partial = [] }

  pack_all-read :
      (sections : List (StateSection P)) (done : List (Received P)) (p p' : Packing P)
      → read_so_far p ≡ complete done
      → pack_all sizes usable sections p ≡ some p'
      → read_so_far p' ≡ complete (done ++ map whole sections)
  pack_all-read [] done p p' h e =
      let same : p ≡ p' = cc in ap read_so_far (sym same) ∙ h ∙ ap complete (sym (append-nil done))
  pack_all-read (s ∷ ss) done p p' h e =
      let pieces = sized sizes usable (overhead_of s.name) s.messages in
      elim (Option-cases (pack_section sizes usable (suc (suc (length pieces))) s pieces p)) [
        | inl stuck ↦ absurd (never p' (rw (stuck, pack_all) at e))
        | inr (q, packed) ↦
            pack_all-read ss (done ++ whole s ∷ []) q p'
              (pack_section-read (suc (suc (length pieces))) s pieces p q packed
                ∙ ap (finish s (pieces_of pieces)) h)
              (rw (packed, pack_all) at e)
            ∙ ap complete (append_assoc done (whole s ∷ []) (map whole ss))
      ]

  -- with an empty bundle each round takes a piece
  left_fewer :
      (base : ℕ) (p : Packing P) (x : Message P × ℕ) (pieces : List (Message P × ℕ))
      → length (take_pieces sizes usable (filled p.packed) base [] 0 (x ∷ pieces)).2
        ≤ length pieces + (if filled p.packed then 1 else 0)
  left_fewer base p x pieces = elim (Bool-cases (filled p.packed)) [
    | inl started ↦ rw started (omega (arith, take_pieces-fewer true base [] 0 (x ∷ pieces)))
    | inr fresh ↦ rw fresh (omega (arith, take_pieces_some base x pieces))
  ]

  pack_section_total :
      (rounds : ℕ) (section : StateSection P) (pieces : List (Message P × ℕ)) (p : Packing P)
      → length pieces + (if filled p.packed then 1 else 0) < rounds
      → pack_section sizes usable rounds section pieces p ≢ none
  pack_section_total zero section pieces p h = absurd (omega arith)
  pack_section_total (suc rounds) section [] p h =
      λ e. never (with_entry section true [] 0 p) (sym e)
  pack_section_total (suc rounds) section (x ∷ pieces) p h =
      let base = p.used + overhead_of section.name in
      let t = take_pieces sizes usable (filled p.packed) base [] 0 (x ∷ pieces) in
      elim (Bool-cases (filled t.2)) [
        | inl more ↦ λ e.
            pack_section_total rounds section t.2 (flush (with_entry section false t.0 t.1 p))
              (omega (arith, left_fewer base p x pieces)) (rw (more, pack_section) at e)
        | inr over ↦
            λ e. never (with_entry section true t.0 t.1 p) (sym (rw (over, pack_section) at e))
      ]

  pack_all_total :
      (sections : List (StateSection P)) (p : Packing P) → pack_all sizes usable sections p ≢ none
  pack_all_total [] p = λ e. never p (sym e)
  pack_all_total (s ∷ ss) p =
      let pieces = sized sizes usable (overhead_of s.name) s.messages in
      elim (Option-cases (pack_section sizes usable (suc (suc (length pieces))) s pieces p)) [
        | inl stuck ↦
            absurd (pack_section_total (suc (suc (length pieces))) s pieces p (ground arith) stuck)
        | inr (q, packed) ↦ λ e. pack_all_total ss q (rw (packed, pack_all) at e)
      ]

-- what a section says: its name, its mark and its payloads
abbrev pub Saying : Type 0 → Type 0
Saying P = Text × Bool × List (ℕ × P)

module _ {P : Type 0} where
  abbrev pub said : Received P → Saying P
  said r = (r.name, r.failed, all_payloads r.messages)

  abbrev pub given : StateSection P → Saying P
  given s = (s.name, s.failed, all_payloads s.messages)

  said-whole :
      (sizes : Sizes P) (usable : ℕ) (sections : List (StateSection P))
      → map said (map (whole sizes usable) sections) ≡ map given sections
  said-whole sizes usable [] = refl
  said-whole sizes usable (s ∷ ss) = λ i.
      (s.name, s.failed, sized-payloads sizes usable (overhead_of s.name) s.messages i)
      ∷ said-whole sizes usable ss i

-- Packing ends, within the rounds that each section is given. A client that takes the messages of an
-- entry to the section that goes on, and closes that section at the entry that is marked as complete,
-- has after the last bundle each section of the collectors once, in their order, with its name and
-- its mark, nothing that is left over, and payloads that are those the collector gave, in their order.
pub iter_bundles_lem :
    {P : Type 0} (sizes : Sizes P) (budget : ℕ) (sections : List (StateSection P))
    → (bundles : List (AppStateBundle P)) × (iter_bundles sizes budget sections ≡ some bundles)
      × (map said (reassembled bundles).done ≡ map given sections)
      × ((reassembled bundles).partial ≡ [])
unfolding iter_bundles
iter_bundles_lem sizes budget sections =
    let usable = usable_bytes budget in
    elim (Option-cases (pack_all sizes usable sections nothing_packed)) [
      | inl stuck ↦ absurd (pack_all_total sizes usable sections nothing_packed stuck)
      | inr (p, packed) ↦
          let e =
            read-close_last p
            ∙ pack_all-read sizes usable sections [] nothing_packed p refl packed in
          (
            close_last p,
            rw (packed, iter_bundles) refl,
            ap (λ (r : Reader _). map said r.done) e ∙ said-whole sizes usable sections,
            ap (λ (r : Reader _). r.partial) e,
          )
    ]
