-- ===== src/Messaging/Bundles/Bounds.antt =====
-- How large a bundle is.
use voteit.Prelude.{
  ℕ, zero, suc, ◌+◌, ◌≤◌, ◌≡◌, ◌⊎◌, refl, Bool, true, false, ◌&&◌, ◌||◌, not, some, List, [], ◌∷◌,
  ◌++◌, ltb, leb, if◌then◌else◌, length, total, total-append, arith, Bool-cases, Option-cases, inl,
  inr,
}
use mathlib.Core.Option
use mathlib.Core.Path.{subst}
use voteit.Messaging.Bundles.Reader.{never}
use voteit.Messaging.{Message}
use voteit.Messaging.Bundles.{
  Sizes, StateSection, BundleSection, AppStateBundle, Packing, filled, overhead_of, usable_bytes,
  sized, take_pieces, entry, with_entry, flush, pack_section, pack_all, close_last, nothing_packed,
  iter_bundles,
}
use voteit.Messaging.Bundles.Measured.{Additive, messages_size, measured, sized-measured}

length-unfilled : {A : Type 0} (xs : List A) → filled xs ≡ false → length xs ≡ 0
length-unfilled [] h = refl
length-unfilled (x ∷ xs) h = cc

module _ {P : Type 0} (sizes : Sizes P) where
  -- entries that have messages, with their overhead
  abbrev pub entry_size : BundleSection P → ℕ
  entry_size e =
      if filled e.messages then overhead_of e.name + messages_size sizes e.messages else 0

  abbrev pub entry_count : BundleSection P → ℕ
  entry_count e = length e.messages

  abbrev pub content_size : List (BundleSection P) → ℕ
  content_size = total entry_size

  abbrev pub message_count : List (BundleSection P) → ℕ
  message_count = total entry_count

  module _ (usable : ℕ) where
    -- what is taken fits, but for the one message that an empty bundle takes
    abbrev taken : Bool → ℕ → List (Message P) → ℕ → Bool
    taken started base head n =
        not (filled head) || leb (base + n) usable || (not started && leb (length head) 1)

    taken_more :
        (started : Bool) (base : ℕ) (head : List (Message P)) (m : Message P) (n s : ℕ)
        → ((started || filled head) && ltb usable (base + n + s)) ≡ false
        → taken started base (head ++ m ∷ []) (n + s) ≡ true
    taken_more started base [] m n s go = ground arith
    taken_more started base (x ∷ head) m n s go = ground arith

    take_pieces-taken :
        (started : Bool) (base : ℕ) (head : List (Message P)) (n : ℕ)
        (pieces : List (Message P × ℕ))
        → measured sizes pieces ≡ true
        → messages_size sizes head ≤ n
        → taken started base head n ≡ true
        → let t = take_pieces sizes usable started base head n pieces in
          (messages_size sizes t.0 ≤ t.1)
          × (taken started base t.0 t.1 ≡ true)
          × (measured sizes t.2 ≡ true)
    take_pieces-taken started base head n [] h k l = (k, l, refl)
    take_pieces-taken started base head n ((m, s) ∷ pieces) h k l =
        elim (Bool-cases ((started || filled head) && ltb usable (base + n + s))) [
          | inl stop ↦ rw (stop, take_pieces) (k, l, h)
          | inr go ↦
              rw (go, take_pieces)
                (take_pieces-taken started base (head ++ m ∷ []) (n + s) pieces (ground arith)
                  (ground (arith, total-append (sizes.message_size) head (m ∷ [])))
                  (taken_more started base head m n s go))
        ]

    -- The bytes of the messages fit, or there is no more than one message.
    abbrev pub Fits : List (BundleSection P) → Type 0
    Fits es = (content_size es ≤ usable) ⊎ (message_count es ≤ 1)

    abbrev pub EachFits : List (AppStateBundle P) → Type 0
    EachFits [] = Unit
    EachFits (b ∷ bs) = Fits b.sections × EachFits bs

    EachFits-append :
        (xs : List (AppStateBundle P)) (b : AppStateBundle P)
        → EachFits xs
        → Fits b.sections
        → EachFits (xs ++ b ∷ [])
    EachFits-append [] b h k = (k, tt)
    EachFits-append (x ∷ xs) b h k = (h.0, EachFits-append xs b h.1 k)

    record IsPacked (p : Packing P) : Type 0 where
      counted : content_size p.packed ≤ p.used
      fits : Fits p.packed
      sent : EachFits p.bundles

    added-fits :
        (e : BundleSection P) (es : List (BundleSection P)) (used n : ℕ)
        → content_size es ≤ used
        → Fits es
        → messages_size sizes e.messages ≤ n
        → taken (filled es) (used + overhead_of e.name) e.messages n ≡ true
        → (content_size (es ++ e ∷ []) ≤ used + (overhead_of e.name + n)) × Fits (es ++ e ∷ [])
    added-fits e [] used n c f h k = ground (arith, length-unfilled e.messages)
    added-fits e (x ∷ es) used n c f h k = ground (
      arith,
      length-unfilled e.messages,
      total-append entry_size (x ∷ es) (e ∷ []),
      total-append entry_count (x ∷ es) (e ∷ []),
    )

    with_entry-IsPacked :
        (section : StateSection P) (done : Bool) (head : List (Message P)) (n : ℕ) (p : Packing P)
        → IsPacked p
        → messages_size sizes head ≤ n
        → taken (filled p.packed) (p.used + overhead_of section.name) head n ≡ true
        → IsPacked (with_entry section done head n p)
    with_entry-IsPacked section done head n p v h k = elim (Bool-cases (filled head || done)) [
      | inl added ↦
          let both = added-fits (entry section done head) p.packed p.used n v.counted v.fits h k in
          rw added (record { counted = both.0; fits = both.1; sent = v.sent })
      | inr nothing ↦ rw nothing v
    ]

    flush-IsPacked : (p : Packing P) → IsPacked p → IsPacked (flush p)
    flush-IsPacked p v = record {
      counted = omega arith;
      fits = inr (omega arith);
      sent = EachFits-append p.bundles (record { seq = p.seq; sections = p.packed }) v.sent v.fits;
    }

    pack_section-IsPacked :
        (rounds : ℕ) (section : StateSection P) (pieces : List (Message P × ℕ)) (p p' : Packing P)
        → measured sizes pieces ≡ true
        → IsPacked p
        → pack_section sizes usable rounds section pieces p ≡ some p'
        → IsPacked p'
    pack_section-IsPacked zero section pieces p p' h v e = cc
    pack_section-IsPacked (suc rounds) section pieces p p' h v e =
        let base = p.used + overhead_of section.name in
        let t = take_pieces sizes usable (filled p.packed) base [] 0 pieces in
        let ok = take_pieces-taken (filled p.packed) base [] 0 pieces h (omega arith) refl in
        elim (Bool-cases (filled t.2)) [
          | inl more ↦
              pack_section-IsPacked rounds section t.2 (flush (with_entry section false t.0 t.1 p))
                p' ok.2
                (flush-IsPacked (with_entry section false t.0 t.1 p)
                  (with_entry-IsPacked section false t.0 t.1 p v ok.0 ok.1))
                (rw (more, pack_section) at e)
          | inr over ↦
              let ended : some (with_entry section true t.0 t.1 p) ≡ some p' =
                rw (over, pack_section) at e in
              let same : with_entry section true t.0 t.1 p ≡ p' = cc in
              subst IsPacked same (with_entry-IsPacked section true t.0 t.1 p v ok.0 ok.1)
        ]

    pack_all-IsPacked :
        (additive : Additive sizes) (sections : List (StateSection P)) (p p' : Packing P)
        → IsPacked p
        → pack_all sizes usable sections p ≡ some p'
        → IsPacked p'
    pack_all-IsPacked additive [] p p' v e = let same : p ≡ p' = cc in subst IsPacked same v
    pack_all-IsPacked additive (s ∷ ss) p p' v e =
        let pieces = sized sizes usable (overhead_of s.name) s.messages in
        elim (Option-cases (pack_section sizes usable (suc (suc (length pieces))) s pieces p)) [
          | inl stuck ↦ absurd (never p' (rw (stuck, pack_all) at e))
          | inr (q, packed) ↦
              pack_all-IsPacked additive ss q p'
                (pack_section-IsPacked (suc (suc (length pieces))) s pieces p q
                  (sized-measured sizes usable additive (overhead_of s.name) s.messages) v packed)
                (rw (packed, pack_all) at e)
        ]

    close_last-EachFits : (p : Packing P) → IsPacked p → EachFits (close_last p)
    close_last-EachFits p v = elim (Bool-cases (filled p.packed)) [
      | inl more ↦
          rw more
            (EachFits-append p.bundles (record { seq = p.seq; sections = p.packed }) v.sent v.fits)
      | inr nothing ↦ rw nothing v.sent
    ]

    packed-EachFits :
        (additive : Additive sizes) (sections : List (StateSection P))
        (bundles : List (AppStateBundle P))
        → Option.map close_last (pack_all sizes usable sections nothing_packed) ≡ some bundles
        → EachFits bundles
    packed-EachFits additive sections bundles e =
        elim (Option-cases (pack_all sizes usable sections nothing_packed)) [
          | inl stuck ↦ absurd (ground arith)
          | inr (p, packed) ↦
              let same : close_last p ≡ bundles = cc in
              subst EachFits same (
                close_last-EachFits p (
                  pack_all-IsPacked additive sections nothing_packed p
                    (record { counted = omega arith; fits = inr (omega arith); sent = tt }) packed))
        ]

-- Where a batch is not longer than its envelope with its items and a comma for each: the messages of a
-- bundle, with the overhead of the entries that have some, are not longer than the budget leaves, or the
-- bundle has only one message.
pub iter_bundles_fit :
    {P : Type 0} (sizes : Sizes P) (budget : ℕ) (sections : List (StateSection P))
    (bundles : List (AppStateBundle P))
    → Additive sizes
    → iter_bundles sizes budget sections ≡ some bundles
    → EachFits sizes (usable_bytes budget) bundles
unfolding iter_bundles
iter_bundles_fit sizes budget sections bundles additive e =
    packed-EachFits sizes (usable_bytes budget) additive sections bundles e
