-- ===== src/Messaging/Bundles/Reader.antt =====
-- What a client makes of the bundles: it puts the pieces of a section together.
use voteit.Prelude.{
  ℕ, ◌≡◌, refl, sym, ap, ◌∙◌, Bool, true, false, ◌||◌, Option, none, some, List, [], ◌∷◌, ◌++◌,
  if◌then◌else◌, Bool-cases, inl, inr,
}
use mathlib.Core.List.{append_assoc, append-nil}
use voteit.Text.{Text}
use voteit.Messaging.{Message}
use voteit.Messaging.Bundles.{
  StateSection, BundleSection, AppStateBundle, Packing, filled, entry, with_entry, flush,
  close_last,
}

-- A section that was announced as complete.
pub record Received (P : Type 0) : Type 0 where
  pub name : Text
  pub failed : Bool
  pub messages : List (Message P)

-- What the client has, and the messages of the section that goes on.
pub record Reader (P : Type 0) : Type 0 where
  pub done : List (Received P)
  pub partial : List (Message P)

pub unfilled {ℓ} : {A : Type ℓ} (xs : List A) → filled xs ≡ false → xs ≡ []
unfilled [] h = refl
unfilled (x ∷ xs) h = cc

module _ {P : Type 0} where
  abbrev pub feed : Reader P → BundleSection P → Reader P
  feed r e = elim e.complete [
    | true ↦ record {
      done =
          r.done
          ++ record { name = e.name; failed = e.failed; messages = r.partial ++ e.messages } ∷ [];
      partial = [];
    }
    | false ↦ record { done = r.done; partial = r.partial ++ e.messages }
  ]

  abbrev pub feed_all : Reader P → List (BundleSection P) → Reader P
  feed_all r [] = r
  feed_all r (e ∷ es) = feed_all (feed r e) es

  abbrev pub sections_of : List (AppStateBundle P) → List (BundleSection P)
  sections_of [] = []
  sections_of (b ∷ bs) = b.sections ++ sections_of bs

  abbrev pub new_reader : Reader P
  new_reader = record { done = []; partial = [] }

  abbrev pub reassembled : List (AppStateBundle P) → Reader P
  reassembled bs = feed_all new_reader (sections_of bs)

  feed_all-append :
      (r : Reader P) (xs ys : List (BundleSection P))
      → feed_all r (xs ++ ys) ≡ feed_all (feed_all r xs) ys
  feed_all-append r [] ys = refl
  feed_all-append r (x ∷ xs) ys = feed_all-append (feed r x) xs ys

  sections_of-append :
      (xs ys : List (AppStateBundle P)) → sections_of (xs ++ ys) ≡ sections_of xs ++ sections_of ys
  sections_of-append [] ys = refl
  sections_of-append (x ∷ xs) ys =
      ap (λ es. x.sections ++ es) (sections_of-append xs ys)
      ∙ sym (append_assoc x.sections (sections_of xs) (sections_of ys))

  pub never : (p : Packing P) → ◌≡◌ {A = Option (Packing P)} none (some p) → ⊥
  never p h = cc

  -- what the client has once everything that was packed is sent
  abbrev pub read_so_far : Packing P → Reader P
  read_so_far p = feed_all new_reader (sections_of p.bundles ++ p.packed)

  read-flush : (p : Packing P) → read_so_far (flush p) ≡ read_so_far p
  read-flush p = ap (feed_all new_reader) (
      append-nil (sections_of (flush p).bundles)
      ∙ sections_of-append p.bundles (record { seq = p.seq; sections = p.packed } ∷ [])
      ∙ ap (λ es. sections_of p.bundles ++ es) (append-nil p.packed))

  read-added :
      (es fs : List (BundleSection P)) (e : BundleSection P)
      → feed_all new_reader (es ++ (fs ++ e ∷ [])) ≡ feed (feed_all new_reader (es ++ fs)) e
  read-added es fs e =
      ap (feed_all new_reader) (sym (append_assoc es fs (e ∷ [])))
      ∙ feed_all-append new_reader (es ++ fs) (e ∷ [])

  read-with_entry :
      (section : StateSection P) (done : Bool) (head : List (Message P)) (n : ℕ) (p : Packing P)
      → read_so_far (with_entry section done head n p) ≡ (
          if filled head || done
          then feed (read_so_far p) (entry section done head)
          else read_so_far p)
  read-with_entry section done head n p = elim (Bool-cases (filled head || done)) [
    | inl added ↦ rw added (read-added (sections_of p.bundles) p.packed (entry section done head))
    | inr nothing ↦ rw nothing
  ]

  pub read-close_last : (p : Packing P) → reassembled (close_last p) ≡ read_so_far p
  read-close_last p = elim (Bool-cases (filled p.packed)) [
    | inl some_left ↦ rw some_left (
        ap (feed_all new_reader) (
          sections_of-append p.bundles (record { seq = p.seq; sections = p.packed } ∷ [])
          ∙ ap (λ es. sections_of p.bundles ++ es) (append-nil p.packed)))
    | inr none_left ↦ rw none_left (
        ap (feed_all new_reader) (
          sym (append-nil (sections_of p.bundles))
          ∙ ap (λ es. sections_of p.bundles ++ es) (sym (unfilled p.packed none_left))))
  ]

  -- the section with the messages that are still to come
  abbrev pub finish : StateSection P → List (Message P) → Reader P → Reader P
  finish section messages r = record {
    done =
        r.done
        ++ record { name = section.name; failed = section.failed; messages = r.partial ++ messages }
          ∷ [];
    partial = [];
  }

  pub finish-feed :
      (section : StateSection P) (head tail : List (Message P)) (r : Reader P)
      → finish section tail (feed r (entry section false head)) ≡ finish section (head ++ tail) r
  finish-feed section head tail r =
      ap
        (λ ms. record {
          done =
              r.done ++ record { name = section.name; failed = section.failed; messages = ms } ∷ [];
          partial = [];
        })
        (append_assoc r.partial head tail)

  pub finish-with_entry :
      (section : StateSection P) (head tail : List (Message P)) (n : ℕ) (p : Packing P)
      → finish section tail (read_so_far (flush (with_entry section false head n p)))
        ≡ finish section (head ++ tail) (read_so_far p)
  finish-with_entry section [] tail n p = ap (finish section tail) (read-flush p)
  finish-with_entry section (m ∷ head) tail n p =
      ap (finish section tail) (
        read-flush (with_entry section false (m ∷ head) n p)
        ∙ read-with_entry section false (m ∷ head) n p)
      ∙ finish-feed section (m ∷ head) tail (read_so_far p)

  pub read-finished :
      (section : StateSection P) (head : List (Message P)) (n : ℕ) (p : Packing P)
      → read_so_far (with_entry section true head n p) ≡ finish section head (read_so_far p)
  read-finished section [] n p = read-with_entry section true [] n p
  read-finished section (m ∷ head) n p = read-with_entry section true (m ∷ head) n p
