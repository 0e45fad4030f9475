-- ===== src/Messaging/Batcher/Told.antt =====
-- Collapsing loses nothing and keeps the order of what one target is told of one action.
use voteit.Prelude.{
  ℕ, ◌≡◌, refl, sym, ap, ◌∙◌, Bool, true, false, ◌&&◌, List, [], ◌∷◌, ◌++◌, ◌==◌, leb,
  if◌then◌else◌, length, map, Bool-cases, inl, inr, arith,
}
use mathlib.Core.List.{append_assoc, append-nil}
use voteit.Messaging.{Message, single, batch}
use voteit.Messaging.Batcher.{
  Target, Key, same_target, same_key, has_key, Grouped, group_of, group_all, items_of, has_batch,
  emit, emit_all, collapse,
}
use voteit.Messaging.Batcher.Kept.{eq_of_same_key, chosen, group_all-group_of}
use voteit.Messaging.Batcher.Order.{distinct_keys, some_chosen, group_all-order}

abbrev plain_key : ℕ → Target → Key
plain_key a t = record { batched = false; action = a; target = t }

same_key-plain :
    (k : Key) (a : ℕ) (t : Target)
    → k.batched ≡ false
    → same_key k (plain_key a t) ≡ (k.action == a && same_target k.target t)
unfolding same_key
same_key-plain k a t h = rw h refl

module _ {P : Type 0} where
  -- what a message says of an action
  abbrev about : ℕ → Message P → List P
  about a (single b p) = if b == a then p ∷ [] else []
  about a (batch b ps) = if b == a then ps else []

  -- what a target is told of an action, in order
  abbrev pub told : ℕ → Target → List (Message P × Target) → List P
  told a t [] = []
  told a t ((m, s) ∷ sent) =
      let rest = told a t sent in if same_target s t then about a m ++ rest else rest

  abbrev pub all_single : List (Message P × Target) → Bool
  all_single [] = true
  all_single ((single a p, t) ∷ sent) = all_single sent
  all_single ((batch a ps, t) ∷ sent) = false

  -- messages of the action, none of which is a batch
  abbrev of_action : ℕ → List (Message P) → Bool
  of_action a [] = true
  of_action a (single b p ∷ ms) = b == a && of_action a ms
  of_action a (batch b ps ∷ ms) = false

  told-append :
      (a : ℕ) (t : Target) (xs ys : List (Message P × Target))
      → told a t (xs ++ ys) ≡ told a t xs ++ told a t ys
  told-append a t [] ys = refl
  told-append a t ((m, s) ∷ xs) ys =
      ground (arith, told-append a t xs ys, append_assoc (about a m) (told a t xs) (told a t ys))

  told_each_other :
      (a b : ℕ) (s t : Target) (ms : List (Message P))
      → of_action b ms ≡ true
      → (b == a && same_target s t) ≡ false
      → told a t (map (λ m. (m, s)) ms) ≡ []
  told_each_other a b s t [] h k = refl
  told_each_other a b s t (single c p ∷ ms) h k = ground (arith, told_each_other a b s t ms)
  told_each_other a b s t (batch c ps ∷ ms) h k = cc

  told_each :
      (a b : ℕ) (s t : Target) (ms : List (Message P))
      → of_action b ms ≡ true
      → (b == a && same_target s t) ≡ true
      → told a t (map (λ m. (m, s)) ms) ≡ items_of ms
  told_each a b s t [] h k = refl
  told_each a b s t (single c p ∷ ms) h k = ground (arith, told_each a b s t ms)
  told_each a b s t (batch c ps ∷ ms) h k = cc

  items_of-chosen :
      (a : ℕ) (t : Target) (sent : List (Message P × Target))
      → all_single sent ≡ true
      → items_of (chosen (plain_key a t) sent) ≡ told a t sent
  unfolding same_key
  items_of-chosen a t [] h = refl
  items_of-chosen a t ((single b p, s) ∷ sent) h = ground (arith, items_of-chosen a t sent)
  items_of-chosen a t ((batch b ps, s) ∷ sent) h = cc

  of_action-chosen :
      (k : Key) (sent : List (Message P × Target))
      → all_single sent ≡ true
      → of_action k.action (chosen k sent) ≡ true
  unfolding same_key
  of_action-chosen k [] h = refl
  of_action-chosen k ((single b p, s) ∷ sent) h = ground (arith, of_action-chosen k sent)
  of_action-chosen k ((batch b ps, s) ∷ sent) h = cc

  none_chosen :
      (k : Key) (sent : List (Message P × Target)) → some_chosen k sent ≡ false → chosen k sent ≡ []
  none_chosen k [] h = refl
  none_chosen k ((m, t) ∷ sent) h = ground (arith, none_chosen k sent)

  batched_none :
      (k : Key) (sent : List (Message P × Target))
      → all_single sent ≡ true
      → k.batched ≡ true
      → chosen k sent ≡ []
  unfolding same_key
  batched_none k [] h b = refl
  batched_none k ((single c p, s) ∷ sent) h b = ground (arith, batched_none k sent)
  batched_none k ((batch c ps, s) ∷ sent) h b = cc

  -- what is told of an action by one group
  told_group :
      (registered : ℕ → Bool) (threshold a : ℕ) (t : Target) (k : Key) (ms : List (Message P))
      → of_action k.action ms ≡ true
      → k.batched ≡ false
      → told a t (emit registered threshold k ms)
        ≡ (if k.action == a && same_target k.target t then items_of ms else [])
  told_group registered threshold a t k ms h b =
      elim (Bool-cases (leb threshold (length ms) && has_batch registered k)) [
        | inl big ↦ rw (big, emit) (ground (arith, append-nil (items_of ms)))
        | inr few ↦ elim (Bool-cases (k.action == a && same_target k.target t)) [
          | inl his ↦ rw (few, emit, his) (told_each a k.action k.target t ms h his)
          | inr other ↦ rw (few, emit, other) (told_each_other a k.action k.target t ms h other)
        ]
      ]

  told_nothing :
      (registered : ℕ → Bool) (threshold a : ℕ) (t : Target) (k : Key)
      → k.batched ≡ true
      → told a t (emit registered threshold k []) ≡ (if same_key k (plain_key a t) then [] else [])
  told_nothing registered threshold a t k h = ground arith

  told-emit :
      (registered : ℕ → Bool) (threshold a : ℕ) (t : Target) (k : Key)
      (sent : List (Message P × Target))
      → all_single sent ≡ true
      → told a t (emit registered threshold k (chosen k sent))
        ≡ (if same_key k (plain_key a t) then items_of (chosen k sent) else [])
  told-emit registered threshold a t k sent h = elim (Bool-cases k.batched) [
    | inl batched ↦
        rw (batched_none k sent h batched) (told_nothing registered threshold a t k batched)
    | inr plain ↦
        told_group registered threshold a t k (chosen k sent) (of_action-chosen k sent h) plain
        ∙ ap (λ b. if b then items_of (chosen k sent) else []) (sym (same_key-plain k a t plain))
  ]

  told-emit_all :
      (registered : ℕ → Bool) (threshold a : ℕ) (t : Target) (sent : List (Message P × Target))
      (order : List Key) (g : Grouped P)
      → all_single sent ≡ true
      → ((k : Key) → group_of k g ≡ chosen k sent)
      → distinct_keys order ≡ true
      → told a t (emit_all registered threshold order g)
        ≡ (if has_key (plain_key a t) order then items_of (chosen (plain_key a t) sent) else [])
  told-emit_all registered threshold a t sent [] g h same d = refl
  told-emit_all registered threshold a t sent (k ∷ order) g h same d =
      let rest = told-emit_all registered threshold a t sent order g h same (ground arith) in
      told-append a t (emit registered threshold k (group_of k g))
        (emit_all registered threshold order g)
      ∙ (λ i.
          (ap (λ ms. told a t (emit registered threshold k ms)) (same k)
              ∙ told-emit registered threshold a t k sent h)
            i
          ++ rest i)
      ∙ elim (Bool-cases (same_key k (plain_key a t))) [
        | inl his ↦
            let e = eq_of_same_key k (plain_key a t) his in
            let once : has_key (plain_key a t) order ≡ false =
              ap (λ l. has_key l order) (sym e) ∙ ground arith in
            rw (his, once)
              (append-nil (items_of (chosen k sent)) ∙ ap (λ l. items_of (chosen l sent)) e)
        | inr other ↦ rw other refl
      ]

  -- If no message that a transaction sends is itself a batch, then for each action and each target, with
  -- any threshold and any registered actions: the payloads of that action that the target gets, in
  -- messages of their own or in batches, are those that were sent to it, each once and in the order in
  -- which they were added.
  pub collapse_lem :
      (registered : ℕ → Bool) (threshold a : ℕ) (t : Target) (sent : List (Message P × Target))
      → all_single sent ≡ true
      → told a t (collapse registered threshold sent) ≡ told a t sent
  unfolding collapse
  collapse_lem registered threshold a t sent h =
      let k = plain_key a t in
      let (keys, once) = group_all-order sent [] [] ((λ j. refl), refl) in
      told-emit_all registered threshold a t sent (group_all sent [] []).0 (group_all sent [] []).1
        h (λ j. group_all-group_of sent j [] []) once
      ∙ ap (λ b. if b then items_of (chosen k sent) else []) (keys k)
      ∙ elim (Bool-cases (some_chosen k sent)) [
        | inl there ↦ rw there (items_of-chosen a t sent h)
        | inr gone ↦
            rw gone (ap items_of (sym (none_chosen k sent gone)) ∙ items_of-chosen a t sent h)
      ]
