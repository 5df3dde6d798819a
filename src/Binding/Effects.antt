-- ===== src/Binding/Effects.antt =====
-- The binding list of include/reception_point.C while a thread answers through one of its bindings:
-- what the engine and the other threads do to it.
use gservices.Base.{
  ℕ, ◌≡◌, ◌==◌, refl, sym, ap, ◌∙◌, List, [], ◌∷◌, true, false, none, some, arith, Bool-cases, inl,
  inr,
}
use gservices.Reception.{BindingNode, ReceptionPoint, insert_next, binding_list_freeing_fct}
use gservices.Reception.Freeing.{kept, binding_list_freeing_fct_lem}
use gservices.Binding.{
  find_binding, update_binding, change_binding, set_request_message, set_still_busy,
}
use gservices.Binding.Responds.{find_binding-update_binding}

find_binding-kept :
    (a : ℕ) (bs : List BindingNode) (b : BindingNode)
    → find_binding a bs ≡ some b
    → b.still_busy ≡ true
    → find_binding a (kept false bs) ≡ some b
unfolding find_binding
find_binding-kept a [] b found busy = absurd (ground (arith, found))
find_binding-kept a (x ∷ bs) b found busy = ground (arith, find_binding-kept a bs b)

find_binding-update_ne :
    (a c : ℕ) (f : BindingNode → BindingNode) (bs : List BindingNode)
    → ((b : BindingNode) → (f b).binding_point ≡ b.binding_point)
    → (a == c) ≡ false
    → find_binding a (update_binding c f bs) ≡ find_binding a bs
unfolding find_binding update_binding
find_binding-update_ne a c f [] same other = refl
find_binding-update_ne a c f (x ∷ bs) same other =
    ground (arith, same x, find_binding-update_ne a c f bs same other)

module _ {L : Type 0} (a : ℕ) where
  -- What another thread than the one that answers through the binding a does: the engine takes a
  -- request, with a binding at an address where none lives, frees what is answered, or tells a
  -- binding its message; a service writes to the link, or marks its own binding as answered.
  pub data Step (s t : ReceptionPoint L) : Type 0 where
    takes :
        (b : BindingNode)
        → find_binding b.binding_point s.binding_list ≡ none
        → t ≡ (insert_next b s).1
        → Step s t
    frees : t ≡ (binding_list_freeing_fct s).1 → Step s t
    tells : (c message : ℕ) → t ≡ (set_request_message c message s).1 → Step s t
    writes : (l : L) → t ≡ record s { link = l } → Step s t
    marks : (c : ℕ) → (a == c) ≡ false → t ≡ (set_still_busy c false s).1 → Step s t

  -- Any number of such steps, in any order.
  pub data Meanwhile (s : ReceptionPoint L) : ReceptionPoint L → Type 0 where
    here : Meanwhile s s
    next : {t u : ReceptionPoint L} → Meanwhile s t → Step t u → Meanwhile s u

  -- The binding is in the list, its request is not answered, and its client is `peer`.
  abbrev pub Pending : ℕ → ReceptionPoint L → Type 0
  Pending peer s =
      (s.is_shutdown ≡ false)
      × (b : BindingNode) × (find_binding a s.binding_list ≡ some b)
      × (b.still_busy ≡ true)
      × (b.peer ≡ peer)

  frees-Pending :
      (peer : ℕ) (s : ReceptionPoint L)
      → Pending peer s
      → Pending peer (binding_list_freeing_fct s).1
  frees-Pending peer s (up, b, found, busy, same) =
      let freed = ap (λ r. r.1) (binding_list_freeing_fct_lem s) in
      let list : (binding_list_freeing_fct s).1.binding_list ≡ kept false s.binding_list =
        ap (λ (t : ReceptionPoint L). t.binding_list) freed ∙ ap (λ d. kept d s.binding_list) up in
      (
        ap (λ (t : ReceptionPoint L). t.is_shutdown) freed ∙ up,
        b,
        ap (find_binding a) list ∙ find_binding-kept a s.binding_list b found busy,
        busy,
        same,
      )

  tells-Pending :
      (peer c message : ℕ) (s : ReceptionPoint L)
      → Pending peer s
      → Pending peer (set_request_message c message s).1
  unfolding change_binding
  tells-Pending peer c message s (up, b, found, busy, same) =
      let told : BindingNode → BindingNode = λ b'. record b' { request_message = some message } in
      elim (Bool-cases (a == c)) [
        | inl e ↦
            let e' : a ≡ c = ground (arith, e) in
            let here : find_binding c s.binding_list ≡ some b =
              ap (λ (i : ℕ). find_binding i s.binding_list) (sym e') ∙ found in
            let changed = find_binding-update_binding c told s.binding_list b (λ b'. refl) here in
            (ground (arith, here, up), told b, ground (arith, e', here, changed), busy, same)
        | inr other ↦
            let changed = find_binding-update_ne a c told s.binding_list (λ b'. refl) other in
            (ground (arith, up), b, ground (arith, changed, found), busy, same)
      ]

  marks-Pending :
      (peer c : ℕ) (s : ReceptionPoint L)
      → (a == c) ≡ false
      → Pending peer s
      → Pending peer (set_still_busy c false s).1
  unfolding change_binding
  marks-Pending peer c s other (up, b, found, busy, same) =
      let changed =
        find_binding-update_ne a c (λ b'. record b' { still_busy = false }) s.binding_list
          (λ b'. refl) other in
      (ground (arith, up), b, ground (arith, changed, found), busy, same)

  Step-Pending : (peer : ℕ) (s t : ReceptionPoint L) → Step s t → Pending peer s → Pending peer t
  unfolding find_binding
  Step-Pending peer s t (takes b fresh e) (up, b', found, busy, same) =
      rw e (up, b', ground (arith, fresh, found), busy, same)
  Step-Pending peer s t (frees e) p = rw e (frees-Pending peer s p)
  Step-Pending peer s t (tells c message e) p = rw e (tells-Pending peer c message s p)
  Step-Pending peer s t (writes l e) p = rw e p
  Step-Pending peer s t (marks c other e) p = rw e (marks-Pending peer c s other p)

  -- The binding of a request that a thread answers stays in the list, unanswered.
  pub Meanwhile-Pending :
      (peer : ℕ) (s t : ReceptionPoint L) → Meanwhile s t → Pending peer s → Pending peer t
  Meanwhile-Pending peer s t here p = p
  Meanwhile-Pending peer s t (next {t = u} m step) p =
      Step-Pending peer u t step (Meanwhile-Pending peer s u m p)
