-- ===== src/Reception/Freeing.antt =====
-- `binding_list_freeing_fct` of include/reception_point.C and the blocks that it frees.
use mathlib.Core.List.{reverse, reverse-cons, Perm, Nodup, perm_append_comm}
use mathlib.Core.List.Perm
use gservices.Base.{
  ℕ, ◌≡◌, List, [], ◌∷◌, ◌++◌, Bool, not, ◌||◌, arith, append_assoc, append-nil, Bool-cases,
  if◌then◌else◌, inl, inr, done,
}
use gservices.Reception.{
  BindingNode, ReceptionPoint, blocks_of, freeing_loop, binding_list_freeing_fct,
}

-- An entry goes when it is answered, or when the server shuts down.
abbrev pub is_dropped : Bool → BindingNode → Bool
is_dropped is_shutdown b = not b.still_busy || is_shutdown

abbrev pub kept : Bool → List BindingNode → List BindingNode
kept d [] = []
kept d (b ∷ bs) = if is_dropped d b then kept d bs else b ∷ kept d bs

abbrev pub blocks : List BindingNode → List ℕ
blocks [] = []
blocks (b ∷ bs) = blocks_of b ++ blocks bs

abbrev pub dropped_blocks : Bool → List BindingNode → List ℕ
dropped_blocks d [] = []
dropped_blocks d (b ∷ bs) =
    if is_dropped d b then blocks_of b ++ dropped_blocks d bs else dropped_blocks d bs

freeing_loop_lem :
    (d : Bool) (passed rest : List BindingNode) (freed : List ℕ)
    → freeing_loop d passed rest freed
      ≡ (reverse passed ++ kept d rest, freed ++ dropped_blocks d rest)
unfolding freeing_loop
freeing_loop_lem d passed [] freed = ground (arith, append-nil (reverse passed), append-nil freed)
freeing_loop_lem d passed (b ∷ rest) freed = ground (
  arith,
  freeing_loop_lem d passed rest (freed ++ blocks_of b),
  freeing_loop_lem d (b ∷ passed) rest freed,
  append_assoc freed (blocks_of b) (dropped_blocks d rest),
  reverse-cons b passed,
  append_assoc (reverse passed) (b ∷ []) (kept d rest),
)

module _ {L : Type 0} where
  -- The function removes from the list the entries that are answered, all of them once the server
  -- shuts down, keeps the others in their order, and frees the three blocks of each that it
  -- removes.
  pub binding_list_freeing_fct_lem :
      (s : ReceptionPoint L)
      → binding_list_freeing_fct s ≡ (
        done tt,
        record s {
          binding_list = kept s.is_shutdown s.binding_list;
          freed = s.freed ++ dropped_blocks s.is_shutdown s.binding_list;
        },
      )
  unfolding binding_list_freeing_fct
  binding_list_freeing_fct_lem s = rw (freeing_loop_lem s.is_shutdown [] s.binding_list s.freed)

  -- The blocks that the list owns, and those that were freed.
  abbrev pub owned : ReceptionPoint L → List ℕ
  owned s = blocks s.binding_list ++ s.freed

perm_insert : (xs ys zs ws : List ℕ) → Perm (xs ++ zs) ws → Perm (xs ++ (ys ++ zs)) (ys ++ ws)
perm_insert xs ys zs ws h =
    Perm.trans {l₂ = (ys ++ xs) ++ zs}
      (rw (← append_assoc xs ys zs) (Perm.append_right zs (perm_append_comm xs ys)))
      (rw (append_assoc ys xs zs) (Perm.append_left ys h))

kept-dropped-perm :
    (d : Bool) (bs : List BindingNode)
    → Perm (blocks (kept d bs) ++ dropped_blocks d bs) (blocks bs)
kept-dropped-perm d [] = Perm.nil
kept-dropped-perm d (b ∷ bs) = elim (Bool-cases (is_dropped d b)) [
  | inl e ↦ rw e (perm_insert (blocks (kept d bs)) (blocks_of b) _ _ (kept-dropped-perm d bs))
  | inr e ↦
      rw (e, append_assoc (blocks_of b) (blocks (kept d bs)) (dropped_blocks d bs))
        (Perm.append_left (blocks_of b) (kept-dropped-perm d bs))
]

module _ {L : Type 0} where
  -- Freeing loses no block and makes none up: what the list owns and what has been freed is, taken
  -- together, the same before and after.
  pub binding_list_freeing_fct-perm :
      (s : ReceptionPoint L) → Perm (owned (binding_list_freeing_fct s).1) (owned s)
  binding_list_freeing_fct-perm s = rw (binding_list_freeing_fct_lem s) (
      Perm.trans
        (perm_insert (blocks (kept s.is_shutdown s.binding_list)) s.freed _ _
          (kept-dropped-perm s.is_shutdown s.binding_list))
        (perm_append_comm s.freed (blocks s.binding_list)))

  -- So no block is freed twice, and none that the list still owns is freed.
  pub binding_list_freeing_fct-Nodup :
      (s : ReceptionPoint L) → Nodup (owned s) → Nodup (owned (binding_list_freeing_fct s).1)
  binding_list_freeing_fct-Nodup s = Perm.nodup (Perm.symm (binding_list_freeing_fct-perm s))
