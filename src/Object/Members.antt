-- ===== src/Object/Members.antt =====
-- What a constructor stores in the data members of a message.
use gservices.Base.{
  ℕ, zero, suc, ◌+◌, ◌≡◌, ◌≤◌, ◌<◌, refl, ap, subst, ◌∙◌, List, [], ◌∷◌, some, arith, length,
  get_elem?, inl,
}
use gservices.Message.{header_size}
use gservices.Object.{
  shape, CType, IsStored, Shape, round_up, end_of, sizeof, offset_of, put, store_members, window,
  member,
}
use gservices.Object.Window.{length-put, window-put_self, window-put_ne}

round_up_ge : (n align : ℕ) → n ≤ round_up n align
unfolding round_up
round_up_ge n align = omega arith

pub end_of_ge : (start : ℕ) (ss : List Shape) → start ≤ end_of start ss
unfolding end_of
end_of_ge start [] = omega arith
end_of_ge start (s ∷ ss) =
    omega (arith, round_up_ge start s.align, end_of_ge (round_up start s.align + s.size) ss)

pub sizeof_ge : (ss : List Shape) → end_of header_size ss ≤ sizeof ss
unfolding sizeof
sizeof_ge ss = round_up_ge (end_of header_size ss) 4

pub offset_of_ge : (start : ℕ) (ss : List Shape) (i : ℕ) → start ≤ offset_of start ss i
unfolding offset_of
offset_of_ge start [] i = omega arith
offset_of_ge start (s ∷ ss) zero = round_up_ge start s.align
offset_of_ge start (s ∷ ss) (suc i) =
    omega (arith, round_up_ge start s.align, offset_of_ge (round_up start s.align + s.size) ss i)

-- A member ends inside the object.
pub offset_of_end :
    (start : ℕ) (ss : List Shape) (i : ℕ) (s : Shape)
    → get_elem? ss i ≡ some s
    → offset_of start ss i + s.size ≤ end_of start ss
unfolding offset_of end_of
offset_of_end start [] i s h = absurd (cc)
offset_of_end start (d ∷ ss) zero s h =
    let it : d ≡ s = cc in
    subst
      (λ (x : Shape). round_up start d.align + x.size ≤ end_of (round_up start d.align + d.size) ss)
      it (end_of_ge (round_up start d.align + d.size) ss)
offset_of_end start (d ∷ ss) (suc i) s h = offset_of_end (round_up start d.align + d.size) ss i s h

-- One piece of bytes for each member, of its size.
abbrev pub Fit : List Shape → List (List ℕ) → Type 0
Fit [] [] = Unit
Fit (s ∷ ss) (c ∷ cs) = (length c ≡ s.size) × Fit ss cs
Fit _ _ = ⊥

-- Outside the members the memory keeps what it held.
pub store_members_keeps :
    (start : ℕ) (ss : List Shape) (cs : List (List ℕ)) (m : List ℕ)
    → Fit ss cs
    → end_of start ss ≤ length m
    → (length (store_members start ss cs m) ≡ length m)
      × ((p k : ℕ) → p + k ≤ start → window p k (store_members start ss cs m) ≡ window p k m)
unfolding store_members end_of
store_members_keeps start [] [] m fit room = (refl, λ p k h. refl)
store_members_keeps start [] (c ∷ cs) m fit room = elim fit [ ]
store_members_keeps start (s ∷ ss) [] m fit room = elim fit [ ]
store_members_keeps start (s ∷ ss) (c ∷ cs) m (sized, fit) room =
    let at : ℕ = round_up start s.align in
    let behind = end_of_ge (at + s.size) ss in
    let above = round_up_ge start s.align in
    let inside : at + length c ≤ length m = omega arith in
    let same = length-put m at c inside in
    let (counted, kept) = store_members_keeps (at + s.size) ss cs (put m at c) fit (omega arith) in
    (
      counted ∙ same,
      λ p k h. kept p k (omega arith) ∙ window-put_ne m at c inside p k (inl (omega arith)),
    )

-- Each member holds what was stored in it.
pub store_members_stores :
    (start : ℕ) (ss : List Shape) (cs : List (List ℕ)) (m : List ℕ) (i : ℕ) (c : List ℕ)
    → Fit ss cs
    → end_of start ss ≤ length m
    → get_elem? cs i ≡ some c
    → window (offset_of start ss i) (length c) (store_members start ss cs m) ≡ c
unfolding store_members end_of offset_of
store_members_stores start [] [] m i c fit room h = absurd (cc)
store_members_stores start [] (d ∷ cs) m i c fit room h = elim fit [ ]
store_members_stores start (s ∷ ss) [] m i c fit room h = elim fit [ ]
store_members_stores start (s ∷ ss) (d ∷ cs) m zero c (sized, fit) room h =
    let at : ℕ = round_up start s.align in
    let behind = end_of_ge (at + s.size) ss in
    let inside : at + length d ≤ length m = omega arith in
    let same = length-put m at d inside in
    let (counted, kept) = store_members_keeps (at + s.size) ss cs (put m at d) fit (omega arith) in
    let stored : window at (length d) (store_members (at + s.size) ss cs (put m at d)) ≡ d =
      kept at (length d) (omega arith) ∙ window-put_self m at d inside in
    let it : d ≡ c = cc in
    subst
      (λ (x : List ℕ). window at (length x) (store_members (at + s.size) ss cs (put m at d)) ≡ x) it
      stored
store_members_stores start (s ∷ ss) (d ∷ cs) m (suc i) c (sized, fit) room h =
    let at : ℕ = round_up start s.align in
    let behind = end_of_ge (at + s.size) ss in
    let same = length-put m at d (omega arith) in
    store_members_stores (at + s.size) ss cs (put m at d) i c fit (omega arith) h

-- So a member of a type is read back as the value that the constructor was given.
pub member-store_members :
    {A : Type 0} (t : CType A) (ss : List Shape) (cs : List (List ℕ)) (m : List ℕ) (i : ℕ) (a : A)
    → IsStored t a
    → Fit ss cs
    → end_of header_size ss ≤ length m
    → get_elem? cs i ≡ some (t.bytes a)
    → member t ss i (store_members header_size ss cs m) ≡ some a
unfolding member
member-store_members t ss cs m i a lawful fit room h =
    let sized : length (t.bytes a) ≡ t.size = lawful.length-bytes in
    let stored : window (offset_of header_size ss i) t.size (store_members header_size ss cs m)
        ≡ t.bytes a =
      subst
        (λ (n : ℕ).
          window (offset_of header_size ss i) n (store_members header_size ss cs m) ≡ t.bytes a)
        sized (store_members_stores header_size ss cs m i (t.bytes a) fit room h) in
    ap t.value stored ∙ lawful.value-bytes

-- Members stand one behind the other.
pub offset_of_lt :
    (start : ℕ) (ss : List Shape) (i j : ℕ) (s : Shape)
    → get_elem? ss i ≡ some s
    → i < j
    → offset_of start ss i + s.size ≤ offset_of start ss j
unfolding offset_of
offset_of_lt start [] i j s h before = absurd (cc)
offset_of_lt start (d ∷ ss) i zero s h before = absurd (omega arith)
offset_of_lt start (d ∷ ss) zero (suc j) s h before =
    let it : d ≡ s = cc in
    subst
      (λ (x : Shape).
        round_up start d.align + x.size ≤ offset_of (round_up start d.align + d.size) ss j)
      it (offset_of_ge (round_up start d.align + d.size) ss j)
offset_of_lt start (d ∷ ss) (suc i) (suc j) s h before =
    offset_of_lt (round_up start d.align + d.size) ss i j s h (omega arith)

-- Setting one member: it holds the new value, and the members in front of it keep theirs.
module _ {A : Type 0} (t : CType A) (ss : List Shape) (i : ℕ) (a : A) (memory : List ℕ)
    (good : IsStored t a) (typed : get_elem? ss i ≡ some (shape t))
    (room : end_of header_size ss ≤ length memory) where
  inside : offset_of header_size ss i + length (t.bytes a) ≤ length memory
  inside =
      let sized = good.length-bytes in omega (arith, offset_of_end header_size ss i (shape t) typed)

  pub member-put_self : member t ss i (put memory (offset_of header_size ss i) (t.bytes a)) ≡ some a
  unfolding member
  member-put_self =
      let o : ℕ = offset_of header_size ss i in
      let sized : length (t.bytes a) ≡ t.size = good.length-bytes in
      ap t.value (
        subst (λ (n : ℕ). window o n (put memory o (t.bytes a)) ≡ t.bytes a) sized
          (window-put_self memory o (t.bytes a) inside))
      ∙ good.value-bytes

  pub member-put_ne :
      {B : Type 0} (u : CType B) (j : ℕ)
      → get_elem? ss j ≡ some (shape u)
      → j < i
      → member u ss j (put memory (offset_of header_size ss i) (t.bytes a)) ≡ member u ss j memory
  unfolding member
  member-put_ne u j there before = ap u.value (
      window-put_ne memory (offset_of header_size ss i) (t.bytes a) inside
        (offset_of header_size ss j) u.size
        (inl (offset_of_lt header_size ss j i (shape u) there before)))
