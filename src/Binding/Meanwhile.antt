-- ===== src/Binding/Meanwhile.antt =====
-- The calls that a `respond` of include/local_binding.C or include/remote_binding.C is made of,
-- while the engine and the other threads go on.
use gservices.Base.{
  ℕ, ◌≡◌, ◌≢◌, ◌∙◌, refl, sym, ap, subst, List, Bool, true, false, some, M, Aleph, Outcome, done,
  thrown, stopped, blocked, after, assert, use_after_free, arith, if◌then◌else◌,
}
use gservices.Readwrite.{Ssize}
use gservices.Message.{MsgExitHeader}
use gservices.Reception.{BindingNode, ReceptionPoint}
use gservices.Binding.{find_binding, change_binding, binding_at, accomplished, first_bytes}
use gservices.Binding.Responds.{find_binding-update_binding}
use gservices.Binding.Effects.{Meanwhile, Pending, Meanwhile-Pending}

-- No freed binding was used, and the state is as told.
abbrev pub Holds :
    {L A : Type 0} → (ReceptionPoint L → Type 0) → Outcome A × ReceptionPoint L → Type 0
Holds Q r = (r.0 ≢ stopped use_after_free) × Q r.1

module _ {L : Type 0} (a peer : ℕ) where
  -- A write to the client, begun while its request is pending, returns; the engine and the other
  -- threads have meanwhile taken any number of steps.
  pub record Interleaves {A : Type 0} (call : ℕ → List ℕ → M (ReceptionPoint L) A) : Type 0 where
    pub returns :
        (bytes : List ℕ) (s : ReceptionPoint L)
        → Pending a peer s
        → (x : A) × (t : ReceptionPoint L) × (call peer bytes s ≡ (done x, t)) × Meanwhile a s t

  -- The binding is in the list, answered or not, and its client is `peer`.
  abbrev pub Found : ReceptionPoint L → Type 0
  Found s = (b : BindingNode) × (find_binding a s.binding_list ≡ some b) × (b.peer ≡ peer)

  pub Pending-Found : (s : ReceptionPoint L) → Pending a peer s → Found s
  Pending-Found s (up, b, found, busy, same) = (b, found, same)

  pub done-Holds :
      {A : Type 0} (Q : ReceptionPoint L → Type 0) (x : A) (s : ReceptionPoint L)
      → Q s
      → Holds Q (done x, s)
  done-Holds Q x s q = ((λ e. ground (arith, e)), q)

  pub after-Holds :
      {A B : Type 0} (Q : ReceptionPoint L → Type 0) (r : Outcome A × ReceptionPoint L)
      (f : A → M (ReceptionPoint L) B)
      → ((s : ReceptionPoint L) → Pending a peer s → Q s)
      → Holds (Pending a peer) r
      → ((x : A) (s : ReceptionPoint L) → Pending a peer s → Holds Q (f x s))
      → Holds Q (after r f)
  after-Holds Q (done x, s) f weaken p next = next x s p.1
  after-Holds Q (thrown e, s) f weaken p next = ((λ h. ground (arith, h)), weaken s p.1)
  after-Holds Q (stopped x, s) f weaken p next = ((λ h. p.0 (ground (arith, h))), weaken s p.1)
  after-Holds Q (blocked, s) f weaken p next = ((λ h. ground (arith, h)), weaken s p.1)

  pub choice-Holds :
      {A : Type 0} (Q : ReceptionPoint L → Type 0) (b : Bool) (m n : M (ReceptionPoint L) A)
      (s : ReceptionPoint L)
      → Holds Q (m s)
      → Holds Q (n s)
      → Holds Q ((elim b as (λ _. M (ReceptionPoint L) A) [ true ↦ m | false ↦ n ]) s)
  choice-Holds Q true m n s p q = p
  choice-Holds Q false m n s p q = q

  pub if-Holds :
      {A : Type 0} (Q : ReceptionPoint L → Type 0) (b : Bool) (m n : M (ReceptionPoint L) A)
      (s : ReceptionPoint L)
      → Holds Q (m s)
      → Holds Q (n s)
      → Holds Q ((if b then m else n) s)
  if-Holds Q true m n s p q = p
  if-Holds Q false m n s p q = q

  pub assert-Kept :
      (k : Aleph) (condition : Bool) (s : ReceptionPoint L)
      → Pending a peer s
      → Holds (Pending a peer) (assert k condition s)
  assert-Kept k condition s p =
      let same : s ≡ (assert k condition s).1 = ground arith in
      ((λ e. ground (arith, e)), subst (Pending a peer) same p)

  pub first_bytes-Kept :
      (header : MsgExitHeader) (body : List ℕ) (size : ℕ) (s : ReceptionPoint L)
      → Pending a peer s
      → Holds (Pending a peer) (first_bytes header body size s)
  first_bytes-Kept header body size s p =
      let same : s ≡ (first_bytes header body size s).1 = ground arith in
      ((λ e. ground (arith, e)), subst (Pending a peer) same p)

  pub call-Kept :
      {A : Type 0} (call : ℕ → List ℕ → M (ReceptionPoint L) A) (to : ℕ) (bytes : List ℕ)
      (s : ReceptionPoint L)
      → Interleaves call
      → to ≡ peer
      → Pending a peer s
      → Holds (Pending a peer) (call to bytes s)
  call-Kept call to bytes s w same p =
      let (x, t, e, m) = w.returns bytes s p in
      subst (Holds (Pending a peer)) (sym (ap (λ i. call i bytes s) same ∙ e))
        (done-Holds (Pending a peer) x t (Meanwhile-Pending a peer s t m p))

  pub found-Holds :
      {B : Type 0} (Q : ReceptionPoint L → Type 0) (f : BindingNode → M (ReceptionPoint L) B)
      (s : ReceptionPoint L)
      → Pending a peer s
      → ((b : BindingNode) → b.peer ≡ peer → Holds Q (f b s))
      → Holds Q (after (binding_at a s) f)
  unfolding binding_at
  found-Holds Q f s (up, b, found, busy, same) next =
      let e : binding_at a s ≡ (done b, s) = ground (arith, found) in
      subst (λ r. Holds Q (after r f)) (sym e) (next b same)

  pub accomplished-Holds :
      (status : Ssize) (s : ReceptionPoint L)
      → Pending a peer s
      → Holds Found (accomplished a status s)
  unfolding accomplished change_binding
  accomplished-Holds status s (up, b, found, busy, same) =
      let marked : BindingNode → BindingNode = λ b'. record b' { still_busy = false } in
      let changed = find_binding-update_binding a marked s.binding_list b (λ b'. refl) found in
      ((λ e. ground (arith, found, e)), (marked b, ground (arith, found, changed), same))
