-- ===== src/LocalEngine/Serves.antt =====
-- How the loop over the clients of include/local_reception_point.C comes to a request.
use gservices.Base.{
  ℕ, zero, suc, ◌+◌, ◌≤◌, ◌<◌, ◌≡◌, refl, ap, ◌∙◌, List, ◌∷◌, ◌++◌, Option, none, some, Bool, true,
  false, Aleph, Outcome, after, done, pure, ◌>>◌, arith, length, get_elem?,
}
use gservices.Readwrite.Stream.{stream}
use gservices.Message.{MsgEntryHeader, encode_entry, header_size}
use gservices.Reception.{ReceptionPoint, binding_list_freeing_fct}
use gservices.Dispatcher.{Server, dispatcher}
use gservices.LocalReception.{Sockets, new_node}
use gservices.LocalReception.Framing.{PartsFit, sent_message, read_request_frames}
use gservices.LocalEngine.{Engine, Round, on_point, none_left, serve, visit_entry, visit, scan}

-- An entry of `client` that is -1, or whose descriptor is not ready.
abbrev pub Waits : Round → Option (Option ℕ) → Type 0
Waits r none = ⊥
Waits r (some none) = Unit {0}
Waits r (some (some fd)) = r.rset fd ≡ false

module _ (server : Server Sockets) (k : Aleph) (r : Round) where
  visit_entry-Waits :
      (i : ℕ) (c : Option (Option ℕ)) (e : Engine)
      → Waits r c
      → visit_entry server k r i c e ≡ (done false, e)
  unfolding visit_entry
  visit_entry-Waits i none e w = elim w [ ]
  visit_entry-Waits i (some none) e w = refl
  visit_entry-Waits i (some (some fd)) e w = rw (visit_entry, w) refl

  -- Entries that wait are passed over.
  pub scan_skips :
      (i n j : ℕ) (e : Engine)
      → ((m : ℕ) → j ≤ m → m < j + i → Waits r (get_elem? e.client m))
      → scan server k r j (i + n) e ≡ scan server k r (j + i) n e
  unfolding scan visit
  scan_skips zero n j e w =
      let a : zero + n ≡ n = omega arith in let b : j + zero ≡ j = omega arith in rw (a, b) refl
  scan_skips (suc i) n j e w =
      let a : suc i + n ≡ suc (i + n) = omega arith in
      let b : j + suc i ≡ suc j + i = omega arith in
      let first = visit_entry-Waits j (get_elem? e.client j) e (w j (omega arith) (omega arith)) in
      let others = scan_skips i n (suc j) e (λ m from to. w m (omega arith) (omega arith)) in
      rw (a, b)
        (ap
            (λ (x : Outcome Bool × Engine). after x (λ (stops : Bool). elim stops [
              | true ↦ pure tt
              | false ↦ scan server k r (suc j) (i + n)
            ]))
            first
          ∙ others)

  module _ (i fd : ℕ) (h : MsgEntryHeader) (parameters invocation later : List ℕ) (e : Engine) where
    -- What is left of the engine's turn once the message is in memory.
    abbrev pub dispatched : Engine → Outcome Bool × Engine
    dispatched = do
      on_point (
          dispatcher server k (r.blocks i).binding_point (r.blocks i).message
            (sent_message fd h parameters invocation later (r.blocks i)))
      none_left

    serve_dispatches :
        length e.entry_msg ≡ header_size
        → PartsFit h parameters invocation
        → stream (e.point.link.reads fd)
          ≡ sent_message fd h parameters invocation later (r.blocks i) ++ later
        → (l : Sockets) × (serve server k i fd (r.blocks i) e
            ≡ dispatched (record e {
              entry_msg = encode_entry h;
              point = record ((binding_list_freeing_fct e.point).1) {
                link = l;
                binding_list =
                    new_node fd (r.blocks i) ∷ (binding_list_freeing_fct e.point).1.binding_list;
              };
            }))
          × (stream (l.reads fd) ≡ later)
    unfolding serve
    serve_dispatches sized fit arrives =
        let p : ReceptionPoint Sockets = (binding_list_freeing_fct e.point).1 in
        let (l, reads, left) =
          read_request_frames fd h parameters invocation later (r.blocks i) e.entry_msg p sized fit
            arrives in
        (l, rw reads refl, left)

    -- What the loop does after the request: it ends, or goes on with the next entry.
    abbrev pub goes_on : ℕ → Outcome Bool × Engine → Outcome (Unit {0}) × Engine
    goes_on n x =
        after x
          (λ (stops : Bool). elim stops [ true ↦ pure tt | false ↦ scan server k r (suc i) n ])

    -- The entries of the clients before one are -1 or not ready, and that one is ready, with a
    -- whole message on its socket whose sizes are those of its parts. Then the loop over the
    -- clients comes to it: after the freeing of what is answered it takes exactly this message,
    -- adds a busy entry for it to the list, and hands it to the dispatcher with that entry's
    -- binding; then it counts the descriptor as done, and ends or goes on with the next client.
    pub scan_serves :
        (n : ℕ)
        → e.used ≡ i + suc n
        → ((m : ℕ) → m < i → Waits r (get_elem? e.client m))
        → get_elem? e.client i ≡ some (some fd)
        → r.rset fd ≡ true
        → length e.entry_msg ≡ header_size
        → PartsFit h parameters invocation
        → stream (e.point.link.reads fd)
          ≡ sent_message fd h parameters invocation later (r.blocks i) ++ later
        → (l : Sockets) × (scan server k r 0 e.used e
            ≡ goes_on n (
                dispatched (record e {
                  entry_msg = encode_entry h;
                  point = record ((binding_list_freeing_fct e.point).1) {
                    link = l;
                    binding_list =
                        new_node fd (r.blocks i)
                        ∷ (binding_list_freeing_fct e.point).1.binding_list;
                  };
                })))
          × (stream (l.reads fd) ≡ later)
    unfolding scan visit visit_entry
    scan_serves n used before there ready sized fit arrives =
        let (l, served, left) = serve_dispatches sized fit arrives in
        let start : 0 + i ≡ i = omega arith in
        let skipped : scan server k r 0 (i + suc n) e ≡ scan server k r i (suc n) e =
          scan_skips i (suc n) 0 e (λ m from to. before m (omega arith))
          ∙ ap (λ (m : ℕ). scan server k r m (suc n) e) start in
        let chosen : visit server k r i e ≡ serve server k i fd (r.blocks i) e =
          rw (visit, there, visit_entry, ready) refl in
        (
          l,
          ap (λ (m : ℕ). scan server k r 0 m e) used ∙ skipped ∙ ap (goes_on n) (chosen ∙ served),
          left,
        )
