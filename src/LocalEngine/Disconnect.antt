-- ===== src/LocalEngine/Disconnect.antt =====
-- A client of include/local_reception_point.C that closes its connection before it is answered.
use gservices.Base.{
  ℕ, ◌≤◌, ◌≡◌, ◌≢◌, refl, ap, ◌∙◌, List, [], ◌∷◌, ◌++◌, none, false, Aleph, stopped, use_after_free,
  arith,
}
use gservices.Message.{MsgExitHeader, header_size}
use gservices.Reception.{BindingNode, ReceptionPoint, binding_list_freeing_fct}
use gservices.Reception.Freeing.{kept, binding_list_freeing_fct_lem}
use gservices.Binding.{on_link, find_binding, local_respond}
use gservices.LocalReception.{Sockets, socket_writen, unmark_loop}
use gservices.LocalEngine.{Engine, disconnect}

-- No binding of this socket.
abbrev pub Others : ℕ → List BindingNode → Type 0
Others fd [] = Unit {0}
Others fd (b ∷ bs) = (b.peer ≢ fd) × Others fd bs

unmark_loop_lem :
    (fd : ℕ) (earlier rest : List BindingNode) (b : BindingNode)
    → Others fd earlier
    → b.peer ≡ fd
    → unmark_loop fd (earlier ++ b ∷ rest) ≡ earlier ++ record b { still_busy = false } ∷ rest
unfolding unmark_loop
unmark_loop_lem fd [] rest b others mine = ground (arith, mine)
unmark_loop_lem fd (x ∷ xs) rest b others mine =
    let other = others.0 in ground (arith, other, unmark_loop_lem fd xs rest b others.1 mine)

find_binding-gone :
    (a : ℕ) (earlier rest : List BindingNode) (b : BindingNode)
    → find_binding a earlier ≡ none
    → find_binding a rest ≡ none
    → find_binding a (kept false (earlier ++ record b { still_busy = false } ∷ rest)) ≡ none
unfolding find_binding
find_binding-gone a [] [] b e r = refl
find_binding-gone a [] (y ∷ ys) b e r = ground (arith, find_binding-gone a [] ys b e, e, r)
find_binding-gone a (x ∷ xs) rest b e r = ground (arith, find_binding-gone a xs rest b, e, r)

module _ (k : Aleph) (header : MsgExitHeader) (body : List ℕ) (size : ℕ) where
  -- The first binding of a socket belongs to a request that a service has not answered yet, and no
  -- other binding has its address. If the client closes its connection, the engine marks the
  -- binding as answered, and the next freeing frees it: the `respond` of the service, which comes
  -- then, works on a binding that is freed.
  pub respond_after_disconnect :
      (i fd : ℕ) (e : Engine) (earlier rest : List BindingNode) (b : BindingNode)
      → e.point.is_shutdown ≡ false
      → e.point.binding_list ≡ earlier ++ b ∷ rest
      → Others fd earlier
      → b.peer ≡ fd
      → find_binding b.binding_point earlier ≡ none
      → find_binding b.binding_point rest ≡ none
      → header_size ≤ size
      → (local_respond
          (on_link socket_writen)
          k
          b.binding_point
          header
          body
          size
          (binding_list_freeing_fct (disconnect i fd e).1.point).1).0
        ≡ stopped use_after_free
  unfolding local_respond disconnect
  respond_after_disconnect i fd e earlier rest b up list others mine before behind sized =
      let closed : ReceptionPoint Sockets = (disconnect i fd e).1.point in
      let freeing = binding_list_freeing_fct_lem closed in
      let marked = ap (unmark_loop fd) list ∙ unmark_loop_lem fd earlier rest b others mine in
      let gone = find_binding-gone b.binding_point earlier rest b before behind in
      ground (arith, freeing, marked, gone, up)
