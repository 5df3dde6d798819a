-- ===== src/Tests/Threads.antt =====
-- Answers of a service's thread on concrete inputs, among other threads and after a disconnection.
use gservices.Base.{
  length, arith, stopped, use_after_free, true, false, done, ◌≡◌, ℕ, M, refl, List, [], ◌∷◌,
  replicate,
}
use gservices.Message.{service_exit}
use gservices.Reception.{BindingNode, ReceptionPoint, binding_list_freeing_fct}
use gservices.Readwrite.{Ssize, ret}
use gservices.Binding.{on_link, local_respond, set_still_busy}
use gservices.LocalEngine.{Engine, engine, disconnect}
use gservices.LocalEngine.Disconnect.{respond_after_disconnect}
use gservices.Binding.Effects.{Meanwhile, Step}
use gservices.Binding.Meanwhile.{Interleaves, Found, Holds}
use gservices.Binding.Threads.{near, respond, respond_meanwhile}
use gservices.LocalReception.{Sockets, socket_writen}
use gservices.Tests.{strict, server, pending}

-- The binding of another client, which is answered.
abbrev other_client : BindingNode
other_client = record pending {
  node = 31;
  binding_point = 21;
  message = 11;
  still_busy = false;
  peer = 6;
}

-- A server with this request, and another that its own thread answers.
abbrev crowded : ReceptionPoint Sockets
crowded = record server { binding_list = record other_client { still_busy = true } ∷ pending ∷ [] }

-- During the write the other thread marks its binding, and the engine frees it.
abbrev crowded_write : ℕ → List ℕ → M (ReceptionPoint Sockets) Ssize
crowded_write peer bytes s =
    (done (ret (length bytes)), (binding_list_freeing_fct (set_still_busy 21 false s).1).1)

abbrev no_reply : ℕ → List ℕ → M (ReceptionPoint Sockets) (Unit {0})
no_reply id message s = (done tt, s)

crowded_write-Interleaves : Interleaves 20 5 crowded_write
crowded_write-Interleaves = record {
  returns = λ bytes s p. (
    ret (length bytes),
    (binding_list_freeing_fct (set_still_busy 21 false s).1).1,
    refl,
    Meanwhile.next {t = (set_still_busy 21 false s).1}
        (Meanwhile.next {t = s} Meanwhile.here (Step.marks 21 refl refl)) (Step.frees refl),
  );
}

respond_meanwhile_example :
    Holds
      (Found 20 5)
      (respond 20 5 crowded_write no_reply strict (near (service_exit 5) (42 ∷ []) 17) crowded)
unfolding gservices.Binding.find_binding
respond_meanwhile_example =
    respond_meanwhile 20 5 crowded_write no_reply strict (near (service_exit 5) (42 ∷ []) 17)
      crowded crowded_write-Interleaves
      (record { returns = λ bytes s p. (tt, s, refl, Meanwhile.here) })
      (refl, pending, refl, refl, refl)

-- The client on descriptor 5 leaves while its request is pending.
abbrev leaving : Engine
leaving = engine (record server { binding_list = other_client ∷ pending ∷ [] }) 3 (replicate 16 0)

respond_after_disconnect_example :
    (local_respond
      (on_link socket_writen)
      strict
      20
      (service_exit 5)
      (42 ∷ [])
      17
      (binding_list_freeing_fct (disconnect 0 5 leaving).1.point).1).0
    ≡ stopped use_after_free
unfolding gservices.Binding.find_binding
respond_after_disconnect_example =
    respond_after_disconnect strict (service_exit 5) (42 ∷ []) 17 0 5 leaving (other_client ∷ []) []
      pending refl refl ((λ e. absurd (omega (arith, e))), tt) refl refl refl (omega arith)
