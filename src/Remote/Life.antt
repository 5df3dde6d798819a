-- ===== src/Remote/Life.antt =====
-- The construction and the end of the objects of include/remote_access_point.C and
-- include/remote_reception_point.C.
use gservices.Base.{
  ℕ, ◌≡◌, Bool, true, false, [], ◌∷◌, ◌++◌, M, Aleph, done, stopped, blocked, use_after_free, pure,
  assert, ◌>>=◌, ◌>>◌, if◌then◌else◌, ltb, arith,
}
use gservices.Message.{encode_entry, shutdown_message}
use gservices.Access.{AccessPoint, access_point}
use gservices.Reception.{ReceptionPoint, reception_point, via}
use gservices.LocalAccess.{LocalLink, local_shutdown, destroy}
use gservices.Remote.{IpcClient}

-- `pthread_join` waits for the thread of the engine.
abbrev pub join : Bool → {S : Type 0} → M S (Unit {0})
join true s = (done tt, s)
join false s = (blocked, s)

-- A Remote_Access_Point, and whether its IpcRemoteClient and its locator exist.
pub record RemotePoint (L : Type 0) : Type 0 where
  pub access : AccessPoint L
  pub alive : Bool

module _ {L : Type 0} where
  -- The constructor, for the connection that `new (IpcRemoteClient)` makes.
  unfoldable pub remote_access_point : Aleph → L → ℕ → M (RemotePoint L) (Unit {0})
  remote_access_point k link no_of_services _ =
      assert k (ltb 0 no_of_services)
        (record { access = access_point link no_of_services; alive = true })

  -- `shutdown`: deleting the two objects twice is an error of the caller's.
  unfoldable pub remote_shutdown : M (RemotePoint L) (Unit {0})
  remote_shutdown s =
      if s.alive then (done tt, record s { alive = false }) else (stopped use_after_free, s)

  -- The destructor.
  unfoldable pub remote_destroy : M (RemotePoint L) (Unit {0})
  unfolding remote_shutdown
  remote_destroy = remote_shutdown

  -- The constructor of the server, over the state of its IpcServer.
  unfoldable pub remote_reception_point : L → ℕ → {S : Type 0} → M S (ReceptionPoint L)
  remote_reception_point link no_of_services = pure (reception_point link no_of_services)

  -- `shutdown` of the server, through a client of its own; `address` is that of the IpcServer.
  unfoldable pub remote_reception_shutdown :
      IpcClient L → Bool → ℕ → M (ReceptionPoint L) (Unit {0})
  remote_reception_shutdown shutdown_point engine_ends address s =
      if s.is_shutdown
      then (done tt, s)
      else (do
        via (shutdown_point.send_request (encode_entry shutdown_message))
        _ ← via shutdown_point.receive_reply
        join engine_ends
        (λ s'. (done tt, record s' { freed = s'.freed ++ address ∷ [] })))
          s

  -- An access point that is shut down is then destroyed. A local one is not shut down twice, and
  -- its link is deleted once. A remote one is: its destructor deletes the objects that `shutdown`
  -- has deleted.
  pub destroy_lem :
      (near : AccessPoint LocalLink) (remote : RemotePoint L)
      → near.link.alive ≡ true
      → remote.alive ≡ true
      → ((local_shutdown near).0 ≡ done tt)
        × (destroy (local_shutdown near).1 ≡ (done tt, (local_shutdown near).1))
        × ((remote_shutdown remote).0 ≡ done tt)
        × (remote_destroy (remote_shutdown remote).1
            ≡ (stopped use_after_free, (remote_shutdown remote).1))
  unfolding remote_destroy destroy
  destroy_lem near remote near_alive remote_alive = ground arith
