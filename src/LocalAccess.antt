-- ===== src/LocalAccess.antt =====
-- include/local_access_point.C: the client's side over a unix domain socket.
pub mod Framing
pub mod Receive
use gservices.Base.{
  ℕ, stop, replicate, out_of_bounds, List, [], ◌++◌, Option, none, some, Bool, true, false, ltb, M,
  Aleph, done, blocked, stopped, use_after_free, not_found, pure, throw, error, assert, ◌>>=◌, ◌>>◌,
  if◌then◌else◌,
}
use gservices.Wire.{strcpy, c_str}
use gservices.Locators.{LocalLocator, stringficate}
use gservices.Readwrite.{
  Ssize, ret, minus_one, ReadAnswer, ReadResult, WriteAnswer, WriteResult, readn, writen,
}
use gservices.Access.{Transport, AccessPoint, access_point}

-- The object `*link_to_deamon`: what its socket will answer, what has gone out, and whether the
-- object still exists.
pub record LocalLink : Type 0 where
  pub reads : List ReadAnswer
  pub writes : List WriteAnswer
  pub sent : List ℕ
  pub alive : Bool

-- `readn_f`, the loop of `Local_Readwrite::readn` once more.
unfoldable pub readn_f : ℕ → M LocalLink (Ssize × List ℕ)
readn_f n l = elim (readn l.reads n) [
  | none ↦ (blocked, l)
  | some r ↦ (done (r.status, r.stored), record l { reads = r.rest })
]

-- `writen_f`: the loop of `Local_Readwrite::writen`, with an ERROR before it returns -1.
unfoldable pub writen_f : Aleph → List ℕ → M LocalLink Ssize
writen_f k buffer l = elim (writen l.writes buffer) [
  | none ↦ (blocked, l)
  | some r ↦
      (do elim r.status [ ret _ ↦ pure tt | minus_one ↦ error k ]; pure r.status)
        (record l { writes = r.rest; sent = l.sent ++ r.sent })
]

abbrev pub local_transport : Aleph → Transport LocalLink
local_transport k = record { readn = readn_f; writen = writen_f k }

-- The end of a constructor that fails.
delete_link_and_throw : M (AccessPoint LocalLink) (Unit {0})
delete_link_and_throw s = throw not_found (record s { link = record (s.link) { alive = false } })

-- `bzero` and then `strcpy` into the path of a socket's address, an array of the system's.
unfoldable pub socket_path : ℕ → LocalLocator → {S : Type 0} → M S (List ℕ)
socket_path path_size loc = elim (strcpy (replicate path_size 0) (stringficate loc)) [
  | none ↦ stop out_of_bounds
  | some path ↦ pure path
]

-- The constructor. `socket` is the descriptor that the system call returns (0 for an error),
-- `path_size` the size of the array `sun_path`, and `connects` tells whether `connect` succeeds for
-- a path.
unfoldable pub local_access_point :
    Aleph
    → ℕ
    → ℕ
    → (List ℕ → Bool)
    → LocalLocator
    → LocalLink
    → ℕ
    → M (AccessPoint LocalLink) (Unit {0})
unfolding delete_link_and_throw socket_path
local_access_point k socket path_size connects loc link no_of_services _ =
    (do
      assert k (ltb 0 no_of_services)
      assert k (ltb 0 socket)
      path ← socket_path path_size loc
      if connects (c_str path) then pure tt else delete_link_and_throw)
      (access_point (record link { alive = true }) no_of_services)

-- `shutdown`: closing and deleting a link twice is an error of the caller's.
unfoldable pub local_shutdown : M (AccessPoint LocalLink) (Unit {0})
local_shutdown s =
    if s.link.alive
    then (done tt, record s { is_shutdown = true; link = record (s.link) { alive = false } })
    else (stopped use_after_free, record s { is_shutdown = true })

-- The destructor.
unfoldable pub destroy : M (AccessPoint LocalLink) (Unit {0})
unfolding local_shutdown
destroy s = if s.is_shutdown then (done tt, s) else local_shutdown s
