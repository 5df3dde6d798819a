-- ===== src/Tests.antt =====
-- Concrete clients, servers and messages, on which the theorems are tried.
mod Client
mod Server
mod Multi
mod Runs
mod Calls
mod Threads
mod Turns
mod Messages
mod Points
use gservices.Base.{
  ℕ, ◌==◌, if◌then◌else◌, List, [], ◌∷◌, ◌++◌, Option, none, some, Bool, true, false, Aleph, done,
  length, take, drop,
}
use gservices.Readwrite.{
  Ssize, ret, ReadAnswer, segment, interrupted, WriteAnswer, accepted, refused,
}
use gservices.Message.{MsgEntryHeader, MsgExitHeader}
use gservices.Access.{Transport, AccessPoint}
use gservices.LocalAccess.{LocalLink}
use gservices.Reception.{ReceptionPoint, BindingNode}
use gservices.Reception.Table.{entry_for}
use gservices.LocalReception.{Sockets, Blocks}

-- ASSERT and ERROR stop the process, or do nothing.
abbrev strict : Aleph
strict = record { assert_stops = true; error_stops = true }

abbrev lax : Aleph
lax = record { assert_stops = false; error_stops = false }

-- A request for service 0 with two bytes of parameters and three of a buffer.
abbrev header : MsgEntryHeader
header = record {
  deamon_service_code = 1;
  client_service_code = 0;
  parameters_size = 2;
  invocation_size = 3;
}

abbrev parameters : List ℕ
parameters = 7 ∷ 8 ∷ []

abbrev buffer : List ℕ
buffer = 1 ∷ 2 ∷ 3 ∷ []

-- The 21 bytes of the message arrive in three pieces, with an interruption, and a byte of the next.
abbrev arrivals : List ReadAnswer
arrivals =
    segment 1 (0 ∷ 0 ∷ 0 ∷ 0 ∷ 0 ∷ 0 ∷ 0 ∷ 2 ∷ 0 ∷ [])
    ∷ interrupted
    ∷ segment 0 (0 ∷ 3 ∷ 0 ∷ 0 ∷ 0 ∷ 7 ∷ [])
    ∷ segment 8 (1 ∷ 2 ∷ 3 ∷ 9 ∷ [])
    ∷ []

-- The kernel takes ten bytes, is interrupted, and takes up to twenty.
abbrev room : List WriteAnswer
room = accepted 9 ∷ refused true ∷ accepted 19 ∷ []

-- A client that has registered service 0 and not service 1.
abbrev client : AccessPoint LocalLink
client = record {
  link = record { reads = []; writes = room; sent = []; alive = true };
  table = some (65 ∷ []) ∷ none ∷ [];
  locked = false;
  is_shutdown = false;
}

-- A link that is two lists of bytes: what will be read, and what has been written.
abbrev pipe : Transport (List ℕ × List ℕ)
pipe = record {
  readn = λ n l. (done (ret n, take n l.0), (drop n l.0, l.1));
  writen = λ message l. (done (ret (length message)), (l.0, l.1 ++ message));
}

abbrev pipe_client : List ℕ → AccessPoint (List ℕ × List ℕ)
pipe_client arriving = record {
  link = (arriving, []);
  table = some (65 ∷ []) ∷ none ∷ [];
  locked = false;
  is_shutdown = false;
}

-- Socket 4 delivers the request; the others are silent.
abbrev sockets : Sockets
sockets = record {
  reads = λ fd. if fd == 4 then arrivals else [];
  writes = λ fd. accepted 99 ∷ [];
  sent = λ fd. [];
  closed = λ fd. false;
}

abbrev blocks : Blocks
blocks = record { message = 100; binding_point = 200; node = 300; contents = λ i. i }

abbrev pending : BindingNode
pending = record {
  node = 30;
  binding_point = 20;
  message = 10;
  still_busy = true;
  request_message = none;
  peer = 5;
}

-- A server of two services, of which service 0 is registered, with an answered request and a
-- pending one.
abbrev server : ReceptionPoint Sockets
server = record {
  link = sockets;
  table = entry_for (65 ∷ []) 1 ∷ none ∷ [];
  number_of_services = 2;
  registered_services = 1;
  is_shutdown = false;
  binding_list =
      record pending { node = 31; binding_point = 21; message = 11; still_busy = false }
      ∷ pending
      ∷ [];
  freed = 1 ∷ [];
}
