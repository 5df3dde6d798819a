-- ===== src/LocalPoint.antt =====
-- The constructor and `shutdown` of include/local_reception_point.C.
use gservices.Base.{
  ℕ, zero, suc, inl, inr, ltb_cases, ◌+◌, ◌<◌, ◌≤◌, ◌≡◌, refl, List, [], ◌∷◌, ◌++◌, some, Bool,
  true, false, M, Aleph, Outcome, done, stopped, blocked, out_of_bounds, pure, assert, ◌>>=◌, ◌>>◌,
  if◌then◌else◌, ltb, arith, length, drop, replicate, append-nil, length-replicate,
}
use gservices.Wire.{IsText, strcpy, c_str, c_str_text}
use gservices.Readwrite.Output.{capacity}
use gservices.Message.{encode_entry, shutdown_message}
use gservices.Access.{AccessPoint, access_point, send_request}
use gservices.Reception.{ReceptionPoint, reception_point}
use gservices.Locators.{LocalLocator, local_locator, stringficate}
use gservices.LocalAccess.{LocalLink, local_transport, local_access_point, socket_path, destroy}
use gservices.LocalAccess.Framing.{send_request_sends}
use gservices.LocalReception.{Sockets}

-- The constructor. `socket` is the descriptor that the system call returns (0 for an error),
-- `path_size` the size of the array `sun_path`, and `binds` and `listens` tell whether these calls
-- succeed. The result is the object and the path that it is bound to.
unfoldable pub local_reception_point :
    Aleph
    → ℕ
    → ℕ
    → (List ℕ → Bool)
    → Bool
    → LocalLocator
    → Sockets
    → ℕ
    → {S : Type 0} → M S (ReceptionPoint Sockets × List ℕ)
unfolding socket_path
local_reception_point k socket path_size binds listens deamon_loc link no_of_services = do
  assert k (ltb 0 socket)
  path ← socket_path path_size deamon_loc
  assert k (binds (c_str path))
  assert k listens
  pure (reception_point link no_of_services, c_str path)

-- What the thread that shuts the server down works on: its own client, and whether the listening
-- socket is open and its path exists.
pub record Closing : Type 0 where
  pub client : AccessPoint LocalLink
  pub listening : Bool
  pub linked : Bool

abbrev pub on_client : {A : Type 0} → M (AccessPoint LocalLink) A → M Closing A
on_client m s = let (o, c) = m s.client in (o, record s { client = c })

-- The loop that looks at `is_shutdown` until it is true, for the values that it finds.
unfoldable pub wait_loop : List Bool → {S : Type 0} → M S (Unit {0})
wait_loop [] s = (blocked, s)
wait_loop (true ∷ flags) s = (done tt, s)
wait_loop (false ∷ flags) s = wait_loop flags s

-- `shutdown`; its client is destroyed at the end.
unfoldable pub shut_down :
    Aleph → ℕ → ℕ → (List ℕ → Bool) → LocalLocator → LocalLink → List Bool → M Closing (Unit {0})
unfolding wait_loop
shut_down k socket path_size connects local_location link flags = do
  on_client (local_access_point k socket path_size connects local_location link 1)
  on_client (send_request (local_transport k) k (encode_entry shutdown_message))
  wait_loop flags
  (λ s. (done tt, record s { listening = false; linked = false }))
  on_client destroy

-- The destructor.
unfoldable pub destroy_point :
    Aleph
    → ℕ
    → ℕ
    → (List ℕ → Bool)
    → LocalLocator
    → LocalLink
    → List Bool
    → Bool
    → M Closing (Unit {0})
unfolding shut_down
destroy_point k socket path_size connects local_location link flags is_shutdown =
    if is_shutdown then pure tt else shut_down k socket path_size connects local_location link flags

-- What is constructed for a path, by whether the path fits the address of a socket.
abbrev pub Constructed :
    Bool → List ℕ → Sockets → ℕ → Outcome (ReceptionPoint Sockets × List ℕ) → Type 0
Constructed true path link n o = o ≡ done (reception_point link n, path)
Constructed false path link n o = o ≡ stopped out_of_bounds

-- A path that fits is copied, and read back.
socket_path_fits :
    (path_size : ℕ) (loc : LocalLocator) (text : List ℕ) {S : Type 0} (s : S)
    → IsText text
    → stringficate loc ≡ text
    → length text < path_size
    → (path : List ℕ) × (socket_path path_size loc s ≡ (done path, s)) × (c_str path ≡ text)
unfolding socket_path strcpy
socket_path_fits path_size loc text s good is fits =
    let rest : List ℕ = drop (length text + 1) (replicate path_size 0) in
    (
      text ++ 0 ∷ rest,
      ground (arith, is, length-replicate {A = ℕ} path_size 0),
      c_str_text text rest good,
    )

socket_path_overflows :
    (path_size : ℕ) (loc : LocalLocator) (text : List ℕ) {S : Type 0} (s : S)
    → stringficate loc ≡ text
    → path_size ≤ length text
    → socket_path path_size loc s ≡ (stopped out_of_bounds, s)
unfolding socket_path strcpy
socket_path_overflows path_size loc text s is long =
    ground (arith, is, length-replicate {A = ℕ} path_size 0)

local_locator_fits :
    (text : List ℕ) (memory : LocalLocator)
    → IsText text
    → length text < length memory.deamon_location
    → (loc : LocalLocator) × (local_locator text memory ≡ some loc) × (stringficate loc ≡ text)
unfolding local_locator stringficate strcpy
local_locator_fits text memory good fits =
    let rest : List ℕ = drop (length text + 1) memory.deamon_location in
    (record memory { deamon_location = text ++ 0 ∷ rest }, ground arith, c_str_text text rest good)

-- A path that fits the array of a Local_Locator, where `socket`, `bind` and `listen` succeed: the
-- locator is constructed and gives the path back. The constructor of the server then returns a
-- server without services and requests, bound to that path, if the path also fits the array of a
-- socket's address, and writes outside of that array if it does not.
pub local_reception_point_lem :
    (k : Aleph) (socket path_size : ℕ) (binds : List ℕ → Bool) (text : List ℕ)
    (memory : LocalLocator) (link : Sockets) (n : ℕ) {S : Type 0} (s : S)
    → IsText text
    → length text < length memory.deamon_location
    → 0 < socket
    → binds text ≡ true
    → (loc : LocalLocator) × (local_locator text memory ≡ some loc)
      × (stringficate loc ≡ text)
      × Constructed
          (ltb (length text) path_size)
          text
          link
          n
          (local_reception_point k socket path_size binds true loc link n s).0
unfolding local_reception_point
local_reception_point_lem k socket path_size binds text memory link n s good fits opened bound =
    let (loc, made, is) = local_locator_fits text memory good fits in
    (
      loc,
      made,
      is,
      elim (ltb_cases (length text) path_size) [
        | inl (short, e) ↦
            let (path, copied, back) = socket_path_fits path_size loc text s good is short in
            rw e (ground (arith, copied, back, bound))
        | inr (long, e) ↦
            let over = socket_path_overflows path_size loc text s is long in
            rw e (ground (arith, over))
      ],
    )

wait_loop_ends :
    (n : ℕ) (later : List Bool) {S : Type 0} (s : S)
    → wait_loop (replicate n false ++ true ∷ later) s ≡ (done tt, s)
unfolding wait_loop
wait_loop_ends zero later s = refl
wait_loop_ends (suc n) later s = wait_loop_ends n later s

-- A client of one service that has connected.
connected :
    (k : Aleph) (socket path_size : ℕ) (connects : List ℕ → Bool) (loc : LocalLocator)
    (text : List ℕ) (link : LocalLink) (s : AccessPoint LocalLink)
    → 0 < socket
    → IsText text
    → stringficate loc ≡ text
    → length text < path_size
    → connects text ≡ true
    → local_access_point k socket path_size connects loc link 1 s
      ≡ (done tt, access_point (record link { alive = true }) 1)
unfolding local_access_point
connected k socket path_size connects loc text link s opened good is short found =
    let start : AccessPoint LocalLink = access_point (record link { alive = true }) 1 in
    let (path, copied, back) = socket_path_fits path_size loc text start good is short in
    ground (arith, copied, back, found)

-- A socket is returned, the path fits its address and the server is reached, the kernel takes the
-- header of a message, and `is_shutdown` becomes true after some looks at it. Then `shutdown`
-- returns, has sent a Shutdown_Message and nothing else, and the listening socket, its path and the
-- connection are gone.
pub shut_down_lem :
    (k : Aleph) (socket path_size : ℕ) (connects : List ℕ → Bool) (loc : LocalLocator)
    (text : List ℕ) (link : LocalLink) (n : ℕ) (later : List Bool) (s : Closing)
    → 0 < socket
    → IsText text
    → stringficate loc ≡ text
    → length text < path_size
    → connects text ≡ true
    → 16 ≤ capacity link.writes
    → (t : Closing) × (shut_down k socket path_size connects loc link
          (replicate n false ++ true ∷ later)
          s
        ≡ (done tt, t))
      × (t.client.link.sent ≡ link.sent ++ encode_entry shutdown_message)
      × (t.client.link.alive ≡ false)
      × (t.listening ≡ false)
      × (t.linked ≡ false)
unfolding shut_down destroy
shut_down_lem k socket path_size connects loc text link n later s opened good is short found room =
    let start : AccessPoint LocalLink = access_point (record link { alive = true }) 1 in
    let (rest, sends) =
      send_request_sends k shutdown_message [] [] start refl tt
        (record { words = omega arith; parameters_counted = refl; total_fits = omega arith })
        (omega arith) in
    let message : List ℕ = encode_entry shutdown_message in
    let sent : AccessPoint LocalLink = record start {
      locked = true;
      link = record (start.link) { writes = rest; sent = link.sent ++ message };
    } in
    let goes : send_request (local_transport k) k message start ≡ (done tt, sent) =
      rw⁻¹ (append-nil message) sends in
    let begins =
      connected k socket path_size connects loc text link s.client opened good is short found in
    let waits = wait_loop_ends n later (record s { client = sent }) in
    (
      record {
        client = record sent { is_shutdown = true; link = record (sent.link) { alive = false } };
        listening = false;
        linked = false;
      },
      ground (arith, begins, goes, waits),
      refl,
      refl,
      refl,
      refl,
    )
