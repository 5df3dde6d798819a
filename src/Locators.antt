-- ===== src/Locators.antt =====
-- include/local_locator.H, and Remote_Locator of include/remote_access_point.H: where a server is,
-- and how a client that has a connection reaches it.
use gservices.Base.{ℕ, List, Option, none, some}
use gservices.Wire.{strcpy, c_str}

-- sizeof(deamon_location)
abbrev pub location_size : ℕ
location_size = 255

pub record LocalLocator : Type 0 where
  pub deamon_location : List ℕ
  pub deamon_socket : ℕ

-- The constructor, on what the memory of the object held. No result: the path does not fit the
-- array.
unfoldable pub local_locator : List ℕ → LocalLocator → Option LocalLocator
local_locator dem_loc memory = elim (strcpy memory.deamon_location dem_loc) [
  | none ↦ none
  | some path ↦ some (record memory { deamon_location = path })
]

-- `stringficate`, up to the NUL.
unfoldable pub stringficate : LocalLocator → List ℕ
stringficate loc = c_str loc.deamon_location

abbrev pub set_deamon_socket : LocalLocator → ℕ → LocalLocator
set_deamon_socket loc sock_id = record loc { deamon_socket = sock_id }

abbrev pub get_deamon_socket : LocalLocator → ℕ
get_deamon_socket loc = loc.deamon_socket

-- `Link` stands for the addresses of connections, and `Port` for the ports of Aleph.
pub record RemoteLocator (Link Port : Type 0) : Type 0 where
  pub deamon_link : Link
  pub remote_server_port : Port

module _ {Link Port : Type 0} where
  -- The constructor leaves the connection as it is in the memory of the object.
  abbrev pub remote_locator : Port → Link → RemoteLocator Link Port
  remote_locator server_port uninitialized = record {
    deamon_link = uninitialized;
    remote_server_port = server_port;
  }

  abbrev pub set_deamon_link : RemoteLocator Link Port → Link → RemoteLocator Link Port
  set_deamon_link loc link = record loc { deamon_link = link }

  abbrev pub get_deamon_link : RemoteLocator Link Port → Link
  get_deamon_link loc = loc.deamon_link

  abbrev pub get_remote_server_port : RemoteLocator Link Port → Port
  get_remote_server_port loc = loc.remote_server_port
