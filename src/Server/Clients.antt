-- ===== src/Server/Clients.antt =====
-- src/server/server.c and include/server.h: the sessions of clients. The descriptor of a session
-- that is not active is -1, here `none`. Closing a descriptor is in Startup/Run.antt.
use pcd.Prelude.{
  ℕ, suc, ◌+◌, Bool, true, false, not, ◌&&◌, Option, none, some, List, [], ◌∷◌, ◌++◌, Bytes,
  bytes_eq, codes, length, leb, ◌==◌, if◌then◌else◌, snprintf, decimal,
}
use pcd.Job.{Timespec}
use pcd.Job.Report.{joined}

-- `client_type_t`.
pub data ClientType : Type 0 where
  unknown_client user_client admin_client : ClientType

-- `client_session_t`.
pub record ClientSession : Type 0 where
  pub fd : Option ℕ
  pub type : ClientType
  pub active : Bool
  pub kick_requested : Bool
  pub addr_str : Bytes
  pub connected_at : Timespec

abbrev pub max_clients : ℕ
max_clients = 128

abbrev pub no_session : ClientSession
no_session = record {
  fd = none;
  type = unknown_client;
  active = false;
  kick_requested = false;
  addr_str = [];
  connected_at = (0, 0);
}

unfoldable pub is_admin : ClientType → Bool
is_admin admin_client = true
is_admin _ = false

unfoldable pub is_user : ClientType → Bool
is_user user_client = true
is_user _ = false

-- The time of the connection stays.
unfoldable pub close_client : ClientSession → ClientSession
close_client client =
    if client.active then record no_session { connected_at = client.connected_at } else client

abbrev pub behind : ClientSession → Option (List ClientSession) → Option (List ClientSession)
behind client none = none
behind client (some clients) = some (client ∷ clients)

-- The session in the first free slot; `none` when every slot is taken.
unfoldable pub add_client :
    Timespec → List ClientSession → ℕ → ClientType → Bytes → Option (List ClientSession)
add_client now [] client_fd type addr_str = none
add_client now (client ∷ clients) client_fd type addr_str = elim client.active [
  | false ↦ some (
      record {
        fd = some client_fd;
        type = type;
        active = true;
        kick_requested = false;
        addr_str = snprintf 64 addr_str;
        connected_at = now;
      }
      ∷ clients)
  | true ↦ behind client (add_client now clients client_fd type addr_str)
]

-- The descriptors of the active sessions, in the order in which `poll` watches them.
unfoldable pub active_fds : List ClientSession → List (Option ℕ)
active_fds [] = []
active_fds (client ∷ clients) =
    let rest = active_fds clients in if client.active then client.fd ∷ rest else rest

-- The loops of `STATS` and of `accept_new_inet_connection`.
unfoldable pub count_active : List ClientSession → ℕ
count_active [] = 0
count_active (client ∷ clients) =
    let rest = count_active clients in if client.active then suc rest else rest

unfoldable pub has_admin : List ClientSession → Bool
unfolding is_admin
has_admin [] = false
has_admin (client ∷ clients) =
    if client.active && is_admin client.type then true else has_admin clients

-- `KICK`: the user with the descriptor is marked; `none` when there is none.
unfoldable pub kick_client : List ClientSession → ℕ → Option (List ClientSession)
unfolding is_user
kick_client [] target_fd = none
kick_client (client ∷ clients) target_fd =
    let rest = behind client (kick_client clients target_fd) in
    elim client.fd [
      | none ↦ rest
      | some fd ↦
          if client.active && ((fd == target_fd) && is_user client.type)
          then some (record client { kick_requested = true } ∷ clients)
          else rest
    ]

-- `BLOCKIP`: the users with the address are marked, and counted.
abbrev pub from_ip : Bytes → ClientSession → Bool
from_ip ip client = client.active && (is_user client.type && bytes_eq client.addr_str ip)

unfoldable pub kick_ip : List ClientSession → Bytes → ℕ × List ClientSession
unfolding is_user
kick_ip [] ip = (0, [])
kick_ip (client ∷ clients) ip =
    let (kicked, later) = kick_ip clients ip in
    if from_ip ip client
    then (suc kicked, record client { kick_requested = true } ∷ later)
    else (kicked, client ∷ later)

-- The loop at the end of a round: sessions that are to be closed.
unfoldable pub close_kicked : List ClientSession → List ClientSession
unfolding close_client
close_kicked [] = []
close_kicked (client ∷ clients) =
    (if client.active && client.kick_requested then close_client client else client)
    ∷ close_kicked clients

abbrev pub type_text : ClientType → Bytes
type_text type = if is_admin type then codes "admin" else codes "user"

abbrev pub fd_text : Option ℕ → Bytes
fd_text none = codes "-1"
fd_text (some fd) = decimal fd

-- `item[256]`.
unfoldable pub client_item : ClientSession → Bytes
unfolding is_admin
client_item client = snprintf 256 (
    codes "fd="
    ++ (fd_text client.fd
        ++ (codes ",type=" ++ (type_text client.type ++ (codes ",addr=" ++ client.addr_str)))))

unfoldable pub client_items : ℕ → List ClientSession → Bytes → Bytes
unfolding client_item
client_items buf_size [] buf = buf
client_items buf_size (client ∷ clients) buf =
    let skipped = client_items buf_size clients buf in
    let rest = client_items buf_size clients (joined buf (client_item client)) in
    if not client.active
    then skipped
    else if leb buf_size (length (joined buf (client_item client)) + 1)
    then buf
    else rest

-- `none` for -1.
unfoldable pub format_client_list : List ClientSession → ℕ → Option Bytes
unfolding client_items count_active
format_client_list clients buf_size =
    if buf_size == 0
    then none
    else if count_active clients == 0
    then some (snprintf buf_size (codes "empty"))
    else some (client_items buf_size clients [])
