-- ===== src/Server/Blocking.antt =====
-- What blocking an address does in src/server/server.c, from the command to the connections.
use pcd.Prelude.{
  ℕ, ◌<◌, ◌≡◌, refl, sym, ap, ◌∙◌, subst, arith, true, false, some, List, All, Bytes, length, leb,
  ◌==◌, Bool-cases, inl, inr,
}
use pcd.Server.Blocklist.{blocklist_contains, blocklist_add, blocklist_add-found}
use pcd.Server.Clients.{ClientSession, user_client, is_user, from_ip, kick_ip, close_kicked}
use pcd.Server.Sessions.{close_kicked-kick_ip}
use pcd.Server.State.{ServerState, Surroundings, buffer_size, send_responsef, respond}
use pcd.Server.Admin.{handle_blockip}
use pcd.Server.Loop.{accept_new_inet_connection, end_round}

pub respond-clients :
    (state : ServerState) (fd : ℕ) (text : Bytes) → (respond state fd text).clients ≡ state.clients
unfolding send_responsef
respond-clients state fd text = elim (Bool-cases (leb buffer_size (length text))) [
  | inl long ↦ rw (respond, send_responsef, long) refl
  | inr fits ↦ rw (respond, send_responsef, fits) refl
]

respond-blocklist :
    (state : ServerState) (fd : ℕ) (text : Bytes)
    → (respond state fd text).blocklist ≡ state.blocklist
unfolding send_responsef
respond-blocklist state fd text = elim (Bool-cases (leb buffer_size (length text))) [
  | inl long ↦ rw (respond, send_responsef, long) refl
  | inr fits ↦ rw (respond, send_responsef, fits) refl
]

module _ (env : Surroundings) (state : ServerState) (slot fd : ℕ) (ip : Bytes)
    (given : 0 < length ip) (added : (blocklist_add state.blocklist ip).0 ≡ true) where
  not_empty : (length ip == 0) ≡ false
  not_empty = ground (arith, given)

  blockip-blocklist :
      (handle_blockip env state slot fd ip).blocklist ≡ (blocklist_add state.blocklist ip).1
  unfolding handle_blockip
  blockip-blocklist = rw (handle_blockip, not_empty, added) (respond-blocklist _ fd _)

  blockip-clients : (handle_blockip env state slot fd ip).clients ≡ (kick_ip state.clients ip).1
  unfolding handle_blockip
  blockip-clients = rw (handle_blockip, not_empty, added) (respond-clients _ fd _)

  -- Once an address of 1 to 63 bytes is blocked by the administrator without an error, the users
  -- that it has are gone at the end of the round, and a connection of a user from it is refused: no
  -- session changes.
  pub handle_blockip_lem :
      (client_fd : ℕ)
      → length ip < 64
      → All
          (λ client. from_ip ip client ≡ false)
          (end_round env (handle_blockip env state slot fd ip)).clients
        × ((accept_new_inet_connection env
              (handle_blockip env state slot fd ip)
              (some (client_fd, some ip))
              user_client
              false).clients
            ≡ (handle_blockip env state slot fd ip).clients)
  unfolding end_round accept_new_inet_connection is_user
  handle_blockip_lem client_fd short =
      let after = handle_blockip env state slot fd ip in
      let blocked : blocklist_contains after.blocklist ip ≡ true =
        ap (λ (ips : List Bytes). blocklist_contains ips ip) blockip-blocklist
        ∙ blocklist_add-found state.blocklist ip short added in
      (
        subst
            (λ (clients : List ClientSession).
              All (λ client. from_ip ip client ≡ false) (close_kicked clients))
            (sym blockip-clients) (close_kicked-kick_ip state.clients ip),
        rw (accept_new_inet_connection, blocked) (respond-clients after client_fd _),
      )
