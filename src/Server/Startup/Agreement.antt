-- ===== src/Server/Startup/Agreement.antt =====
-- The events on descriptors of Startup/Run.antt and the handlers of Server/Loop.antt, which both
-- model src/server/server.c, do the same to the sessions.
use pcd.Prelude.{
  ℕ, ◌≡◌, sym, ap, ◌∙◌, Bool, false, ◌||◌, ◌&&◌, Option, none, some, List, Bytes, codes, get_elem?,
  set, Bool-cases, Option-cases, inl, inr,
}
use pcd.Server.Blocklist.{blocklist_contains}
use pcd.Server.Clients.{
  ClientType, ClientSession, user_client, is_user, has_admin, close_client, add_client,
}
use pcd.Server.State.{ServerState, Surroundings, close_slot}
use pcd.Server.Loop.{admit, accept_new_inet_connection, accept_new_unix_connection}
use pcd.Server.Blocking.{respond-clients}
use pcd.Server.Startup.{Startup}
use pcd.Server.Startup.Run.{connects, leaves, session_event}

-- The address of a connection, and whether it is kept out.
abbrev pub peer_address : Option Bytes → Bytes
peer_address none = codes "unknown"
peer_address (some address) = address

abbrev pub refuses : ServerState → ClientType → Bool → Bytes → Bool
refuses state type single_admin_only addr_str =
    (is_user type && blocklist_contains state.blocklist addr_str)
    || (single_admin_only && has_admin state.clients)

module _ (env : Surroundings) (state : ServerState) (s : Startup)
    (same : s.clients ≡ state.clients) where
  admit-clients :
      (fd : ℕ) (type : ClientType) (addr_str : Bytes)
      → (admit env state fd type addr_str).clients
        ≡ (session_event (connects fd false env.now type addr_str) s).clients
  unfolding admit session_event
  admit-clients fd type addr_str =
      elim (Option-cases (add_client env.now state.clients fd type addr_str)) [
        | inl full ↦ rw (admit, session_event, same, full) (respond-clients state fd _ ∙ sym same)
        | inr (clients, room) ↦ rw (admit, session_event, same, room) (respond-clients _ fd _)
      ]

  -- Accepting a connection does to the sessions what the event of a connection does.
  pub accept_new_inet_connection-clients :
      (fd : ℕ) (res : Option Bytes) (type : ClientType) (single_admin_only : Bool)
      → (accept_new_inet_connection env state (some (fd, res)) type single_admin_only).clients
        ≡ (session_event
            (connects fd
              (refuses state type single_admin_only (peer_address res))
              env.now
              type
              (peer_address res))
            s).clients
  unfolding accept_new_inet_connection session_event
  accept_new_inet_connection-clients fd none type single_admin_only =
      let addr_str : Bytes = codes "unknown" in
      elim (Bool-cases (is_user type && blocklist_contains state.blocklist addr_str)) [
        | inl blocked ↦
            rw (accept_new_inet_connection, blocked) (respond-clients state fd _ ∙ sym same)
        | inr free ↦ elim (Bool-cases (single_admin_only && has_admin state.clients)) [
          | inl second ↦
              rw (accept_new_inet_connection, free, second) (respond-clients state fd _ ∙ sym same)
          | inr first ↦
              rw (accept_new_inet_connection, free, first) (admit-clients fd type addr_str)
        ]
      ]
  accept_new_inet_connection-clients fd (some addr_str) type single_admin_only =
      elim (Bool-cases (is_user type && blocklist_contains state.blocklist addr_str)) [
        | inl blocked ↦
            rw (accept_new_inet_connection, blocked) (respond-clients state fd _ ∙ sym same)
        | inr free ↦ elim (Bool-cases (single_admin_only && has_admin state.clients)) [
          | inl second ↦
              rw (accept_new_inet_connection, free, second) (respond-clients state fd _ ∙ sym same)
          | inr first ↦
              rw (accept_new_inet_connection, free, first) (admit-clients fd type addr_str)
        ]
      ]

  -- So does a local connection, which nothing keeps out.
  pub accept_new_unix_connection-clients :
      (fd : ℕ)
      → (accept_new_unix_connection env state (some fd)).clients
        ≡ (session_event (connects fd false env.now user_client (codes "unix-local")) s).clients
  unfolding accept_new_unix_connection
  accept_new_unix_connection-clients fd = admit-clients fd user_client (codes "unix-local")

  -- Closing the session in a slot is the event that it leaves.
  pub close_slot-clients :
      (slot : ℕ) → (close_slot state slot).clients ≡ (session_event (leaves slot) s).clients
  unfolding session_event
  close_slot-clients slot = elim (Option-cases (get_elem? state.clients slot)) [
    | inl missing ↦ rw (close_slot, session_event, same, missing) (sym same)
    | inr (client, found) ↦
        rw (close_slot, session_event, same, found)
          (ap (λ (l : List ClientSession). set l slot (close_client client)) (sym same))
  ]
