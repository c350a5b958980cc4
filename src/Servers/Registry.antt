-- ===== src/Servers/Registry.antt =====
-- servercc/servers/include/server.h: the protocol handlers of a server.
pub mod Lookup
use servercc.Common.{
  ℕ, ℤ, Bool, true, false, Option, none, some, Outcome, thrown, update, is_some, if◌then◌else◌,
}
use servercc.Types.Status.{Status, ok_status, error, already_exists, not_found}

module _ (R W : Type 0) where
  -- `handler_t`, a `std::function`, which may be empty. A handler owns its request.
  abbrev pub Handler : Type 0
  Handler = Option (R → W → Outcome (Status × W))

  -- An entry of the map may be an empty function.
  pub record Server : Type 0 where
    pub port : ℕ
    pub handlers : ℕ → Option Handler
    pub default_handler : Handler
    pub server_socket_fd : ℤ

module _ {R W : Type 0} where
  unfoldable pub add_handler : ℕ → Handler R W → Server R W → Status × Server R W
  add_handler protocol handler s =
      if is_some (s.handlers protocol)
      then (error already_exists "Handler already exists for protocol.", s)
      else (ok_status, record s { handlers = update s.handlers protocol (some handler) })

  unfoldable pub update_handler : ℕ → Handler R W → Server R W → Status × Server R W
  update_handler protocol handler s =
      if is_some (s.handlers protocol)
      then (ok_status, record s { handlers = update s.handlers protocol (some handler) })
      else (error not_found "Handler does not exist for protocol.", s)

  -- `handlers[protocol]`, which makes an entry where there is none.
  abbrev pub subscript : ℕ → Server R W → Handler R W × Server R W
  subscript protocol s = elim (s.handlers protocol) [
    | none ↦ (none, record s { handlers = update s.handlers protocol (some none) })
    | some handler ↦ (handler, s)
  ]

  -- Calling an empty function throws.
  abbrev pub call : Handler R W → R → W → Outcome (Status × W)
  call none request w = thrown
  call (some handler) request w = handler request w

  abbrev pub or_default : Handler R W → Handler R W → Handler R W
  or_default none default_handler = default_handler
  or_default (some handler) default_handler = some handler

  -- `protocol` is what `request->getProtocol()` returns.
  unfoldable pub handle_request : ℕ → R → W → Server R W → Outcome (Status × W) × Server R W
  handle_request protocol request w s =
      let (handler, s') = subscript protocol s in
      (call (or_default handler s'.default_handler) request w, s')
