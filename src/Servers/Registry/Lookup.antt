-- ===== src/Servers/Registry/Lookup.antt =====
-- Which handler a request gets, and what a request leaves in the table.
use servercc.Common.{
  ℕ, ◌≡◌, refl, ap, ◌∙◌, update, inl, inr, Outcome, Bool-cases, ◌==◌, if◌then◌else◌, none, some,
  thrown, arith, Option-cases,
}
use servercc.Types.Status.{Status, ok_status, error, already_exists}
use servercc.Servers.Registry.{Handler, Server, add_handler, handle_request}

module _ {R W : Type 0} where
  -- The handler that a request of this protocol gets.
  abbrev pub handler_for : Server R W → ℕ → Handler R W
  handler_for s protocol = elim (s.handlers protocol) [
    | none ↦ s.default_handler
    | some handler ↦ elim handler [ none ↦ s.default_handler | some h ↦ some h ]
  ]

  -- What a handler makes of a request: an empty function throws.
  abbrev pub answer : Handler R W → R → W → Outcome (Status × W)
  answer handler request w = elim handler [ none ↦ thrown | some h ↦ h request w ]

  -- A request runs the handler of its protocol where there is one that is not empty, and
  -- otherwise the default handler, and throws where that is empty too; which handler a request of
  -- any protocol gets afterwards is unchanged.
  pub handle_request-handler_for :
      (protocol : ℕ) (request : R) (w : W) (s : Server R W)
      → ((handle_request protocol request w s).0 ≡ answer (handler_for s protocol) request w)
        × ((q : ℕ) → handler_for (handle_request protocol request w s).1 q ≡ handler_for s q)
  unfolding handle_request
  handle_request-handler_for protocol request w s = elim (Option-cases (s.handlers protocol)) [
    | inl e ↦ (ground arith, λ q. ground arith)
    | inr (handler, e) ↦ entry handler e
  ]
    where
      entry :
          (handler : Handler R W)
          → s.handlers protocol ≡ some handler
          → ((handle_request protocol request w s).0 ≡ answer (handler_for s protocol) request w)
            × ((q : ℕ) → handler_for (handle_request protocol request w s).1 q ≡ handler_for s q)
      entry none e = (ground arith, λ q. ground arith)
      entry (some h) e = (ground arith, λ q. ground arith)

  -- A request of a protocol without a handler leaves an empty entry: from then on a handler for
  -- the protocol is refused as if there were one, which before the request was accepted.
  pub add_handler-handle_request :
      (protocol : ℕ) (request : R) (w : W) (handler : Handler R W) (s : Server R W)
      → s.handlers protocol ≡ none
      → let s' = (handle_request protocol request w s).1 in
        ((add_handler protocol handler s).0 ≡ ok_status)
        × (add_handler protocol handler s'
            ≡ (error already_exists "Handler already exists for protocol.", s'))
        × (handler_for s' protocol ≡ s.default_handler)
  unfolding add_handler handle_request
  add_handler-handle_request protocol request w handler s e =
      (ground arith, ground arith, ground arith)

  add_handler-added :
      (protocol : ℕ) (handler : Handler R W) (s : Server R W)
      → s.handlers protocol ≡ none
      → add_handler protocol handler s
        ≡ (ok_status, record s { handlers = update s.handlers protocol (some handler) })
  unfolding add_handler
  add_handler-added protocol handler s e = rw e refl

  -- A handler that is added, and is not empty, is the one for its protocol and no other.
  pub handler_for-add_handler :
      (protocol : ℕ) (h : R → W → Outcome (Status × W)) (s : Server R W) (q : ℕ)
      → s.handlers protocol ≡ none
      → handler_for (add_handler protocol (some h) s).1 q
        ≡ (if protocol == q then some h else handler_for s q)
  handler_for-add_handler protocol h s q e =
      ap (λ (r : Status × Server R W). handler_for r.1 q) (add_handler-added protocol (some h) s e)
      ∙ elim (Bool-cases (protocol == q)) [ inl same ↦ ground arith | inr apart ↦ ground arith ]
