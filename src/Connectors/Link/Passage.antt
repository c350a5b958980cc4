-- ===== src/Connectors/Link/Passage.antt =====
-- A message that a channel sends over an otherwise idle connection.
use servercc.Common.{◌^◌, ◌<◌, ◌≡◌, refl, sym, ap, subst, ◌∙◌, false, [], some, Outcome, done}
use servercc.Types.Status.{Status, ok_status}
use servercc.Types.Memory.{uint32}
use servercc.Types.Message.{Message}
use servercc.Types.Message.Wrapped.{wrapped, wrap_message-wrapped}
use servercc.Types.Stream.{read_message, write_message}
use servercc.Types.Stream.Keeping.{write_message-keeps, read_message-keeps}
use servercc.Connectors.Env.{Env, ChannelConfig}
use servercc.Connectors.Channel.{Channel, write, write_protocol}
use servercc.Connectors.Manager.{State, forward_message}
use servercc.Connectors.Manager.Delivery.{IsConfig, IsWrappable, accept, delivered, write-delivers}
use servercc.Connectors.Link.{End, opposite, Wires}
use servercc.Connectors.Link.Traffic.{on_wire}

module _ (config : ChannelConfig) (env : Env) (wires : Wires env.posix) where
  -- It is read at the other end, with nothing left behind it, and goes to the call of its side there.
  abbrev pub Passes : End → Channel env.Buffer → Message → env.World → Type 0
  Passes e c m w =
      (sent : Message) × (w' : env.World) × (w'' : env.World) × (write config env c m w
        ≡ done (ok_status, w'))
      × (read_message env.posix (wires.fd (opposite e)) w' ≡ (ok_status, some sent, w''))
      × (on_wire config env wires e w'' ≡ [])
      × (on_wire config env wires (opposite e) w'' ≡ on_wire config env wires (opposite e) w)
      × ((s : State env)
          → forward_message config env sent s ≡ accept config env c.side c.id (delivered m) s)

  write-leaves :
      (e : End) (c : Channel env.Buffer) (m : Message) (w w' : env.World)
      → c.write_fd ≡ wires.fd e
      → c.is_closed ≡ false
      → IsWrappable m
      → write config env c m w ≡ done (ok_status, w')
      → on_wire config env wires (opposite e) w' ≡ on_wire config env wires (opposite e) w
  unfolding write
  write-leaves e c m w w' fd is_open ok run =
      let sent : Message = wrapped uint32 (write_protocol config c.side) c.id m in
      let wrote : Path (Outcome (Status × env.World))
          (done (write_message env.posix c.write_fd sent w)) (done (ok_status, w')) =
        sym (
          rw is_open
            (rw (wrap_message-wrapped uint32 (write_protocol config c.side) c.id m ok.room) refl))
        ∙ run in
      let same : (write_message env.posix c.write_fd sent w) ≡ (ok_status, w') = cc in
      ap (λ (r : Status × env.World). on_wire config env wires (opposite e) r.1) (sym same)
      ∙ ap (λ fd'. on_wire config env wires (opposite e) (write_message env.posix fd' sent w).1) fd
      ∙ write_message-keeps env.posix (on_wire config env wires (opposite e)) (wires.fd e)
          (wires.send_leaves e) (wires.fsync_leaves e) sent w

  pub write-Passes :
      (e : End) (c : Channel env.Buffer) (m : Message) (w : env.World)
      → IsConfig config
      → IsWrappable m
      → c.write_fd ≡ wires.fd e
      → c.is_closed ≡ false
      → c.id < 2 ^ 32
      → on_wire config env wires e w ≡ []
      → Passes e c m w
  write-Passes e c m w d ok fd is_open small idle =
      let moved : Channel env.Buffer = record c { write_fd = wires.fd e } in
      let (sent, w', run, (status, message, rest), forwards) =
        write-delivers config env (wires.fd (opposite e)) moved (wires.outgoing e) m w d ok is_open
          small (wires.fd_valid e) idle in
      let same : moved ≡ c = λ i. record c { write_fd = sym fd i } in
      let written : write config env c m w ≡ done (ok_status, w') =
        subst (λ k. write config env k m w ≡ done (ok_status, w')) same run in
      (
        sent,
        w',
        (read_message env.posix (wires.fd (opposite e)) w').2,
        written,
        (λ i. (status i, message i, (read_message env.posix (wires.fd (opposite e)) w').2)),
        rest,
        read_message-keeps env.posix (on_wire config env wires (opposite e)) (wires.fd (opposite e))
              (wires.recv_leaves (opposite e)) w'
            ∙ write-leaves e c m w w' fd is_open ok written,
        forwards,
      )
