-- ===== src/Connectors/Link/Traffic.antt =====
-- What stands on the wires of a connection between two managers: whole messages, each of which the
-- manager at the other end can handle.
use servercc.Common.{
  ℕ, ◌≡◌, ◌≢◌, subst, refl, sym, ap, ◌∙◌, ℤ, List, [], ◌∷◌, ◌++◌, some, arith, All, append-nil,
  append_assoc,
}
use servercc.Types.Status.{ok_status}
use servercc.Types.Header.{IsHeader, header_bytes}
use servercc.Types.Message.{Message}
use servercc.Types.Message.RoundTrip.{IsFramed}
use servercc.Types.Stream.{read_message, write_message}
use servercc.Types.Stream.Keeping.{write_message-keeps, read_message-keeps}
use servercc.Types.Stream.Transfer.{frame, write_message-frame, read_message-frame}
use servercc.Types.Stream.Sequence.{frames}
use servercc.Connectors.Env.{Env, ChannelConfig}
use servercc.Connectors.Manager.Forwarding.{IsEnd, EndInRange, WrappedInRange}
use servercc.Connectors.Manager.Delivery.{counted-framed}
use servercc.Connectors.Link.{End, opposite, Wires}

pub frames-append : (ms ms' : List Message) → frames (ms ++ ms') ≡ frames ms ++ frames ms'
frames-append [] ms' = refl
frames-append (m ∷ ms) ms' =
    ap (λ t. frame m ++ t) (frames-append ms ms')
    ∙ sym (append_assoc (frame m) (frames ms) (frames ms'))

pub frames-not_nil : (m : Message) (ms : List Message) → frames (m ∷ ms) ≢ []
unfolding header_bytes
frames-not_nil m ms e = cc

module _ (config : ChannelConfig) (env : Env) (wires : Wires env.posix) where
  -- What was sent from end `e` and is not yet read.
  abbrev pub on_wire : End → env.World → List ℕ
  on_wire e w = (wires.outgoing e).pending w

  -- A message that a valid manager handles.
  pub record IsAcceptable (m : Message) : Type 0 where
    pub header_fits : IsHeader m.header
    pub framed : IsFramed m
    pub ending : IsEnd config env m → EndInRange config env m
    pub wrapping : ¬ IsEnd config env m → WrappedInRange config env m

  -- From one world to the next, end `e` sends some messages, all acceptable, and the other wire is
  -- left alone.
  pub record Sends (e : End) (messages : List Message) (w w' : env.World) : Type 0 where
    pub acceptable : All IsAcceptable messages
    pub sent : on_wire e w' ≡ on_wire e w ++ frames messages
    pub other : on_wire (opposite e) w' ≡ on_wire (opposite e) w

  pub Sends-nothing : (e : End) (w : env.World) → Sends e [] w w
  Sends-nothing e w = record {
    acceptable = tt;
    sent = sym (append-nil (on_wire e w));
    other = refl;
  }

  pub write_message-Sends :
      (e : End) (fd : ℤ) (m : Message) (w : env.World)
      → fd ≡ wires.fd e
      → IsAcceptable m
      → Sends e (m ∷ []) w (write_message env.posix fd m w).1
  write_message-Sends e fd m w at ok =
      subst (λ d. Sends e (m ∷ []) w (write_message env.posix d m w).1) (sym at)
        (record {
          acceptable = (ok, tt);
          sent =
              (write_message-frame env.posix (wires.outgoing e) m w (wires.fd_valid e)
                (omega (arith, ok.framed, ok.header_fits.length_fits))).1
              ∙ ap (λ t. on_wire e w ++ t)
                  (ap frame (counted-framed config env m ok.framed ok.header_fits.length_fits)
                    ∙ sym (append-nil (frame m)));
          other =
              write_message-keeps env.posix (on_wire (opposite e)) (wires.fd e)
                (wires.send_leaves e) (wires.fsync_leaves e) m w;
        })

  -- The first message on a wire is read from it, and no more.
  pub read_message-first :
      (e : End) (m : Message) (ms : List Message) (w : env.World)
      → IsAcceptable m
      → on_wire e w ≡ frames (m ∷ ms)
      → (w' : env.World) × (read_message env.posix (wires.fd (opposite e)) w
          ≡ (ok_status, some m, w'))
        × (on_wire e w' ≡ frames ms)
        × (on_wire (opposite e) w' ≡ on_wire (opposite e) w)
  read_message-first e m ms w ok h =
      let (status, message, rest) =
        read_message-frame env.posix (wires.outgoing e) m (frames ms) w h ok.header_fits
          ok.framed in
      (
        (read_message env.posix (wires.fd (opposite e)) w).2,
        (λ i. (status i, message i, (read_message env.posix (wires.fd (opposite e)) w).2)),
        rest,
        read_message-keeps env.posix (on_wire (opposite e)) (wires.fd (opposite e))
            (wires.recv_leaves (opposite e)) w,
      )
