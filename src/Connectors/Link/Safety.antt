-- ===== src/Connectors/Link/Safety.antt =====
-- Every state that the two managers of a connection reach is a safe one.
use servercc.Common.{
  ℕ, ◌^◌, ◌≤◌, ◌≡◌, ◌≢◌, refl, sym, ap, subst, ◌∙◌, List, [], ◌∷◌, ◌++◌, Option, some, Outcome,
  done, arith, All,
}
use servercc.Types.Status.{Status, ok_status}
use servercc.Types.Message.{Message}
use servercc.Types.Stream.{read_message}
use servercc.Types.Stream.Sequence.{frames}
use servercc.Connectors.Env.{Env, ChannelConfig}
use servercc.Connectors.Manager.{State, Forwarded, new_manager, forward_message}
use servercc.Connectors.Manager.Invariant.{new_manager-IsValid, write_fd-new_manager}
use servercc.Connectors.Manager.Effect.{Effect}
use servercc.Connectors.Manager.Forwarding.{Handled, forward_message-Handled}
use servercc.Connectors.Manager.Delivery.{IsConfig}
use servercc.Connectors.Link.{
  End, left, right, opposite, place, Wires, Link, at, after, Receipt, forwards, Step, calls,
  receipt, Reach, start, later, connected,
}
use servercc.Connectors.Link.Traffic.{
  on_wire, IsAcceptable, Sends, read_message-first, frames-append,
}
use servercc.Connectors.Link.Endpoint.{IsAt, Effect-Continues, entered-IsAt}
use servercc.Connectors.Link.Calls.{Call-Continues}

-- What holds of an end and of its opposite holds of both ends.
pub both_ends {ℓ} : (P : End → Type ℓ) (e : End) → P e → P (opposite e) → (e' : End) → P e'
both_ends P left p q left = p
both_ends P left p q right = q
both_ends P right p q left = q
both_ends P right p q right = p

pub both_ends_self {ℓ} :
    (P : End → Type ℓ) (e : End) (p : P e) (q : P (opposite e)) → both_ends P e p q e ≡ p
unfolding both_ends
both_ends_self P left p q = refl
both_ends_self P right p q = refl

pub both_ends-opposite {ℓ} :
    (P : End → Type ℓ) (e : End) (p : P e) (q : P (opposite e)) → both_ends P e p q (opposite e) ≡ q
unfolding both_ends
both_ends-opposite P left p q = refl
both_ends-opposite P right p q = refl

pub place_self {ℓ} : {A : Type ℓ} (e : End) (x : A) (f : End → A) → place e x f e ≡ x
place_self left x f = refl
place_self right x f = refl

pub place-opposite {ℓ} :
    {A : Type ℓ} (e : End) (x : A) (f : End → A) → place e x f (opposite e) ≡ f (opposite e)
place-opposite left x f = refl
place-opposite right x f = refl

at-after : {env : Env} (e : End) (s : State env) (l : Link env) → at e (after e s l) ≡ s
at-after left s l = refl
at-after right s l = refl

at-opposite-after :
    {env : Env} (e : End) (s : State env) (l : Link env)
    → at (opposite e) (after e s l) ≡ record (l.manager (opposite e)) { world = s.world }
at-opposite-after left s l = refl
at-opposite-after right s l = refl

All-append {ℓ κ} :
    {A : Type ℓ} (P : A → Type κ) (xs ys : List A) → All P xs → All P ys → All P (xs ++ ys)
All-append P [] ys h k = k
All-append P (x ∷ xs) ys (px, h) k = (px, All-append P xs ys h k)

module _ (config : ChannelConfig) (env : Env) (wires : Wires env.posix) where
  open config use {max_channels}

  -- Whole acceptable messages stand on the wire from an end.
  abbrev pub HasTraffic : End → env.World → List Message → Type 0
  HasTraffic e w ms =
      (on_wire config env wires e w ≡ frames ms) × All (IsAcceptable config env wires) ms

  -- Valid managers that write to the connection, and acceptable messages on both of its wires.
  pub record IsLinked (l : Link env) : Type 0 where
    pub ends : (e : End) → IsAt config env wires e (at e l)
    pub traffic : (e : End) → (ms : List Message) × HasTraffic e l.world ms

  abbrev pub IsIdle : env.World → Type 0
  IsIdle w = (e : End) → on_wire config env wires e w ≡ []

  pub connected-IsLinked : (w : env.World) → IsIdle w → IsLinked (connected config env wires w)
  unfolding new_manager
  connected-IsLinked w idle = record {
    ends = λ e. entered-IsAt config env wires e _ w (record {
      valid = new_manager-IsValid config env (wires.fd e) w;
      fd = write_fd-new_manager config env (wires.fd e) w;
      channel_fd = λ ref c h. absurd (ground arith);
    });
    traffic = λ e. ([], (idle e, tt));
  }

  Sends-HasTraffic :
      (e : End) (w w' : env.World) (ms sent : List Message)
      → Sends config env wires e sent w w'
      → HasTraffic e w ms
      → HasTraffic e w' (ms ++ sent)
  Sends-HasTraffic e w w' ms sent sends (wire, all) = (
    sends.sent ∙ ap (λ t. t ++ frames sent) wire ∙ sym (frames-append ms sent),
    All-append (IsAcceptable config env wires) ms sent all sends.acceptable,
  )

  -- A call at one end keeps both ends linked, and what it sends is the only traffic that is new.
  pub after-IsLinked :
      (e : End) (s : State env) (l : Link env) (linked : IsLinked l) (sent : List Message)
      → IsAt config env wires e s
      → Sends config env wires e sent l.world s.world
      → (linked' : IsLinked (after e s l)) × ((linked'.traffic e).0 ≡ (linked.traffic e).0 ++ sent)
        × ((linked'.traffic (opposite e)).0 ≡ (linked.traffic (opposite e)).0)
  after-IsLinked e s l linked sent is_at sends = (
    record {
      ends =
          both_ends (λ e'. IsAt config env wires e' (at e' (after e s l))) e
            (subst (IsAt config env wires e) (sym (at-after e s l)) is_at)
            (subst (IsAt config env wires (opposite e)) (sym (at-opposite-after e s l)) (
              entered-IsAt config env wires (opposite e) (at (opposite e) l) s.world
                (linked.ends (opposite e))));
      traffic = both_ends Traffic e here there;
    },
    ap (λ x. x.0) (both_ends_self Traffic e here there),
    ap (λ x. x.0) (both_ends-opposite Traffic e here there),
  )
    where
      Traffic : End → Type 0
      Traffic e' = (ms : List Message) × HasTraffic e' s.world ms

      here : Traffic e
      here = (
        (linked.traffic e).0 ++ sent,
        Sends-HasTraffic e l.world s.world (linked.traffic e).0 sent sends (linked.traffic e).1,
      )

      there : Traffic (opposite e)
      there = let (ms, has) = linked.traffic (opposite e) in (ms, (sends.other ∙ has.0, has.1))

  -- The first message on the wire from an end, taken off it.
  pub record Head (e : End) (l : Link env) (linked : IsLinked l) : Type 0 where
    pub message : Message
    pub world : env.World
    pub acceptable : IsAcceptable config env wires message
    pub read :
        read_message env.posix (wires.fd (opposite e)) l.world ≡ (ok_status, some message, world)
    pub remains : IsLinked (record l { world = world })
    pub taken : (linked.traffic e).0 ≡ message ∷ (remains.traffic e).0
    pub kept : (linked.traffic (opposite e)).0 ≡ (remains.traffic (opposite e)).0

  pub busy-Head :
      (e : End) (l : Link env) (linked : IsLinked l)
      → on_wire config env wires e l.world ≢ []
      → Head e l linked
  busy-Head e l linked busy = first (linked.traffic e).0 (linked.traffic e).1 refl
    where
      first :
          (ms : List Message)
          → HasTraffic e l.world ms
          → (linked.traffic e).0 ≡ ms
          → Head e l linked
      first [] (wire, all) same = absurd (busy wire)
      first (m ∷ ms) (wire, (ok, all)) same =
          let (w, read, rest, other) = read_message-first config env wires e m ms l.world ok wire in
          let (ms', has) = linked.traffic (opposite e) in
          let p : (xs : List Message) × HasTraffic e w xs = (ms, (rest, all)) in
          let q : (xs : List Message) × HasTraffic (opposite e) w xs =
            (ms', (other ∙ has.0, has.1)) in
          record {
            message = m;
            world = w;
            acceptable = ok;
            read = read;
            remains = record {
              ends = λ e'. entered-IsAt config env wires e' (at e' l) w (linked.ends e');
              traffic = both_ends (λ e'. (xs : List Message) × HasTraffic e' w xs) e p q;
            };
            taken =
                same
                ∙ sym (
                    ap (λ x. m ∷ x.0)
                      (both_ends_self (λ e'. (xs : List Message) × HasTraffic e' w xs) e p q));
            kept = sym (
                ap (λ x. x.0)
                  (both_ends-opposite (λ e'. (xs : List Message) × HasTraffic e' w xs) e p q));
          }

  module _ (d : IsConfig config) (small : max_channels ≤ 2 ^ 32) where
    -- The message at the head of a wire is handled at the other end.
    pub forward-Head :
        (e : End) (l : Link env) (linked : IsLinked l) (h : Head e l linked)
        → let s = at (opposite e) (record l { world = h.world }) in
          Handled config env s (forward_message config env h.message s)
    forward-Head e l linked h =
        forward_message-Handled config env h.message
          (at (opposite e) (record l { world = h.world })) (h.remains.ends (opposite e)).valid
          h.acceptable.framed h.acceptable.ending h.acceptable.wrapping

    -- A receipt has an effect on the manager that receives, in the world after the read.
    pub Receipt-Effect :
        (e : End) (l l' : Link env) (linked : IsLinked l)
        → Receipt config env wires e l l'
        → (h : Head e l linked) × (s : State env) × Effect config env
            (at (opposite e) (record l { world = h.world }))
            s
          × ((status : Status) × (protocol : ℕ) × (channel : Option ℕ) × (forward_message config env
                  h.message
                  (at (opposite e) (record l { world = h.world }))
                ≡ done (status, protocol, channel, s)))
          × (l' ≡ after (opposite e) s l)
    Receipt-Effect e l l' linked (forwards m w status protocol channel s busy read run q) =
        let h : Head e l linked = busy-Head e l linked busy in
        let (status', protocol', channel', s', run', effect, v) = forward-Head e l linked h in
        let got : Path (Status × Option Message × env.World) (ok_status, some m, w)
            (ok_status, some h.message, h.world) =
          sym read ∙ h.read in
        let same_m : h.message ≡ m = cc in
        let same_w : h.world ≡ w = cc in
        let ran : Path (Outcome (Forwarded config env)) (done (status', protocol', channel', s'))
            (done (status, protocol, channel, s)) =
          sym run'
          ∙ (λ i.
              forward_message config env (same_m i)
                (record (l.manager (opposite e)) { world = same_w i }))
          ∙ run in
        let same : s' ≡ s = cc in
        (
          h,
          s',
          effect,
          (status', protocol', channel', run'),
          q ∙ ap (λ t. after (opposite e) t l) (sym same),
        )

    Receipt-IsLinked :
        (e : End) (l l' : Link env) → IsLinked l → Receipt config env wires e l l' → IsLinked l'
    Receipt-IsLinked e l l' linked received =
        let (h, s, effect, run, q) = Receipt-Effect e l l' linked received in
        let (is_at, sent, sends, owns) =
          Effect-Continues config env wires d small (opposite e) _ s (h.remains.ends (opposite e))
            effect in
        subst IsLinked (sym q)
          (after-IsLinked (opposite e) s (record l { world = h.world }) h.remains sent is_at
            sends).0

    Step-IsLinked : (l l' : Link env) → IsLinked l → Step config env wires l l' → IsLinked l'
    Step-IsLinked l l' linked (calls e s call q) = subst IsLinked (sym q) (
        let (is_at, sent, sends, owns) =
          Call-Continues config env d small wires e (at e l) s (linked.ends e) call in
        (after-IsLinked e s l linked sent is_at sends).0)
    Step-IsLinked l l' linked (receipt e received) = Receipt-IsLinked e l l' linked received

    -- Under a configuration whose protocols are words and told apart, with at most 2^32 channels,
    -- two new managers stand at the ends of an idle connection, their users make calls, and
    -- messages are taken from the connection and forwarded, in any order. In every state that is
    -- reached both managers are valid and write to the connection, and on each wire stand whole
    -- messages that the manager at the other end can handle.
    pub Reach-IsLinked :
        (w : env.World) (l : Link env) → IsIdle w → Reach config env wires w l → IsLinked l
    Reach-IsLinked w l idle start = connected-IsLinked w idle
    Reach-IsLinked w l idle (later reach step) =
        Step-IsLinked _ l (Reach-IsLinked w _ idle reach) step

    -- Under a configuration whose protocols are words and told apart, with at most 2^32 channels,
    -- two new managers stand at the ends of an idle connection, their users make calls, and
    -- messages are taken from the connection and forwarded, in any order. In every state that is
    -- reached with something on the wire from an end, the next message can be received: the read
    -- at the other end gives it whole, and forwarding it there returns.
    pub Reach-receives :
        (w : env.World) (l : Link env) (e : End)
        → IsIdle w
        → Reach config env wires w l
        → on_wire config env wires e l.world ≢ []
        → (l' : Link env) × Receipt config env wires e l l'
    Reach-receives w l e idle reach busy =
        let linked = Reach-IsLinked w l idle reach in
        let h : Head e l linked = busy-Head e l linked busy in
        let (status, protocol, channel, s, run, effect, v) = forward-Head e l linked h in
        (
          after (opposite e) s l,
          forwards h.message h.world status protocol channel s busy h.read run refl,
        )
