-- ===== src/Connectors/Link/Quiet.antt =====
-- The two ends of a connection come to rest: what is on the wires runs out, though the messages that
-- are taken from them cause others.
use servercc.Common.{
  ℕ, zero, suc, ◌+◌, ◌*◌, ◌^◌, ◌≤◌, ◌≡◌, ◌≢◌, ◌⊎◌, inl, inr, refl, ap, List, [], ◌∷◌, arith, length,
  length-append,
}
use servercc.Connectors.Env.{Env, ChannelConfig}
use servercc.Connectors.Manager.Count.{open_channels}
use servercc.Connectors.Manager.Delivery.{IsConfig}
use servercc.Connectors.Link.{
  End, left, right, opposite, Wires, Link, at, after, Receipt, forwards, Reach,
}
use servercc.Connectors.Link.Traffic.{on_wire}
use servercc.Connectors.Link.Endpoint.{Effect-Lightens}
use servercc.Connectors.Link.Safety.{
  both_ends, place_self, place-opposite, IsLinked, IsIdle, Head, busy-Head, forward-Head,
  after-IsLinked, Reach-IsLinked,
}

-- A number at each end, added up.
abbrev total : (End → ℕ) → ℕ
total f = f left + f right

total-at : (f : End → ℕ) (e : End) → total f ≡ f e + f (opposite e)
total-at f left = refl
total-at f right = omega arith

nil-or-not : (bs : List ℕ) → (bs ≡ []) ⊎ (bs ≢ [])
nil-or-not [] = inl refl
nil-or-not (b ∷ bs) = inr (λ e. cc)

module _ (config : ChannelConfig) (env : Env) (wires : Wires env.posix) where
  open config use {max_channels}

  -- Messages that are taken from the wires and forwarded, one after the other.
  pub data Receipts (l' : Link env) : Link env → Type 0 where
    rest : Receipts l' l'
    receive :
        (e : End) {l m : Link env} → Receipt config env wires e l m → Receipts l' m → Receipts l' l

  -- From a state both wires run empty, by receipts alone.
  abbrev pub Settles : Link env → Type 0
  Settles l =
      (l' : Link env) × Receipts l' l
      × IsIdle config env wires l'.world
      × IsLinked config env wires l'

  -- Two for each message on the way, and one for each channel.
  abbrev weight_at : (l : Link env) → IsLinked config env wires l → End → ℕ
  weight_at l linked e = 2 * length (linked.traffic e).0 + open_channels config env (l.manager e)

  abbrev weight : (l : Link env) → IsLinked config env wires l → ℕ
  weight l linked = total (weight_at l linked)

  weight-Head :
      (e : End) (l : Link env) (linked : IsLinked config env wires l)
      (h : Head config env wires e l linked)
      → weight l linked ≡ weight (record l { world = h.world }) h.remains + 2
  weight-Head e l linked h = omega (
    arith,
    ap length h.taken,
    ap length h.kept,
    total-at (weight_at l linked) e,
    total-at (weight_at (record l { world = h.world }) h.remains) e,
  )

  module _ (d : IsConfig config) (small : max_channels ≤ 2 ^ 32) where
    -- A receipt makes the weight less.
    Receipt-lightens :
        (e : End) (l : Link env) (linked : IsLinked config env wires l)
        → on_wire config env wires e l.world ≢ []
        → (l' : Link env) × (linked' : IsLinked config env wires l') × Receipt config env wires e l
            l'
          × (suc (weight l' linked') ≤ weight l linked)
    Receipt-lightens e l linked busy =
        let h : Head config env wires e l linked = busy-Head config env wires e l linked busy in
        let mid : Link env = record l { world = h.world } in
        let (status, protocol, channel, s, run, effect, v) =
          forward-Head config env wires d small e l linked h in
        let (is_at, sent, sends, owns, lighter) =
          Effect-Lightens config env wires d small (opposite e) (at (opposite e) mid) s
            (h.remains.ends (opposite e)) effect in
        let (linked', here, there) =
          after-IsLinked config env wires (opposite e) s mid h.remains sent is_at sends in
        (
          after (opposite e) s l,
          linked',
          forwards h.message h.world status protocol channel s busy h.read run refl,
          omega (
            arith,
            weight-Head e l linked h,
            ap length here,
            length-append (h.remains.traffic (opposite e)).0 sent,
            ap length there,
            lighter,
            total-at (weight_at mid h.remains) (opposite e),
            total-at (weight_at (after (opposite e) s l) linked') (opposite e),
            ap (open_channels config env) (place_self (opposite e) s l.manager),
            ap (open_channels config env) (place-opposite (opposite e) s l.manager),
          ),
        )

    receive-Settles :
        (e : End) (l : Link env) (linked : IsLinked config env wires l)
        → on_wire config env wires e l.world ≢ []
        → ((l' : Link env) (linked' : IsLinked config env wires l')
            → suc (weight l' linked') ≤ weight l linked
            → Settles l')
        → Settles l
    receive-Settles e l linked busy go_on =
        let (m, linked_m, receipt, lighter) = Receipt-lightens e l linked busy in
        let (l', receipts, idle, linked') = go_on m linked_m lighter in
        (l', receive e receipt receipts, idle, linked')

    settle :
        (n : ℕ) (l : Link env) (linked : IsLinked config env wires l)
        → suc (weight l linked) ≤ n
        → Settles l
    settle zero l linked h = absurd (omega arith)
    settle (suc n) l linked h =
        let go_on =
          λ (l' : Link env) (linked' : IsLinked config env wires l')
              (lt : suc (weight l' linked') ≤ weight l linked).
            settle n l' linked' (omega arith) in
        elim (nil-or-not (on_wire config env wires left l.world)) [
          | inr busy ↦ receive-Settles left l linked busy go_on
          | inl no_left ↦ elim (nil-or-not (on_wire config env wires right l.world)) [
            | inr busy ↦ receive-Settles right l linked busy go_on
            | inl no_right ↦ (
              l,
              rest,
              both_ends (λ e. on_wire config env wires e l.world ≡ []) left no_left no_right,
              linked,
            )
          ]
        ]

    -- Under a configuration whose protocols are words and told apart, with at most 2^32 channels,
    -- two new managers stand at the ends of an idle connection, their users make calls, and
    -- messages are taken from the connection and forwarded, in any order. From every state that
    -- is reached, receiving messages and making no other call leads to a state with both wires
    -- empty, though a message that is received may cause another.
    pub Reach-Settles :
        (w : env.World) (l : Link env)
        → IsIdle config env wires w
        → Reach config env wires w l
        → Settles l
    Reach-Settles w l idle reach =
        let linked = Reach-IsLinked config env wires d small w l idle reach in
        settle (suc (weight l linked)) l linked (omega arith)
