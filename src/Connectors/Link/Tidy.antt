-- ===== src/Connectors/Link/Tidy.antt =====
-- Response channels never outlive the request channels at the other end, but for an end message that
-- is on its way.
use servercc.Common.{
  ℕ, ◌^◌, ◌≤◌, ◌≡◌, ◌⊎◌, inl, inr, refl, sym, ap, subst, ◌∙◌, List, [], ◌∷◌, ◌++◌, some, arith,
}
use servercc.Types.Message.{Message}
use servercc.Types.Stream.Sequence.{frames}
use servercc.Connectors.Env.{Env, ChannelConfig}
use servercc.Connectors.Channel.{Side, requests, responses, shut}
use servercc.Connectors.Manager.{State, new_manager, allocate, shut_at, release_id}
use servercc.Connectors.Manager.Retire.{retired}
use servercc.Connectors.Manager.Effect.{Change, unchanged, buffered, ended}
use servercc.Connectors.Manager.Answering.{Answers, forward_message-Answers}
use servercc.Connectors.Manager.Invariant.{IsValid}
use servercc.Connectors.Manager.Delivery.{IsConfig}
use servercc.Connectors.Link.{
  End, left, right, opposite, place, Wires, Link, at, after, Call, creates, sends, receives,
  receives_for, terminates, Receipt, Step, calls, receipt, Reach, start, later,
}
use servercc.Connectors.Link.Claims.{
  IsOpen, Ends, Owns, IsTidy, requester-IsTidy, responder-IsTidy, received-IsTidy,
}
use servercc.Connectors.Link.Traffic.{on_wire, frames-not_nil}
use servercc.Connectors.Link.Endpoint.{Effect-Continues}
use servercc.Connectors.Link.Calls.{Call-Continues, send_message-sent}
use servercc.Connectors.Link.Changes.{
  create-opened, receive_message-Change, receive_message_for-Change, terminate-Change,
}
use servercc.Connectors.Link.Safety.{
  both_ends, place_self, place-opposite, IsLinked, IsIdle, Receipt-Effect, after-IsLinked,
  connected-IsLinked,
}

place-opposite_twice {ℓ} :
    {A : Type ℓ} (e : End) (x : A) (f : End → A) → place e x f (opposite (opposite e)) ≡ x
place-opposite_twice left x f = refl
place-opposite_twice right x f = refl

pub opposite_twice : (e : End) → opposite (opposite e) ≡ e
opposite_twice left = refl
opposite_twice right = refl

module _ (config : ChannelConfig) (env : Env) (wires : Wires env.posix) where
  open config use {max_channels}

  -- No response channel is new.
  abbrev Shrinks : State env → State env → Type 0
  Shrinks s s' =
      (id ref : ℕ)
      → s'.response_channel id ≡ some ref
      → (ref' : ℕ) × (s.response_channel id ≡ some ref')

  Change-Shrinks : (s s' : State env) → Change config env s s' → Shrinks s s'
  unfolding retired shut_at shut release_id
  Change-Shrinks s s' (unchanged q) id ref e = (ref, ground (arith, q, e))
  Change-Shrinks s s' (buffered r c b h q) id ref e =
      (ref, ap (λ (t : State env). t.response_channel id) (sym q) ∙ e)
  Change-Shrinks s s' (ended r c h is_open q) id ref e = (ref, shrinks c.side refl)
    where
      e' : (retired config env r c s).response_channel id ≡ some ref
      e' = ap (λ (t : State env). t.response_channel id) (sym q) ∙ e

      shrinks : (side : Side) → c.side ≡ side → s.response_channel id ≡ some ref
      shrinks requests same = ground (arith, e')
      shrinks responses same = ground (arith, e')

  IsTidy-same :
      {q q' p p' : State env} {ms ms' : List Message}
      → q ≡ q'
      → p ≡ p'
      → ms ≡ ms'
      → IsTidy config q p ms
      → IsTidy config q' p' ms'
  IsTidy-same eq ep em =
      subst (λ (x : State env × State env × List Message). IsTidy config x.0 x.1 x.2)
        (λ i. (eq i, ep i, em i))

  -- Both directions of a connection are tidy.
  abbrev AllTidy : (l : Link env) → IsLinked config env wires l → Type 0
  AllTidy l linked =
      (e : End) → IsTidy config (l.manager e) (l.manager (opposite e)) (linked.traffic e).0

  module _ (d : IsConfig config) (small : max_channels ≤ 2 ^ 32) where
    Call-Shrinks : (s s' : State env) → IsValid config env s → Call config env s s' → Shrinks s s'
    unfolding allocate
    Call-Shrinks s s' v (creates st channel run) id ref e =
        let (i, permits, free, es, ef, q) = create-opened config env st channel s s' v run in
        (ref, ap (λ (t : State env). t.response_channel id) (sym q) ∙ e)
    Call-Shrinks s s' v (sends r m st ok run) id ref e =
        elim (send_message-sent config env d small wires r m st s s' v ok run) [
          | inl q ↦ (ref, ap (λ (t : State env). t.response_channel id) (sym q) ∙ e)
          | inr (c, sent, h, is_open, q, acceptable, protocol, unwrapped) ↦
              (ref, ap (λ (t : State env). t.response_channel id) (sym q) ∙ e)
        ]
    Call-Shrinks s s' v (receives r st m run) id ref e =
        Change-Shrinks s s' (receive_message-Change config env r st m s s' run) id ref e
    Call-Shrinks s s' v (receives_for expired r st m run) id ref e =
        Change-Shrinks s s' (receive_message_for-Change config env expired r st m s s' run) id ref e
    Call-Shrinks s s' v (terminates r run) id ref e =
        Change-Shrinks s s' (terminate-Change config env r s s' v run) id ref e

    -- A call at one end keeps both directions tidy: its own, for which it owns what it sends, and the
    -- other, of which it only takes response channels away.
    after-AllTidy :
        (e : End) (s : State env) (l : Link env) (linked : IsLinked config env wires l)
        (linked' : IsLinked config env wires (after e s l)) (sent : List Message)
        → (linked'.traffic e).0 ≡ (linked.traffic e).0 ++ sent
        → (linked'.traffic (opposite e)).0 ≡ (linked.traffic (opposite e)).0
        → IsTidy config (l.manager e) (l.manager (opposite e)) (linked.traffic e).0
        → IsTidy config (l.manager (opposite e)) s (linked.traffic (opposite e)).0
        → Owns config (l.manager e) s sent
        → AllTidy (after e s l) linked'
    after-AllTidy e s l linked linked' sent here there own other owns =
        both_ends
          (λ e'.
            IsTidy config ((after e s l).manager e') ((after e s l).manager (opposite e'))
              (linked'.traffic e').0)
          e
          (IsTidy-same (sym (place_self e s l.manager)) (sym (place-opposite e s l.manager))
            (sym here)
            (requester-IsTidy config (l.manager e) s (l.manager (opposite e)) (linked.traffic e).0
              sent own owns))
          (IsTidy-same (sym (place-opposite e s l.manager))
            (sym (place-opposite_twice e s l.manager)) (sym there) other)

    Call-AllTidy :
        (e : End) (s : State env) (l : Link env) (linked : IsLinked config env wires l)
        → AllTidy l linked
        → Call config env (at e l) s
        → (linked' : IsLinked config env wires (after e s l)) × AllTidy (after e s l) linked'
    Call-AllTidy e s l linked tidy call =
        let (is_at, sent, traffic, owns) =
          Call-Continues config env d small wires e (at e l) s (linked.ends e) call in
        let (linked', here, there) =
          after-IsLinked config env wires e s l linked sent is_at traffic in
        (
          linked',
          after-AllTidy e s l linked linked' sent here there (tidy e)
              (responder-IsTidy config (l.manager (opposite e)) (l.manager (opposite (opposite e)))
                s (linked.traffic (opposite e)).0 (tidy (opposite e))
                (subst (λ x. Shrinks (l.manager x) s) (sym (opposite_twice e))
                  (Call-Shrinks (at e l) s (linked.ends e).valid call)))
              owns,
        )

    Receipt-AllTidy :
        (e : End) (l l' : Link env) (linked : IsLinked config env wires l)
        → AllTidy l linked
        → Receipt config env wires e l l'
        → (linked' : IsLinked config env wires l') × AllTidy l' linked'
    Receipt-AllTidy e l l' linked tidy received =
        let (h, s, effect, (st, p, channel, run), q) =
          Receipt-Effect config env wires d small e l l' linked received in
        let mid : Link env = record l { world = h.world } in
        let (is_at, sent, traffic, owns) =
          Effect-Continues config env wires d small (opposite e) (at (opposite e) mid) s
            (h.remains.ends (opposite e)) effect in
        let (linked', here, there) =
          after-IsLinked config env wires (opposite e) s mid h.remains sent is_at traffic in
        let (st', p', channel', s', run', answers) =
          forward_message-Answers config env d h.message (at (opposite e) mid)
            (h.remains.ends (opposite e)).valid h.acceptable.framed h.acceptable.ending
            h.acceptable.wrapping in
        let same : s' ≡ s = cc in
        subst (λ t. (linked' : IsLinked config env wires t) × AllTidy t linked') (sym q)
          (
            linked',
            after-AllTidy (opposite e) s mid h.remains linked' sent here there
                (subst (IsTidy config (l.manager (opposite e)) (l.manager (opposite (opposite e))))
                  h.kept (tidy (opposite e)))
                (subst (λ x. IsTidy config (l.manager x) s (h.remains.traffic x).0)
                  (sym (opposite_twice e))
                  (received-IsTidy config (l.manager e) (l.manager (opposite e)) s h.message
                    (h.remains.traffic e).0
                    (subst (IsTidy config (l.manager e) (l.manager (opposite e))) h.taken (tidy e))
                    (subst (Answers config h.message (at (opposite e) mid)) same answers)))
                owns,
          )

    Step-AllTidy :
        (l l' : Link env) (linked : IsLinked config env wires l)
        → AllTidy l linked
        → Step config env wires l l'
        → (linked' : IsLinked config env wires l') × AllTidy l' linked'
    Step-AllTidy l l' linked tidy (calls e s call q) =
        subst (λ t. (linked' : IsLinked config env wires t) × AllTidy t linked') (sym q)
          (Call-AllTidy e s l linked tidy call)
    Step-AllTidy l l' linked tidy (receipt e received) = Receipt-AllTidy e l l' linked tidy received

    Reach-AllTidy :
        (w : env.World) (l : Link env)
        → IsIdle config env wires w
        → Reach config env wires w l
        → (linked : IsLinked config env wires l) × AllTidy l linked
    unfolding new_manager
    Reach-AllTidy w l idle start = (
      record {
        ends = (connected-IsLinked config env wires w idle).ends;
        traffic = λ e. ([], (idle e, tt));
      },
      λ e. (tt, λ id ref h. absurd (ground arith)),
    )
    Reach-AllTidy w l idle (later reach step) =
        let (linked, tidy) = Reach-AllTidy w _ idle reach in Step-AllTidy _ l linked tidy step

    -- Under a configuration whose protocols are words and told apart, with at most 2^32 channels,
    -- two new managers stand at the ends of an idle connection, their users make calls, and
    -- messages are taken from the connection and forwarded, in any order. In every state that is
    -- reached where nothing is on the wire from an end, each response channel at the other end
    -- has an open request channel of its identifier at this end: no response channel is left
    -- behind.
    pub Reach-claimed :
        (w : env.World) (l : Link env) (e : End) (id ref : ℕ)
        → IsIdle config env wires w
        → Reach config env wires w l
        → on_wire config env wires e l.world ≡ []
        → (l.manager (opposite e)).response_channel id ≡ some ref
        → IsOpen (l.manager e) id
    Reach-claimed w l e id ref idle reach quiet response =
        let (linked, tidy) = Reach-AllTidy w l idle reach in
        claimed (linked.traffic e).0 (linked.traffic e).1.0 ((tidy e).1 id ref response)
      where
        claimed :
            (ms : List Message)
            → on_wire config env wires e l.world ≡ frames ms
            → IsOpen (l.manager e) id ⊎ Ends config id ms
            → IsOpen (l.manager e) id
        claimed ms wire (inl is_open) = is_open
        claimed [] wire (inr ends) = absurd ends
        claimed (m ∷ ms) wire (inr ends) = absurd (frames-not_nil m ms (sym wire ∙ quiet))
