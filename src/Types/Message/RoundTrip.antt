-- ===== src/Types/Message/RoundTrip.antt =====
-- Unwrapping against wrapping, in both directions, and when unwrapping succeeds.
use servercc.Common.{
  ℕ, ◌+◌, ◌-◌, ◌^◌, ◌≤◌, ◌<◌, ◌≡◌, refl, sym, ap, ap₂, ◌∙◌, ◌⊎◌, inl, inr, true, false, List, ◌++◌,
  none, some, done, arith, length, take, drop, All, ltb, ◌==◌, Bool-cases, le→ltb, length-append,
  length-take, length-drop, take-append, drop-append, take_all, append_assoc, ==_iff,
}
use servercc.Types.Status.{ok_status, error, invalid_argument}
use servercc.Types.Memory.{Copyable, IsByte, resize}
use servercc.Types.Memory.Bounds.{
  length-resize, resize_self, copy_from-done, take-take-drop, All-take, All-drop,
}
use servercc.Types.Header.{
  MessageHeader, IsHeader, header_bytes, header_of_bytes, header_of_bytes-header_bytes,
  header_bytes-header_of_bytes, length-header_bytes, message_header_length,
}
use servercc.Types.Message.{Message, wrap_message, unwrap_inner, unwrap_message}
use servercc.Types.Message.Wrapped.{wrapped, wrap_message-wrapped}

-- The header counts the body.
abbrev pub IsFramed : Message → Type 0
IsFramed m = length m.body ≡ m.header.length

take-drop-append :
    (o n : ℕ) (xs ys zs : List ℕ)
    → o ≡ length xs
    → n ≡ length ys
    → take n (drop o (xs ++ (ys ++ zs))) ≡ ys
take-drop-append o n xs ys zs ho hn = rw (drop-append o xs (ys ++ zs) ho) (take-append n ys zs hn)

module _ {T : Type 0} (copyable : Copyable T) where
  open copyable use {size, is_value, bytes, of_bytes, length-bytes, of_bytes-bytes, bytes-of_bytes}

  abbrev inner_header : Message → MessageHeader
  inner_header w =
      header_of_bytes
        (take message_header_length (drop (w.header.length - size - message_header_length) w.body))

  abbrev inner_value : Message → T
  inner_value w = of_bytes (take size (drop (w.header.length - size) w.body))

  unwrap_message-inner :
      (w : Message)
      → size + message_header_length ≤ w.header.length
      → w.header.length ≤ length w.body
      → unwrap_message copyable w
        ≡ done (
            unwrap_inner copyable
              (inner_value w)
              (w.header.length - size - message_header_length)
              (inner_header w)
              w.body)
  unfolding unwrap_message
  unwrap_message-inner w lo hi = rw (
    le→ltb w.header.length (size + message_header_length) lo,
    copy_from-done w.body (w.header.length - size) size (omega arith),
    copy_from-done w.body (w.header.length - size - message_header_length) message_header_length
        (omega arith),
  )

  unwrap_inner-ok :
      (v v' : T) (o : ℕ) (h h' : MessageHeader) (bs bs' : List ℕ)
      → v ≡ v'
      → h ≡ h'
      → take o bs ≡ bs'
      → h.length ≡ o
      → unwrap_inner copyable v o h bs ≡ (ok_status, some (v', record { header = h'; body = bs' }))
  unfolding unwrap_inner
  unwrap_inner-ok v v' o h h' bs bs' ev eh eb e =
      rw ((==_iff h.length o).1 e)
        (λ i. (ok_status, some (ev i, record { header = eh i; body = eb i })))

  -- Wrapping a message of a valid header with a value, where the new length fits in 32 bits,
  -- gives a message that counts its body, under the given protocol; unwrapping it gives back the
  -- value and the message, its body cut or padded with zeros to the length that its header
  -- states.
  pub unwrap-wrap :
      (protocol : ℕ) (v : T) (m : Message)
      → IsHeader m.header
      → is_value v ≡ true
      → m.header.length + message_header_length + size < 2 ^ 32
      → (w : Message) × (wrap_message copyable protocol v m ≡ done w)
        × (w.header.protocol ≡ protocol)
        × (w.header.length ≡ m.header.length + message_header_length + size)
        × IsFramed w
        × (unwrap_message copyable w
            ≡ done (ok_status, some (v, record m { body = resize m.header.length m.body })))
  unwrap-wrap protocol v m hm hv h = (
    w,
    wrap_message-wrapped copyable protocol v m h,
    refl,
    refl,
    framed,
    unwrap_message-inner w (omega arith) (omega (arith, framed))
        ∙ ap done (
            unwrap_inner-ok (inner_value w) v _ (inner_header w) m.header w.body _ read_value
              read_header
              (take-append _ (resize len m.body) (header_bytes m.header ++ bytes v)
                (omega (arith, length-resize len m.body)))
              (ap (λ (k : MessageHeader). k.length) read_header ∙ omega arith)),
  )
    where
      len : ℕ
      len = m.header.length

      w : Message
      w = wrapped copyable protocol v m

      framed : IsFramed w
      framed = omega (
        arith,
        length-append (resize len m.body) (header_bytes m.header ++ bytes v),
        length-append (header_bytes m.header) (bytes v),
        length-resize len m.body,
        length-bytes v,
        length-header_bytes m.header,
      )

      read_value : inner_value w ≡ v
      read_value =
          ap of_bytes (
            rw (← append_assoc (resize len m.body) (header_bytes m.header) (bytes v)) (
              ap (take size) (
                drop-append _ (resize len m.body ++ header_bytes m.header) (bytes v) (
                  omega (
                    arith,
                    length-append (resize len m.body) (header_bytes m.header),
                    length-resize len m.body,
                    length-header_bytes m.header,
                  )))
              ∙ take_all size (bytes v) (omega (arith, length-bytes v))))
          ∙ of_bytes-bytes v hv

      read_header : inner_header w ≡ m.header
      read_header =
          ap header_of_bytes (
            take-drop-append _ message_header_length (resize len m.body) (header_bytes m.header)
              (bytes v) (omega (arith, length-resize len m.body))
              (sym (length-header_bytes m.header)))
          ∙ header_of_bytes-header_bytes m.header hm

  pieces :
      (w : Message)
      → IsFramed w
      → size + message_header_length ≤ w.header.length
      → let offset = w.header.length - size - message_header_length in
        take offset w.body
          ++ (take message_header_length (drop offset w.body)
              ++ take size (drop (w.header.length - size) w.body))
        ≡ w.body
  pieces w framed long =
      sym (append_assoc (take offset w.body) _ _)
      ∙ ap (λ t. t ++ take size (drop (w.header.length - size) w.body))
          (take-take-drop offset message_header_length (w.header.length - size) w.body
            (omega arith))
      ∙ take-take-drop (w.header.length - size) size w.header.length w.body (omega arith)
      ∙ take_all w.header.length w.body (omega arith)
    where
      offset : ℕ
      offset = w.header.length - size - message_header_length

  rewrap :
      (w : Message)
      → IsFramed w
      → w.header.length < 2 ^ 32
      → All IsByte w.body
      → size + message_header_length ≤ w.header.length
      → let offset = w.header.length - size - message_header_length in
        (inner_header w).length ≡ offset
        → wrap_message copyable w.header.protocol
            (inner_value w)
            (record { header = inner_header w; body = take offset w.body })
          ≡ done w
  rewrap w framed small all long e =
      wrap_message-wrapped copyable w.header.protocol (inner_value w) _ (omega arith)
      ∙ ap done (λ i. record {
        header = record { length = counted i; protocol = w.header.protocol };
        body = rebuilt i;
      })
    where
      offset : ℕ
      offset = w.header.length - size - message_header_length

      counted : (inner_header w).length + message_header_length + size ≡ w.header.length
      counted = omega arith

      cut : resize (inner_header w).length (take offset w.body) ≡ take offset w.body
      cut =
          resize_self (inner_header w).length (take offset w.body)
            (omega (arith, length-take offset w.body))

      header_back : header_bytes (inner_header w) ≡ take message_header_length (drop offset w.body)
      header_back =
          header_bytes-header_of_bytes (take message_header_length (drop offset w.body))
            (omega (
              arith,
              length-take message_header_length (drop offset w.body),
              length-drop offset w.body,
            ))
            (All-take IsByte message_header_length (drop offset w.body)
              (All-drop IsByte offset w.body all))

      value_back : bytes (inner_value w) ≡ take size (drop (w.header.length - size) w.body)
      value_back =
          bytes-of_bytes (take size (drop (w.header.length - size) w.body))
            (omega (
              arith,
              length-take size (drop (w.header.length - size) w.body),
              length-drop (w.header.length - size) w.body,
            ))
            (All-take IsByte size (drop (w.header.length - size) w.body)
              (All-drop IsByte (w.header.length - size) w.body all))

      rebuilt :
          resize (inner_header w).length (take offset w.body)
            ++ (header_bytes (inner_header w) ++ bytes (inner_value w))
          ≡ w.body
      rebuilt = ap₂ ◌++◌ cut (ap₂ ◌++◌ header_back value_back) ∙ pieces w framed long

  -- An unwrap of a message of bytes that counts its own body, of a length in 32 bits, either is
  -- refused, or gives a value and a message that counts its body, and wrapping these under the
  -- same protocol makes the message again.
  pub wrap-unwrap :
      (w : Message)
      → IsFramed w
      → w.header.length < 2 ^ 32
      → All IsByte w.body
      → (unwrap_message copyable w ≡ done (error invalid_argument "Invalid message length", none))
        ⊎ ((v : T) × (m : Message) × (unwrap_message copyable w ≡ done (ok_status, some (v, m)))
            × IsFramed m
            × (wrap_message copyable w.header.protocol v m ≡ done w))
  unfolding unwrap_message unwrap_inner
  wrap-unwrap w framed small all =
      elim (Bool-cases (ltb w.header.length (size + message_header_length))) [
        | inl short ↦ inl (rw short)
        | inr long ↦ elim (Bool-cases ((inner_header w).length == offset)) [
          | inl e ↦ inr (
            inner_value w,
            m,
            unwrap_message-inner w (fits long) (omega arith)
                ∙ ap done (
                    unwrap_inner-ok (inner_value w) _ offset (inner_header w) _ w.body _ refl refl
                      refl ((==_iff _ _).0 e)),
            omega (arith, (==_iff _ _).0 e, length-take offset w.body),
            rewrap w framed small all (fits long) ((==_iff _ _).0 e),
          )
          | inr e ↦ inl (unwrap_message-inner w (fits long) (omega arith) ∙ rw e)
        ]
      ]
    where
      offset : ℕ
      offset = w.header.length - size - message_header_length

      m : Message
      m = record { header = inner_header w; body = take offset w.body }

      fits :
          ltb w.header.length (size + message_header_length) ≡ false
          → size + message_header_length ≤ w.header.length
      fits long = ground arith

  -- An unwrap of a framed message reads inside its body: it is refused, or gives a value and a
  -- message.
  pub unwrap_message-total :
      (w : Message)
      → IsFramed w
      → (unwrap_message copyable w ≡ done (error invalid_argument "Invalid message length", none))
        ⊎ ((v : T) × (m : Message) × (unwrap_message copyable w ≡ done (ok_status, some (v, m))))
  unfolding unwrap_message unwrap_inner
  unwrap_message-total w framed =
      elim (Bool-cases (ltb w.header.length (size + message_header_length))) [
        | inl short ↦ inl (rw short)
        | inr long ↦
            let inside = unwrap_message-inner w (ground arith) (omega arith) in
            elim (Bool-cases ((inner_header w).length == offset)) [
              | inl e ↦ inr (
                inner_value w,
                record { header = inner_header w; body = take offset w.body },
                inside ∙ rw e,
              )
              | inr e ↦ inl (inside ∙ rw e)
            ]
      ]
    where
      offset : ℕ
      offset = w.header.length - size - message_header_length
