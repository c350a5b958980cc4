-- ===== src/Types/Message/Wrapped.antt =====
-- The layout of a wrapped message: | new header | original body | original header | value |.
use servercc.Common.{
  ℕ, ◌+◌, ◌%◌, ◌^◌, ◌≤◌, ◌<◌, ◌≡◌, ap, ap₂, ◌∙◌, List, [], ◌++◌, Outcome, done, undefined, arith,
  length, take, drop, length-append, length-take, length-drop, take-append, drop_all, append_assoc,
  append-nil, ◌>>=◌,
}
use servercc.Types.Memory.{Copyable, copy_into, resize}
use servercc.Types.Memory.Bounds.{length-resize, take-resize, copy_into-done, copy_into-undefined}
use servercc.Types.Header.{header_bytes, length-header_bytes, message_header_length}
use servercc.Types.Message.{Message, wrap_message}

-- Overwriting the tail of a vector, in two adjacent pieces that reach its end.
copy_into_twice :
    {A : Type 0} (k : List ℕ → Outcome A) (bs : List ℕ) (o n : ℕ) (s t : List ℕ)
    → n ≡ o + length s
    → length bs ≡ n + length t
    → (copy_into bs o s >>= λ cs. copy_into cs n t >>= k) ≡ k (take o bs ++ (s ++ t))
copy_into_twice k bs o n s t hn h = rw (copy_into-done bs o s (omega arith), second)
  where
    spliced : List ℕ
    spliced = take o bs ++ (s ++ drop (o + length s) bs)

    fits : length spliced ≡ n + length t
    fits = omega (
      arith,
      length-append (take o bs) (s ++ drop (o + length s) bs),
      length-append s (drop (o + length s) bs),
      length-take o bs,
      length-drop (o + length s) bs,
    )

    before : take n spliced ≡ take o bs ++ s
    before = rw (← append_assoc (take o bs) s (drop (o + length s) bs)) (
        take-append n (take o bs ++ s) (drop (o + length s) bs)
          (omega (arith, length-append (take o bs) s, length-take o bs)))

    after : drop (n + length t) spliced ≡ []
    after = drop_all (n + length t) spliced (omega (arith, fits))

    second : copy_into spliced n t ≡ done (take o bs ++ (s ++ t))
    second =
        copy_into-done spliced n t (omega (arith, fits))
        ∙ ap done (ap₂ (λ u v. u ++ (t ++ v)) before after ∙ simp (append_assoc, append-nil))

module _ {T : Type 0} (copyable : Copyable T) where
  open copyable use {size, bytes, length-bytes}

  -- The message that a wrap leaves where nothing wraps round.
  abbrev pub wrapped : ℕ → T → Message → Message
  wrapped protocol value m = record {
    header = record {
      length = m.header.length + message_header_length + size;
      protocol = protocol;
    };
    body = resize m.header.length m.body ++ (header_bytes m.header ++ bytes value);
  }

  -- Where the length of the wrapped message fits in its header field, wrapping sets the body to
  -- `header.length` bytes, appends the old header and then the value, and counts all of it.
  pub wrap_message-wrapped :
      (protocol : ℕ) (v : T) (m : Message)
      → m.header.length + message_header_length + size < 2 ^ 32
      → wrap_message copyable protocol v m ≡ done (wrapped protocol v m)
  unfolding wrap_message
  wrap_message-wrapped protocol v m h =
      rw (step, total)
        (copy_into_twice _ (resize (len + message_header_length + size) m.body) len
            (len + message_header_length) (header_bytes m.header) (bytes v)
            (omega (arith, length-header_bytes m.header))
            (omega (
              arith,
              length-header_bytes m.header,
              length-bytes v,
              length-resize (len + 8 + size) m.body,
            ))
          ∙ rw (take-resize len (len + message_header_length + size) m.body (omega arith)))
    where
      len : ℕ
      len = m.header.length

      step : (len + message_header_length) % 2 ^ 32 ≡ len + message_header_length
      step = omega arith

      total : (len + message_header_length + size) % 2 ^ 32 ≡ len + message_header_length + size
      total = omega arith

  -- A message whose length fits in 32 bits, but not together with that of a header, is written
  -- out of bounds when it is wrapped with a value smaller than two gigabytes.
  pub wrap_message-undefined :
      (protocol : ℕ) (v : T) (m : Message)
      → size < 2 ^ 31
      → 2 ^ 32 ≤ m.header.length + message_header_length
      → m.header.length < 2 ^ 32
      → wrap_message copyable protocol v m ≡ undefined
  unfolding wrap_message
  wrap_message-undefined protocol v m hs lo hi = rw (
      copy_into-undefined
        (resize ((m.header.length + message_header_length) % 2 ^ 32 + size) m.body) m.header.length
        (header_bytes m.header)
        (omega (
          arith,
          length-resize ((m.header.length + message_header_length) % 2 ^ 32 + size) m.body,
          length-header_bytes m.header,
        )))
