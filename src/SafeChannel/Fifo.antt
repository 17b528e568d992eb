-- ===== src/SafeChannel/Fifo.antt =====
-- Histories of a safe channel: none panics, and elements come out in the order in which they went in.
use mathlib.Core.List.{append-nil, append_assoc}
use free5gc_workspace.Prelude.{
  ℕ, ◌≡◌, ◌≤◌, ◌<◌, ◌⊎◌, inl, inr, refl, ap, sym, ◌∙◌, Bool, true, false, List, [], ◌∷◌, ◌++◌,
  Option, none, some, length, length-append, ltb, Bool-cases, arith,
}
use free5gc_workspace.Prelude.Outcome.{Outcome, returns, fails, panics, ◌>>=◌, Gives, >>=-Gives}
use free5gc_workspace.SafeChannel.{Waits, blocked, SafeCh, new_safe_ch, send, close, receive}

pub data Event (T : Type 0) : Type 0 where
  sends : T → Event T
  closes receives : Event T

-- The channel, what was put into it and what was received from it.
pub record History (T : Type 0) : Type 0 where
  pub channel : SafeCh T
  pub accepted : List T
  pub received : List T

module _ {T : Type 0} where
  abbrev pub taken_in : Bool → T → List T
  taken_in true e = []
  taken_in false e = e ∷ []

  abbrev pub given_out : Option T → List T
  given_out none = []
  given_out (some e) = e ∷ []

  -- One event; an operation that has to wait does not happen.
  abbrev pub after_wait :
      {A : Type 0} → Outcome Waits A → History T → (A → History T) → Outcome Waits (History T)
  after_wait (returns a) h k = returns (k a)
  after_wait (fails e) h k = returns h
  after_wait panics h k = panics

  unfoldable pub happen : History T → Event T → Outcome Waits (History T)
  happen h (sends e) =
      after_wait (send h.channel e) h
        (λ c. record h { channel = c; accepted = h.accepted ++ taken_in h.channel.closed e })
  happen h closes = after_wait (close h.channel) h (λ c. record h { channel = c })
  happen h receives =
      after_wait (receive h.channel) h
        (λ r. record h { channel = r.0; received = h.received ++ given_out r.1 })

  unfoldable pub history : History T → List (Event T) → Outcome Waits (History T)
  unfolding happen
  history h [] = returns h
  history h (e ∷ es) = happen h e >>= λ h'. history h' es

  abbrev pub opened : ℕ → History T
  opened size = record { channel = new_safe_ch size; accepted = []; received = [] }

  -- What holds after every event: the flag says whether the channel is closed, the buffer is within
  -- its size, and what was received and what waits in the buffer is what was put in, in its order.
  pub record IsFifo (size : ℕ) (h : History T) : Type 0 where
    pub flag : h.channel.closed ≡ h.channel.ch.shut
    pub same_size : h.channel.ch.size ≡ size
    pub room : length h.channel.ch.buffer ≤ size
    pub order : h.received ++ h.channel.ch.buffer ≡ h.accepted

  send_cases :
      (c : SafeCh T) (e : T)
      → c.closed ≡ c.ch.shut
      → ((send c e ≡ returns c) × (c.closed ≡ true))
        ⊎ ((send c e ≡ fails blocked)
            ⊎ ((send c e
                  ≡ returns (record c { ch = record c.ch { buffer = c.ch.buffer ++ e ∷ [] } }))
                × (c.closed ≡ false)
                × (length c.ch.buffer < c.ch.size)))
  unfolding send
  send_cases c e f = elim (Bool-cases c.closed) [
    | inl p ↦ inl (rw p refl, p)
    | inr p ↦ inr (elim (Bool-cases (ltb (length c.ch.buffer) c.ch.size)) [
      | inl q ↦ inr (rw (p, sym f ∙ p, q) refl, p, ground arith)
      | inr q ↦ inl (rw (p, sym f ∙ p, q) refl)
    ])
  ]

  close_cases :
      (c : SafeCh T)
      → c.closed ≡ c.ch.shut
      → ((close c ≡ returns c) × (c.closed ≡ true))
        ⊎ (close c ≡ returns (record { closed = true; ch = record c.ch { shut = true } }))
  unfolding close
  close_cases c f = elim (Bool-cases c.closed) [
    | inl p ↦ inl (rw p refl, p)
    | inr p ↦ inr (rw (p, sym f ∙ p) refl)
  ]

  receive_cases :
      (c : SafeCh T) (b : List T)
      → c.ch.buffer ≡ b
      → ((b ≡ []) × ((receive c ≡ fails blocked) ⊎ (receive c ≡ returns (c, none))))
        ⊎ ((e : T) × (rest : List T) × (b ≡ e ∷ rest)
            × (receive c ≡ returns (record c { ch = record c.ch { buffer = rest } }, some e)))
  unfolding receive
  receive_cases c [] p = inl (
    refl,
    elim (Bool-cases c.ch.shut) [ inl q ↦ inr (rw (p, q) refl) | inr q ↦ inl (rw (p, q) refl) ],
  )
  receive_cases c (e ∷ rest) p = inr (e, rest, refl, rw p refl)

  after_wait-Gives :
      {A : Type 0} {P : History T → Type 0} {m : Outcome Waits A} {a : A} (h : History T)
      (k : A → History T)
      → m ≡ returns a
      → P (k a)
      → Gives (after_wait m h k) P
  after_wait-Gives h k e q = (_, ap (λ m. after_wait m h k) e, q)

  blocked-Gives :
      {A : Type 0} {P : History T → Type 0} {m : Outcome Waits A} (h : History T)
      (k : A → History T)
      → m ≡ fails blocked
      → P h
      → Gives (after_wait m h k) P
  blocked-Gives h k e q = (h, ap (λ m. after_wait m h k) e, q)

  happen-Gives :
      (size : ℕ) (h : History T) (ev : Event T) → IsFifo size h → Gives (happen h ev) (IsFifo size)
  unfolding happen
  happen-Gives size h (sends e) f = elim (send_cases h.channel e f.flag) [
    | inl (p, c) ↦ after_wait-Gives h _ p (record {
      flag = f.flag;
      same_size = f.same_size;
      room = f.room;
      order = f.order ∙ rw c (sym (append-nil h.accepted));
    })
    | inr (inl p) ↦ blocked-Gives h _ p f
    | inr (inr (p, c, l)) ↦ after_wait-Gives h _ p (record {
      flag = f.flag;
      same_size = f.same_size;
      room = omega (arith, length-append h.channel.ch.buffer (e ∷ []), f.same_size);
      order = rw c (
          sym (append_assoc h.received h.channel.ch.buffer (e ∷ []))
          ∙ ap (λ l. l ++ e ∷ []) f.order);
    })
  ]
  happen-Gives size h closes f = elim (close_cases h.channel f.flag) [
    | inl (p, c) ↦ after_wait-Gives h _ p f
    | inr p ↦
        after_wait-Gives h _ p
          (record { flag = refl; same_size = f.same_size; room = f.room; order = f.order })
  ]
  happen-Gives size h receives f = elim (receive_cases h.channel h.channel.ch.buffer refl) [
    | inl (b, inl p) ↦ blocked-Gives h _ p f
    | inl (b, inr p) ↦ after_wait-Gives h _ p (record {
      flag = f.flag;
      same_size = f.same_size;
      room = f.room;
      order = ap (λ l. l ++ h.channel.ch.buffer) (append-nil h.received) ∙ f.order;
    })
    | inr (e, rest, b, p) ↦ after_wait-Gives h _ p (record {
      flag = f.flag;
      same_size = f.same_size;
      room = omega (arith, f.room, ap length b);
      order = append_assoc h.received (e ∷ []) rest ∙ ap (λ l. h.received ++ l) (sym b) ∙ f.order;
    })
  ]

  -- Whatever is sent, closed and received on a new channel, in whatever order, nothing panics, the
  -- channel never holds more than its size, and what was received followed by what is in it is
  -- what was sent, without having to wait, before it was closed, in the order in which it was sent.
  pub history-IsFifo :
      (size : ℕ) (es : List (Event T)) → Gives (history (opened size) es) (IsFifo size)
  unfolding history new_safe_ch
  history-IsFifo size es =
      go (opened size) es
        (record { flag = refl; same_size = refl; room = omega arith; order = refl })
    where
      go :
          (h : History T) (es : List (Event T)) → IsFifo size h → Gives (history h es) (IsFifo size)
      go h [] f = (h, refl, f)
      go h (e ∷ es) f = >>=-Gives (happen-Gives size h e f) (λ h' f'. go h' es f')
