-- ===== src/SafeChannel.antt =====
-- lib/util/safe_channel/safe_channel.go. A Go channel is its buffer, the size of the buffer, and
-- whether it was closed; sending on a closed channel and closing it again panic, and an operation
-- that has to wait is `blocked`. The locks make `Send`, `Close` and `IsClosed` one step each, except
-- that a sender may wait inside `Send`. That a sender hands an element to a receiver that waits
-- already, past the buffer, is not modelled: with a size of 0 every `send` waits. `IsClosed` is the
-- field `closed`, and the channel of `GetRcvChan` is only received from.
pub mod Fifo
mod Tests
use free5gc_workspace.Prelude.{
  ℕ, Bool, true, false, List, [], ◌∷◌, ◌++◌, Option, none, some, length, ltb, if◌then◌else◌,
}
use free5gc_workspace.Prelude.Outcome.{Outcome, returns, fails, panics, ◌>>=◌}

pub data Waits : Type 0 where
  blocked : Waits

pub record Chan (T : Type 0) : Type 0 where
  pub buffer : List T
  pub size : ℕ
  pub shut : Bool

-- `ch <- e`, with no receiver that waits.
unfoldable pub chan_send : {T : Type 0} → Chan T → T → Outcome Waits (Chan T)
chan_send c e =
    if c.shut
    then panics
    else if ltb (length c.buffer) c.size
    then returns (record c { buffer = c.buffer ++ e ∷ [] })
    else fails blocked

unfoldable pub chan_close : {T : Type 0} → Chan T → Outcome Waits (Chan T)
chan_close c = if c.shut then panics else returns (record c { shut = true })

receive_first : {T : Type 0} → Chan T → List T → Outcome Waits (Chan T × Option T)
receive_first c [] = if c.shut then returns (c, none) else fails blocked
receive_first c (e ∷ rest) = returns (record c { buffer = rest }, some e)

-- `<-ch`: a closed channel with an empty buffer gives no element.
unfoldable pub chan_receive : {T : Type 0} → Chan T → Outcome Waits (Chan T × Option T)
unfolding receive_first
chan_receive c = receive_first c c.buffer

pub record SafeCh (T : Type 0) : Type 0 where
  pub closed : Bool
  pub ch : Chan T

unfoldable pub new_safe_ch : {T : Type 0} → ℕ → SafeCh T
new_safe_ch size = record { closed = false; ch = record { buffer = []; size = size; shut = false } }

unfoldable pub send : {T : Type 0} → SafeCh T → T → Outcome Waits (SafeCh T)
unfolding chan_send
send c e =
    let sent = chan_send c.ch e >>= λ ch. returns (record c { ch = ch }) in
    if c.closed then returns c else sent

unfoldable pub close : {T : Type 0} → SafeCh T → Outcome Waits (SafeCh T)
unfolding chan_close
close c =
    let done = chan_close c.ch >>= λ ch. returns (record { closed = true; ch = ch }) in
    if c.closed then returns c else done

-- A receiver at the channel of `GetRcvChan`.
unfoldable pub receive : {T : Type 0} → SafeCh T → Outcome Waits (SafeCh T × Option T)
unfolding chan_receive
receive c = chan_receive c.ch >>= λ r. returns (record c { ch = r.0 }, r.1)
