-- ===== src/Tunnel/Forward/Loop.antt =====
-- The poll loop of src/tunnel/forward.rs, `forward_with_callbacks`. One `Turn` holds what the callback,
-- `poll` and the descriptors answer in one turn of the loop.
pub mod Whole
use openfortivpn_rs.Common.{
  Bool, true, false, not, ◌&&◌, ◌||◌, Option, none, some, List, [], ◌∷◌, if◌then◌else◌,
}
use openfortivpn_rs.Common.Error.{Result, ok, err, OpenfortivpnError}
use openfortivpn_rs.Common.Text.{is_empty}
use openfortivpn_rs.Tunnel.Forward.{
  ForwardStats, ReadAnswer, WriteAnswer, write_available, Forward, Step, after,
  read_pty_into_tls_queue, read_tls_into_pty_queue,
}

-- The flags that `poll` returns, of those that were asked for; the last three are always asked for.
pub record PollFlags : Type 0 where
  pub pollin : Bool
  pub pollout : Bool
  pub pollerr : Bool
  pub pollhup : Bool
  pub pollnval : Bool

abbrev pub has_fatal_poll_event : PollFlags → Bool
has_fatal_poll_event events = events.pollerr || (events.pollhup || events.pollnval)

pub record Turn : Type 0 where
  pub should_stop : Bool
  pub poll_error : Option OpenfortivpnError
  pub pty_events : PollFlags
  pub tls_events : PollFlags
  pub pty_reads : List ReadAnswer
  pub tls_reads : List ReadAnswer
  pub pty_writes : List WriteAnswer
  pub tls_writes : List WriteAnswer

-- `step` when `test` holds.
abbrev pub when : Bool → (Forward → Step) → Forward → Step
when true step s = step s
when false step s = some (ok tt, s)

unfoldable pub write_pty : List WriteAnswer → Forward → Step
write_pty answers s =
    let written = write_available answers s.pty_out s.pty_written in
    some (written.0, record s { pty_out = written.1; pty_written = written.2 })

unfoldable pub write_tls : List WriteAnswer → Forward → Step
write_tls answers s =
    let written = write_available answers s.tls_out s.tls_written in
    some (written.0, record s { tls_out = written.1; tls_written = written.2 })

-- The four steps of a turn. Writing is asked of `poll` only while bytes wait, before the reads.
unfoldable pub exchange : Turn → Forward → Step
exchange turn s =
    let pty_waits = not (is_empty s.pty_out.chunks) in
    let tls_waits = not (is_empty s.tls_out.chunks) in
    after (when (turn.pty_events.pollin) (read_pty_into_tls_queue (turn.pty_reads)) s) λ s.
      after (when (turn.tls_events.pollin) (read_tls_into_pty_queue (turn.tls_reads)) s) λ s.
        after (when (pty_waits && turn.pty_events.pollout) (write_pty (turn.pty_writes)) s)
          λ s. when (tls_waits && turn.tls_events.pollout) (write_tls (turn.tls_writes)) s

-- The loop, as far as turns are given: it goes on, or it has returned. `stuck` is a decoder that does
-- not return.
pub data Forwarding : Type 0 where
  running : Forward → Forwarding
  returned : Result ForwardStats → Forward → Forwarding
  stuck : Forwarding

abbrev pub ended : Step → (Forward → Forwarding) → Forwarding
ended none next = stuck
ended (some (err e, s)) next = returned (err e) s
ended (some (ok _, s)) next = next s

-- One turn, and what the loop does then.
abbrev pub take_turn : Turn → (Forward → Forwarding) → Forward → Forwarding
take_turn turn next s =
    if turn.should_stop then returned (ok s.stats) s else elim (turn.poll_error) [
      | some e ↦ returned (err e) s
      | none ↦
          if has_fatal_poll_event turn.pty_events || has_fatal_poll_event turn.tls_events
          then returned (ok s.stats) s
          else ended (exchange turn s) next
    ]

unfoldable pub forward_with_callbacks : List Turn → Forward → Forwarding
forward_with_callbacks [] s = running s
forward_with_callbacks (turn ∷ turns) s = take_turn turn (forward_with_callbacks turns) s
