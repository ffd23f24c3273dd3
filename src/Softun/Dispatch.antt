-- ===== src/Softun/Dispatch.antt =====
-- What the host does with a packet that a peer sent: handleInbound of softun/softun_tcp.go, and the
-- Sink of softun/softun.go around it.
use peerscale.Prelude.{ℕ, ◌≡◌, Bool, true, false, not, ◌||◌, Option, List, if◌then◌else◌, arith}
use peerscale.Softun.{
  Protocol, icmp, udp, tcp, other, Packet, Pending, Inbound, emitted, handle_inbound_tcp,
}
use peerscale.Softun.Udp.{Listeners, Delivery, passed_on, handle_inbound_udp}
use peerscale.Softun.Icmp.{handle_inbound_icmp}
use peerscale.Softun.Route.{is4, is_local_addr}

-- Who takes the packet: the stack, to which it is injected; the answer to an echo, with the reply;
-- a UDP listener; or the opening of a connection, refused or not.
pub data Taker : Type 0 where
  stack : Taker
  echo_answerer : Option (List ℕ) → Taker
  listener : Delivery → Taker
  connection : Bool → Taker

pub record Taken : Type 0 where
  pub taker : Taker
  pub pending : Pending
  pub listeners : Listeners

abbrev by_icmp : Bool × Option (List ℕ) → Pending → Listeners → Taken
by_icmp (false, reply) m ls = record { taker = stack; pending = m; listeners = ls }
by_icmp (true, reply) m ls = record { taker = echo_answerer reply; pending = m; listeners = ls }

abbrev by_udp : Delivery × Listeners → Pending → Taken
by_udp (passed_on, ls) m = record { taker = stack; pending = m; listeners = ls }
by_udp (d, ls) m = record { taker = listener d; pending = m; listeners = ls }

abbrev by_tcp : Inbound → Listeners → Taken
by_tcp r ls = record {
  taker = if r.consumed then connection r.refused else stack;
  pending = r.pending;
  listeners = ls;
}

-- `replies` is what the stack emits while it takes a SYN, `behind` all bytes behind the IP header.
abbrev by_protocol :
    (List ℕ → ℕ) → ℕ → List Packet → List ℕ → Packet → Protocol → Pending → Listeners → Taken
by_protocol checksum now replies behind pkt icmp m ls =
    by_icmp (handle_inbound_icmp (is4 pkt.src) checksum pkt.payload behind) m ls
by_protocol checksum now replies behind pkt udp m ls =
    by_udp (handle_inbound_udp pkt.src pkt.payload ls) m
by_protocol checksum now replies behind pkt tcp m ls =
    by_tcp (handle_inbound_tcp now replies pkt m) ls
by_protocol checksum now replies behind pkt other m ls = record {
  taker = stack;
  pending = m;
  listeners = ls;
}

module _ (crc64 : Option ℕ → ℕ) (self : Option ℕ) (checksum : List ℕ → ℕ) where
  unfoldable pub handle_inbound : ℕ → List Packet → List ℕ → Packet → Pending → Listeners → Taken
  unfolding is_local_addr handle_inbound_icmp handle_inbound_udp handle_inbound_tcp
  handle_inbound now replies behind pkt m ls =
      if not pkt.is_valid || not (is_local_addr crc64 self pkt.dst)
      then record { taker = stack; pending = m; listeners = ls }
      else by_protocol checksum now replies behind pkt pkt.protocol m ls

  -- softunSink.Inbound: what no service of the host takes is injected into the stack, whose own
  -- packets then leave.
  unfoldable pub sink_inbound : ℕ → List Packet → List ℕ → Packet → Pending → Listeners → Taken
  unfolding handle_inbound emitted
  sink_inbound now replies behind pkt m ls =
      elim (handle_inbound now replies behind pkt m ls).taker [
        | stack ↦ record (handle_inbound now replies behind pkt m ls) {
          pending = emitted replies (handle_inbound now replies behind pkt m ls).pending;
        }
        | echo_answerer reply ↦ handle_inbound now replies behind pkt m ls
        | listener d ↦ handle_inbound now replies behind pkt m ls
        | connection refused ↦ handle_inbound now replies behind pkt m ls
      ]

  -- No service of the host takes a packet that is not for it, or changes anything for it.
  handle_inbound-elsewhere :
      (now : ℕ) (replies : List Packet) (behind : List ℕ) (pkt : Packet) (m : Pending)
      (ls : Listeners)
      → is_local_addr crc64 self pkt.dst ≡ false
      → handle_inbound now replies behind pkt m ls
        ≡ record { taker = stack; pending = m; listeners = ls }
  unfolding handle_inbound
  handle_inbound-elsewhere now replies behind pkt m ls away = ground (arith, away)
