-- ===== src/Virtun/Udp.antt =====
-- UDP flows of fbvirtun/virtun_udp.go: a stream to a peer for each client, server and pair of ports.
-- What pbtunnel.DialUDP gives and what the stream takes are arguments.
use peerscale.Prelude.{
  ℕ, ◌-◌, ◌*◌, Option, none, some, List, [], ◌∷◌, length, drop, ltb, ◌==◌, if◌then◌else◌,
}
use peerscale.Dict.{lookup, insert, erase}
use peerscale.Runtime.{second}

abbrev pub idle_limit : ℕ
idle_limit = 60 * second

-- `conn` stands for the stream. The four parts of the key are kept by the table's key.
pub record Flow : Type 0 where
  pub conn : ℕ
  pub last_use : ℕ

-- The table, the streams that are open, and what was written to each, the newest first.
pub record Flows : Type 0 where
  pub table : List (ℕ × Flow)
  pub open_conns : List ℕ
  pub written : List (ℕ × List ℕ)

abbrev pub put : ℕ → List ℕ → Flows → Flows
put conn payload fs = record fs { written = (conn, payload) ∷ fs.written }

abbrev pub to_flow : ℕ → ℕ → List ℕ → Option Flow → Option ℕ → Flows → Flows
to_flow now key payload (some f) dialed fs =
    put f.conn payload (record fs { table = insert key (record f { last_use = now }) fs.table })
to_flow now key payload none none fs = fs
to_flow now key payload none (some conn) fs = put conn payload (record fs {
  table = insert key (record { conn = conn; last_use = now }) fs.table;
  open_conns = conn ∷ fs.open_conns;
})

-- handleUDP4 and handleUDP6 at the number `key` of the four parts of a flow. `dialed` is the stream
-- to the peer with the address, if there is a route and the dial works.
unfoldable pub handle_udp : ℕ → ℕ → List ℕ → Option ℕ → Flows → Flows
handle_udp now key udp dialed fs =
    if ltb (length udp) 8 then fs else to_flow now key (drop 8 udp) (lookup key fs.table) dialed fs

-- conn.Close
abbrev pub without : ℕ → List ℕ → List ℕ
without conn [] = []
without conn (c ∷ cs) = if c == conn then without conn cs else c ∷ without conn cs

-- The read loop of the flow with the stream `conn` reads a packet, which the client gets.
unfoldable pub read_packet : ℕ → ℕ → ℕ → Flows → Flows
read_packet now key conn fs = record fs {
  table = elim (lookup key fs.table) [
    | none ↦ fs.table
    | some f ↦
        if f.conn == conn then insert key (record f { last_use = now }) fs.table else fs.table
  ];
}

-- Its Read fails.
unfoldable pub read_fails : ℕ → ℕ → Flows → Flows
read_fails key conn fs = record fs {
  table = erase key fs.table;
  open_conns = without conn fs.open_conns;
}

unfoldable pub sweep : ℕ → List (ℕ × Flow) → List (ℕ × Flow) × List ℕ
sweep now [] = ([], [])
sweep now ((key, f) ∷ table) =
    let (left, stale) = sweep now table in
    if ltb idle_limit (now - f.last_use) then (left, f.conn ∷ stale) else ((key, f) ∷ left, stale)

abbrev pub without_all : List ℕ → List ℕ → List ℕ
without_all [] conns = conns
without_all (c ∷ cs) conns = without_all cs (without c conns)

unfoldable pub udp_cleanup : ℕ → Flows → Flows
unfolding sweep
udp_cleanup now fs =
    let (left, stale) = sweep now fs.table in
    record fs { table = left; open_conns = without_all stale fs.open_conns }
