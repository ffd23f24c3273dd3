-- ===== src/Virtun/Leak.antt =====
-- A UDP flow that is made again while the old one's reader still ends.
use peerscale.Prelude.{
  ℕ, ◌-◌, ◌≤◌, ◌<◌, ◌≡◌, ◌≢◌, refl, inl, inr, true, false, none, some, List, [], ◌∷◌, length, ltb,
  ◌==◌, arith, Bool-cases, occurs,
}
use peerscale.Dict.{lookup, insert, keys, IsMap}
use peerscale.Dict.Laws.{lookup-erase}
use peerscale.Virtun.Udp.{
  idle_limit, Flow, Flows, handle_udp, read_fails, sweep, udp_cleanup, without,
}

sweep-absent :
    (now key : ℕ) (table : List (ℕ × Flow))
    → occurs key (keys table) ≡ 0
    → lookup key (sweep now table).0 ≡ none
unfolding sweep
sweep-absent now key [] h = refl
sweep-absent now key ((k, f) ∷ table) h =
    let ih = sweep-absent now key table (omega (arith, h)) in
    let other : (k == key) ≡ false = ground (arith, h) in
    elim (Bool-cases (ltb idle_limit (now - f.last_use))) [
      | inl stale ↦ rw stale ih
      | inr fresh ↦ rw (fresh, other) ih
    ]

-- An idle flow is swept.
sweep-idle :
    (now key : ℕ) (table : List (ℕ × Flow)) (f : Flow)
    → occurs key (keys table) ≤ 1
    → lookup key table ≡ some f
    → idle_limit < now - f.last_use
    → lookup key (sweep now table).0 ≡ none
unfolding sweep
sweep-idle now key [] f once e idle = refl
sweep-idle now key ((k, g) ∷ table) f once e idle = elim (Bool-cases (k == key)) [
  | inl here ↦
      let same : g ≡ f = ground (arith, e, here) in
      let stale : ltb idle_limit (now - g.last_use) ≡ true = ground (arith, idle, same) in
      rw stale (sweep-absent now key table (ground (arith, once, here)))
  | inr away ↦
      let ih = sweep-idle now key table f (omega (arith, once)) (ground (arith, e, away)) idle in
      elim (Bool-cases (ltb idle_limit (now - g.last_use))) [
        | inl stale ↦ rw stale ih
        | inr fresh ↦ rw (fresh, away) ih
      ]
]

stays_open : (c d : ℕ) (conns : List ℕ) → c ≢ d → 1 ≤ occurs c (without d (c ∷ conns))
stays_open c d conns ne = let kept : (c == d) ≡ false = ground (arith, ne) in rw kept (ground arith)

-- If a flow has been idle for more than 60 seconds when the clean-up runs, and a datagram for it comes
-- before the reader of its closed stream has ended, then the reader removes the new flow: the table
-- has no flow under that key, while the stream that was dialled for it is open.
pub read_fails-loses_new_flow :
    (now later key conn : ℕ) (udp : List ℕ) (f : Flow) (fs : Flows)
    → IsMap fs.table
    → (lookup key fs.table ≡ some f) × (idle_limit < now - f.last_use)
    → (8 ≤ length udp) × (conn ≢ f.conn)
    → let fs' = read_fails key f.conn (handle_udp later key udp (some conn) (udp_cleanup now fs)) in
      (lookup key fs'.table ≡ none) × (1 ≤ occurs conn fs'.open_conns)
unfolding read_fails handle_udp udp_cleanup
read_fails-loses_new_flow now later key conn udp f fs once (there, idle) (long, other) =
    let gone = sweep-idle now key fs.table f (once.once key) there idle in
    let enough : ltb (length udp) 8 ≡ false = ground (arith, long) in
    rw (enough, gone)
      (
        ground (
          arith,
          lookup-erase key key
              (insert key (record { conn = conn; last_use = later }) (sweep now fs.table).0),
        ),
        stays_open conn f.conn _ other,
      )
