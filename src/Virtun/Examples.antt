-- ===== src/Virtun/Examples.antt =====
-- A segment, the peers of a small cluster, and flows.
use peerscale.Prelude.{
  ℕ, ◌+◌, ◌*◌, ◌^◌, ◌≤◌, ◌≡◌, refl, false, some, none, List, [], ◌∷◌, arith, occurs,
}
use peerscale.Dict.{lookup, IsMap}
use peerscale.Runtime.{second}
use peerscale.Virtun.Packets.{proto_tcp, proto_udp, build_packet4, build_packet6, build_udp6}
use peerscale.Virtun.Validity.{IsValid4, build_packet4-IsValid4}
use peerscale.Virtun.Validity6.{FailsCheck6, build_packet6-build_udp6-FailsCheck6}
use peerscale.Virtun.Peers.{peer_by_ip, IsAnswer, after_calls, after_calls-IsAnswer}
use peerscale.Virtun.Tcp.{Reset, handle_tcp, refused, aborts, handle_tcp-aborts}
use peerscale.Virtun.Udp.{Flow, Flows, handle_udp, read_fails, udp_cleanup}
use peerscale.Virtun.Leak.{read_fails-loses_new_flow}

-- From port 300 to port 80, sequence number 7, a SYN.
abbrev seg : List ℕ
seg = 1 ∷ 44 ∷ 0 ∷ 80 ∷ 0 ∷ 0 ∷ 0 ∷ 7 ∷ 0 ∷ 0 ∷ 0 ∷ 0 ∷ 80 ∷ 2 ∷ 0 ∷ 0 ∷ 0 ∷ 0 ∷ 0 ∷ 0 ∷ []

abbrev src : List ℕ
src = 10 ∷ 0 ∷ 0 ∷ 2 ∷ []

abbrev dst : List ℕ
dst = 10 ∷ 0 ∷ 0 ∷ 9 ∷ []

build_packet4-IsValid4_example : IsValid4 proto_tcp 8 src dst seg (build_packet4 src dst seg)
build_packet4-IsValid4_example =
    build_packet4-IsValid4 src dst seg ((refl, omega arith), (refl, omega arith)) (omega arith)
      (omega arith)

abbrev src6 : List ℕ
src6 = 253 ∷ 0 ∷ 0 ∷ 0 ∷ 0 ∷ 0 ∷ 0 ∷ 0 ∷ 0 ∷ 0 ∷ 0 ∷ 0 ∷ 0 ∷ 0 ∷ 0 ∷ 2 ∷ []

build_packet6-build_udp6-FailsCheck6_example :
    FailsCheck6 proto_tcp src6 src6 seg (build_packet6 src6 src6 seg)
    × FailsCheck6 proto_udp src6 src6 seg (build_udp6 src6 src6 seg)
build_packet6-build_udp6-FailsCheck6_example =
    build_packet6-build_udp6-FailsCheck6 src6 src6 seg ((refl, omega arith), (refl, omega arith))
      (omega arith) (omega arith)

-- Peers 1 and 254 have the same host part.
abbrev calls : List (List ℕ × ℕ)
calls = (1 ∷ 5 ∷ [], 10 * 2 ^ 24 + 3) ∷ []

after_calls-IsAnswer_example :
    IsAnswer
      (λ id. id)
      (10 * 2 ^ 16)
      (254 ∷ [])
      (10 * 2 ^ 24 + 3)
      (peer_by_ip
        (λ id. id)
        (10 * 2 ^ 16)
        (254 ∷ [])
        (10 * 2 ^ 24 + 3)
        (after_calls (λ id. id) (10 * 2 ^ 16) calls [])).0
      (peer_by_ip
        (λ id. id)
        (10 * 2 ^ 16)
        (254 ∷ [])
        (10 * 2 ^ 24 + 3)
        (after_calls (λ id. id) (10 * 2 ^ 16) calls [])).1
after_calls-IsAnswer_example =
    after_calls-IsAnswer (λ id. id) (10 * 2 ^ 16) calls (254 ∷ []) (10 * 2 ^ 24 + 3)

taken :
    (peer_by_ip
      (λ id. id)
      (10 * 2 ^ 16)
      (254 ∷ [])
      (10 * 2 ^ 24 + 3)
      (after_calls (λ id. id) (10 * 2 ^ 16) calls [])).0
    ≡ some 1
unfolding peer_by_ip
taken = refl

handle_tcp-aborts_example :
    (r : Reset) × (handle_tcp (λ b. b) 4 seg none [] ≡ (refused r, [])) × (aborts 7 r ≡ false)
handle_tcp-aborts_example =
    handle_tcp-aborts (λ b. b) 4 seg [] (omega arith, refl, omega arith) (refl, refl, refl) refl

abbrev idle : Flow
idle = record { conn = 1; last_use = 0 }

abbrev flows : Flows
flows = record { table = (4, idle) ∷ []; open_conns = 1 ∷ []; written = [] }

flows-IsMap : IsMap flows.table
flows-IsMap = record { once = λ k. ground arith }

read_fails-loses_new_flow_example :
    (lookup 4
        (read_fails 4 1 (
          handle_udp
            (70 * second)
            4
            (0 ∷ 1 ∷ 0 ∷ 2 ∷ 0 ∷ 8 ∷ 0 ∷ 0 ∷ [])
            (some 2)
            (udp_cleanup (61 * second) flows))).table
      ≡ none)
    × (1
        ≤ occurs 2
            (read_fails 4 1 (
              handle_udp
                (70 * second)
                4
                (0 ∷ 1 ∷ 0 ∷ 2 ∷ 0 ∷ 8 ∷ 0 ∷ 0 ∷ [])
                (some 2)
                (udp_cleanup (61 * second) flows))).open_conns)
read_fails-loses_new_flow_example =
    read_fails-loses_new_flow (61 * second) (70 * second) 4 2 (0 ∷ 1 ∷ 0 ∷ 2 ∷ 0 ∷ 8 ∷ 0 ∷ 0 ∷ [])
      idle flows flows-IsMap (refl, omega arith) (omega arith, λ e. omega (arith, e))
