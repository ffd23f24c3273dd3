-- ===== src/AddrManager/Examples.antt =====
-- The announced addresses of a node with one circuit address that has expired.
use peerscale.Prelude.{ℕ, ◌/◌, refl, Option, none, some, [], ◌∷◌, arith, ltb, if◌then◌else◌}
use peerscale.Dict.{IsMap}
use peerscale.AddrManager.{AddrManager}
use peerscale.AddrManager.Announce.{IsLapsed}

abbrev relay_of : ℕ → Option ℕ
relay_of a = if ltb a 100 then none else some (a / 100)

abbrev manager : AddrManager
manager = record {
  local_addrs = 1 ∷ 2 ∷ 1 ∷ [];
  relay_circuit_addrs = 101 ∷ 201 ∷ [];
  relay_vouches =
      (1, record { addrs = 5 ∷ []; expiration = 40 })
      ∷ (2, record { addrs = 6 ∷ 2 ∷ []; expiration = 60 })
      ∷ [];
}

manager-IsMap : IsMap manager.relay_vouches
manager-IsMap = record { once = λ k. ground arith }

lapsed : IsLapsed relay_of 50 101 manager
lapsed = (1, record { addrs = 5 ∷ []; expiration = 40 }, refl, refl, omega arith)
