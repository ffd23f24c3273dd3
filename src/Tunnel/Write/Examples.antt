-- ===== src/Tunnel/Write/Examples.antt =====
-- Writes to a hub that has no carrier, and to one whose carrier fails.
use peerscale.Prelude.{ℕ, ◌*◌, ◌≤◌, ◌≡◌, refl, true, false, some, [], ◌∷◌, ◌==◌}
use peerscale.Tunnel.{inbound, outbound, TunnelHub, new_hub, attach, mark_dead}
use peerscale.Tunnel.Live.{start, next, attaches, Reachable, IsSingle}
use peerscale.Tunnel.Write.{Try, Written, retry_pause, write}
use peerscale.Tunnel.Write.Ends.{Ended, write-Ended}
use peerscale.Tunnel.Write.Steps.{write-Reachable}
use peerscale.Tunnel.Write.Recovery.{write-recovers}

-- Carrier 1 fails, carrier 7 is opened.
abbrev try : ℕ → Try
try k = record {
  now = k;
  reversed = k == 1;
  takes = λ id. id == 7;
  stream = some (7, outbound);
  opened_at = k;
  sleeping = λ h. h;
  writing = λ id h. h;
  opening = λ h. h;
}

abbrev broken : TunnelHub
broken = attach 5 1 inbound new_hub

write-Ended_example :
    (w : Written) × (write 40 try 49 new_hub ≡ some w)
    × (w.sleeps * retry_pause ≤ 58 * 1_000_000_000)
    × Ended 40 try w
write-Ended_example = write-Ended 40 try new_hub

abbrev after_broken : Written
after_broken = record {
  taken_by = some 7;
  extra = [];
  failed = 1 ∷ [];
  hub = record {
    carriers =
        record { id = 1; direction = inbound; dead = true }
        ∷ record { id = 7; direction = outbound; dead = false }
        ∷ [];
    opening = false;
    last_use = 2;
    reattached = 2;
  };
  sleeps = 1;
}

broken_written : write 40 try 49 broken ≡ some after_broken
unfolding write attach new_hub mark_dead
broken_written = refl

write-Reachable_example : Reachable after_broken.hub × IsSingle after_broken.hub
write-Reachable_example =
    write-Reachable 40 try
      (λ k. record { sleeping = λ h r. r; writing = λ id h r. r; opening = λ h r. r }) 49 broken
      after_broken (next start (attaches 5 1 inbound)) broken_written

write-recovers_example :
    (w : Written) × (taker : ℕ) × (write 40 try 49 broken ≡ some w)
    × (w.taken_by ≡ some taker)
    × (w.sleeps ≤ 1)
unfolding attach new_hub
write-recovers_example =
    write-recovers 40 try broken 7 outbound
      (
        record { sleeping = λ h. refl; writing = λ id h. refl; opening = λ h. refl },
        record { sleeping = λ h. refl; writing = λ id h. refl; opening = λ h. refl },
      )
      refl refl refl
