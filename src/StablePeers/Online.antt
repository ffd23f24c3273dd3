-- ===== src/StablePeers/Online.antt =====
-- The online time that the entry of a peer adds up.
use peerscale.Prelude.{
  ℕ, ◌+◌, ◌-◌, ◌≤◌, ◌<◌, ◌≡◌, Bool, true, false, List, [], ◌∷◌, arith, if◌then◌else◌, ◌==◌, ◌∙◌, ap,
}
use peerscale.StablePeers.{StableInfo, connect, disconnect, new_info}

-- The events of a peer after its entry was made, newest first: when, and whether it connected.
abbrev pub History : Type 0
History = List (ℕ × Bool)

unfoldable pub life : ℕ → History → StableInfo
life start [] = new_info start
life start ((t, up) ∷ h) = if up then connect t (life start h) else disconnect t (life start h)

abbrev pub latest : ℕ → History → ℕ
latest start [] = start
latest start ((t, up) ∷ h) = t

abbrev pub is_up : History → Bool
is_up [] = true
is_up ((t, up) ∷ h) = up

-- The clock does not go back, and is not at Go's zero time.
abbrev pub InOrder : ℕ → History → Type 0
InOrder start [] = 0 < start
InOrder start ((t, up) ∷ h) = (latest start h ≤ t) × InOrder start h

-- The specification: the time that passed, up to `now`, while the newest event was a connection.
abbrev pub time_up : ℕ → ℕ → History → ℕ
time_up start now [] = now - start
time_up start now ((t, up) ∷ h) = time_up start t h + (if up then now - t else 0)

-- What the entry shows at `now`: finished sessions and the current one.
abbrev pub shown : ℕ → StableInfo → ℕ
shown now si = si.total_online + (if si.online_since == 0 then 0 else now - si.online_since)

-- Between events: `last` is the time of the newest, and `up` whether it is a connection.
record Sound (last : ℕ) (up : Bool) (si : StableInfo) : Type 0 where
  positive : 0 < last
  past : si.online_since ≤ last
  state : up ≡ (if si.online_since == 0 then false else true)

module _ (last t now : ℕ) (up : Bool) (si : StableInfo) (s : Sound last up si) where
  connect-Sound : last ≤ t → Sound t true (connect t si)
  unfolding connect
  connect-Sound l = ground arith

  disconnect-Sound : last ≤ t → Sound t false (disconnect t si)
  unfolding disconnect
  disconnect-Sound l = ground arith

  shown-connect : last ≤ t → t ≤ now → shown now (connect t si) ≡ shown t si + (now - t)
  unfolding connect
  shown-connect l n = ground arith

  shown-disconnect : shown now (disconnect t si) ≡ shown t si
  unfolding disconnect
  shown-disconnect = ground arith

life-Sound :
    (start : ℕ) (h : History) → InOrder start h → Sound (latest start h) (is_up h) (life start h)
unfolding life new_info
life-Sound start [] o = ground arith
life-Sound start ((t, true) ∷ h) o =
    connect-Sound (latest start h) t t (is_up h) (life start h) (life-Sound start h o.1) o.0
life-Sound start ((t, false) ∷ h) o =
    disconnect-Sound (latest start h) t t (is_up h) (life start h) (life-Sound start h o.1) o.0

shown-life :
    (start now : ℕ) (h : History)
    → InOrder start h
    → latest start h ≤ now
    → shown now (life start h) ≡ time_up start now h
unfolding life new_info
shown-life start now [] o l = ground arith
shown-life start now ((t, true) ∷ h) o l =
    shown-connect (latest start h) t now (is_up h) (life start h) (life-Sound start h o.1) o.0 l
    ∙ ap (λ n. n + (now - t)) (shown-life start t h o.1 o.0)
shown-life start now ((t, false) ∷ h) o l =
    shown-disconnect (latest start h) t now (is_up h) (life start h) (life-Sound start h o.1)
    ∙ omega (arith, shown-life start t h o.1 o.0)

-- After every history of one peer's events in order of time, and at any time from the newest on,
-- its finished sessions and the current one add up to the time that passed while its newest event
-- was a connection, and it counts as online exactly if the newest event of all is one.
pub life-shown :
    (start now : ℕ) (h : History)
    → InOrder start h
    → latest start h ≤ now
    → (shown now (life start h) ≡ time_up start now h)
      × (is_up h ≡ (if (life start h).online_since == 0 then false else true))
life-shown start now h o l = (shown-life start now h o l, (life-Sound start h o).state)
