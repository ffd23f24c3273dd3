-- ===== src/Turn/Permissions.antt =====
-- The IP addresses that a TurnPool of p2put/turnpool.go asks permissions for. A string is the list
-- of its bytes; the map from IP to 1 is the list of its keys.
use peerscale.Prelude.{
  ℕ, ◌≡◌, refl, Bool, true, false, not, ◌&&◌, ◌||◌, List, [], ◌∷◌, ◌==◌, if◌then◌else◌, arith,
  occurs,
}

abbrev pub dot : ℕ
dot = 46

abbrev pub colon : ℕ
colon = 58

-- s == t
abbrev pub same_text : List ℕ → List ℕ → Bool
same_text [] [] = true
same_text (a ∷ s) (b ∷ t) = a == b && same_text s t
same_text _ _ = false

-- strings.Split(ip, ":")[0], which is the whole string if it has no colon.
abbrev pub host : List ℕ → List ℕ
host [] = []
host (c ∷ s) = if c == colon then [] else c ∷ host s

abbrev pub is_listed : List ℕ → List (List ℕ) → Bool
is_listed ip [] = false
is_listed ip (k ∷ ips) = same_text k ip || is_listed ip ips

abbrev pub without : List ℕ → List (List ℕ) → List (List ℕ)
without ip [] = []
without ip (k ∷ ips) = if same_text k ip then without ip ips else k ∷ without ip ips

-- An empty string and one without three dots before the colon are passed over.
unfoldable pub add_perm_ip : List ℕ → List (List ℕ) → List (List ℕ)
add_perm_ip ip ips =
    if not (occurs dot (host ip) == 3)
    then ips
    else if is_listed (host ip) ips
    then ips
    else host ip ∷ ips

unfoldable pub remove_perm_ip : List ℕ → List (List ℕ) → List (List ℕ)
remove_perm_ip ip ips = if not (occurs dot (host ip) == 3) then ips else without (host ip) ips

same_text_refl : (s : List ℕ) → same_text s s ≡ true
same_text_refl [] = refl
same_text_refl (a ∷ s) = ground (arith, same_text_refl s)

-- What was added is there, whatever its port.
add_perm_ip-listed :
    (ip : List ℕ) (ips : List (List ℕ))
    → occurs dot (host ip) ≡ 3
    → is_listed (host ip) (add_perm_ip ip ips) ≡ true
unfolding add_perm_ip
add_perm_ip-listed ip ips h = ground (arith, same_text_refl (host ip))

without-listed : (ip : List ℕ) (ips : List (List ℕ)) → is_listed ip (without ip ips) ≡ false
without-listed ip [] = refl
without-listed ip (k ∷ ips) = ground (arith, without-listed ip ips)

remove_perm_ip-listed :
    (ip : List ℕ) (ips : List (List ℕ))
    → occurs dot (host ip) ≡ 3
    → is_listed (host ip) (remove_perm_ip ip ips) ≡ false
unfolding remove_perm_ip
remove_perm_ip-listed ip ips h = ground (arith, without-listed (host ip) ips)
