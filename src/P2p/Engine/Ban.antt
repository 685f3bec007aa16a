-- ===== src/P2p/Engine/Ban.antt =====
-- The lock-out of a peer that guesses tokens.
use ph_reactor.Base.{ℕ, ◌≤◌, ◌<◌, ◌≡◌, true, some, String, false, ◌⊎◌}
use ph_reactor.Base.Eq.{◌==◌, string_eq}
use ph_reactor.Base.Map.{lookup}
use ph_reactor.Base.Sets.{contains}
use ph_reactor.P2p.Codec.{Hello, banned, protocol_version}
use ph_reactor.P2p.Engine.{Peer, Instant, Engine, auth_ban_after}

abbrev IsBanned : Peer → Engine → Type 0
IsBanned peer e = contains peer e.banned ≡ true

-- Locked out, or with at least `n` failures counted, the last one at `t`.
abbrev Struck : ℕ → Instant → Peer → Engine → Type 0
Struck n t peer e =
    IsBanned peer e
    ⊎ ((c : ℕ) × (lookup peer e.auth_failures ≡ some (c, t)) × (n ≤ c) × (c < auth_ban_after))

-- A hello of this version whose token is not the one that is asked for.
pub record WrongHello (need : String) (h : Hello) : Type 0 where
  pub version : h.version ≡ protocol_version
  pub offered : String
  pub carried : h.token ≡ some offered
  pub differs : (offered == need) ≡ false
