-- ===== src/Web/Serve/Ports.antt =====
-- src/web/mod.rs: the ports that the bots get.
use sipbot.Prelude.{
  ℕ, zero, suc, ◌≡◌, refl, ap, arith, ◌==◌, ◌&&◌, true, false, Option, none, some, is_none, List,
  [], ◌∷◌, ◌++◌, All, Bool-cases, Option-cases, inl, inr, if◌then◌else◌, map,
}
use sipbot.Prelude.Text.{Text}
use sipbot.Config.Account.{AccountConfig}
use sipbot.Config.Strategy.{Config, strategy_for, apply_to}
use sipbot.Config.Transport.{TransportKind}
use sipbot.Web.Serve.{
  SocketAddr, System, has, BotHandle, is_disabled, is_bound_by_port, kind_of, probe_from,
  pick_free_bind_addr, insert_port, pick_for, bot_of, spawn_from, spawn_bots,
}

-- the ports of the addresses that were found
abbrev pub ports : List BotHandle → List ℕ
ports [] = []
ports (b ∷ bots) = elim b.picked [ none ↦ ports bots | some addr ↦ addr.port ∷ ports bots ]

abbrev pub AreDistinct : List ℕ → Type 0
AreDistinct [] = Unit
AreDistinct (p ∷ ps) = All (λ q. (q == p) ≡ false) ps × AreDistinct ps

-- the keys of the accounts that are not disabled
abbrev pub enabled_keys : List AccountConfig → List Text
enabled_keys [] = []
enabled_keys (a ∷ accounts) =
    if is_disabled a
    then enabled_keys accounts
    else (a.username ++ b'@' ∷ a.domain) ∷ enabled_keys accounts

-- What a search found is free and not used.
abbrev IsFree : System → TransportKind → List ℕ → Option SocketAddr → Type 0
IsFree system kind used none = Unit
IsFree system kind used (some addr) =
    (has addr.port used ≡ false) × (system.can_bind kind addr ≡ true)

All-weaken :
    {A : Type 0} (P Q : A → Type 0) (xs : List A) → ((x : A) → P x → Q x) → All P xs → All Q xs
All-weaken P Q [] keeps h = tt
All-weaken P Q (x ∷ xs) keeps h = (keeps x h.0, All-weaken P Q xs keeps h.1)

module _ (system : System) where
  probe_from-IsFree :
      (fuel : ℕ) (addr : SocketAddr) (used : List ℕ) (kind : TransportKind)
      → IsFree system kind used (probe_from system fuel addr used kind)
  unfolding probe_from
  probe_from-IsFree zero addr used kind = tt
  probe_from-IsFree (suc fuel) addr used kind = elim (Bool-cases (has addr.port used)) [
    | inl e ↦ rw (probe_from, e) (probe_from-IsFree fuel _ used kind)
    | inr e ↦ elim (Bool-cases (system.can_bind kind addr)) [
      | inl f ↦ rw (probe_from, e, f) (e, f)
      | inr f ↦ rw (probe_from, e, f) (probe_from-IsFree fuel _ used kind)
    ]
  ]

  abbrev IsNew : List ℕ → Option SocketAddr → Type 0
  IsNew used none = Unit
  IsNew used (some addr) = has addr.port used ≡ false

  IsFree-IsNew :
      (kind : TransportKind) (used : List ℕ) (o : Option SocketAddr)
      → IsFree system kind used o
      → IsNew used o
  IsFree-IsNew kind used none h = tt
  IsFree-IsNew kind used (some addr) h = h.0

  pick_free_bind_addr-IsNew :
      (base : Text) (used : List ℕ) (kind : TransportKind)
      → IsNew used (pick_free_bind_addr system base used kind)
  unfolding pick_free_bind_addr
  pick_free_bind_addr-IsNew base used kind = elim (Option-cases (system.parse_addr base)) [
    | inl e ↦ rw (pick_free_bind_addr, e) tt
    | inr (addr, e) ↦
        rw (pick_free_bind_addr, e) (IsFree-IsNew kind used _ (probe_from-IsFree 50 addr used kind))
  ]

  pick_for-IsNew :
      (config : Config) (a : AccountConfig) (used : List ℕ)
      → IsNew used (pick_for system config a used)
  unfolding pick_for
  pick_for-IsNew config a used =
      elim (Bool-cases (is_none a.transport_addr && is_bound_by_port (kind_of a))) [
        | inl e ↦ rw (pick_for, e) (pick_free_bind_addr-IsNew _ used (kind_of a))
        | inr e ↦ rw (pick_for, e) tt
      ]

  abbrev Apart : List ℕ → List BotHandle → Type 0
  Apart used bots = All (λ p. has p used ≡ false) (ports bots) × AreDistinct (ports bots)

  -- One more bot, whose address is new.
  Apart-bot_of :
      (used : List ℕ) (a : AccountConfig) (picked : Option SocketAddr) (bots : List BotHandle)
      → IsNew used picked
      → Apart (insert_port system picked used) bots
      → Apart used (bot_of system a picked ∷ bots)
  unfolding bot_of has
  Apart-bot_of used a none bots new h = h
  Apart-bot_of used a (some addr) bots new h = (
    (new, All-weaken _ _ (ports bots) (λ p k. ground (arith, k)) h.0),
    (All-weaken _ _ (ports bots) (λ p k. ground (arith, k)) h.0, h.1),
  )

  spawn_from-Apart :
      (config : Config) (accounts : List AccountConfig) (used : List ℕ)
      → Apart used (spawn_from system config accounts used)
  unfolding spawn_from
  spawn_from-Apart config [] used = (tt, tt)
  spawn_from-Apart config (a ∷ accounts) used = elim (Bool-cases (is_disabled a)) [
    | inl e ↦ rw (spawn_from, e) (spawn_from-Apart config accounts used)
    | inr e ↦
        let merged = apply_to (strategy_for config a) a in
        let picked = pick_for system config merged used in
        rw (spawn_from, e)
          (Apart-bot_of used merged picked
            (spawn_from system config accounts (insert_port system picked used))
            (pick_for-IsNew config merged used)
            (spawn_from-Apart config accounts (insert_port system picked used)))
  ]

  abbrev pub keys : List BotHandle → List Text
  keys bots = map (λ (b : BotHandle). b.key) bots

  keys-spawn_from :
      (config : Config) (accounts : List AccountConfig) (used : List ℕ)
      → keys (spawn_from system config accounts used) ≡ enabled_keys accounts
  unfolding spawn_from bot_of apply_to
  keys-spawn_from config [] used = refl
  keys-spawn_from config (a ∷ accounts) used = elim (Bool-cases (is_disabled a)) [
    | inl e ↦ rw (spawn_from, e) (keys-spawn_from config accounts used)
    | inr e ↦
        let picked = pick_for system config (apply_to (strategy_for config a) a) used in
        rw (spawn_from, e)
          (ap (λ ks. (a.username ++ b'@' ∷ a.domain) ∷ ks)
            (keys-spawn_from config accounts (insert_port system picked used)))
  ]

  -- One bot is spawned for each account that is not disabled, in their order, and no two of them get
  -- the same port, as far as the ports were chosen for them.
  pub spawn_bots_lem :
      (config : Config)
      → (keys (spawn_bots system config []) ≡ enabled_keys config.accounts)
        × AreDistinct (ports (spawn_bots system config []))
  unfolding spawn_bots
  spawn_bots_lem config =
      (keys-spawn_from config config.accounts [], (spawn_from-Apart config config.accounts []).1)
