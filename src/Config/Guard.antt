-- ===== src/Config/Guard.antt =====
-- src/config.cpp: what a configuration that is accepted has.
use somnium_db.Prelude.{
  ℕ, ◌/◌, ◌^◌, ◌<◌, ◌≡◌, ◌∙◌, ◌⊎◌, refl, sym, ap, subst, arith, Bool, true, false, Option, none,
  some, [], length, Bytes, codes, if◌then◌else◌,
}
use somnium_db.Config.{
  Libc, Config, ◌>>=◌, text_or, u64_required, read_port, read_maxclients, exposed, load_config,
}

bind-some {ℓ κ} :
    {A : Type ℓ} {B : Type κ} (o : Option A) (f : A → Option B) (b : B)
    → (o >>= f) ≡ some b
    → (a : A) × (o ≡ some a) × (f a ≡ some b)
bind-some none f b h = absurd (cc h)
bind-some (some a) f b h = (a, refl, h)

unless-some :
    (refused : Bool) (c d : Config)
    → (if refused then none else some c) ≡ some d
    → (refused ≡ false) × (c ≡ d)
unless-some true c d h = absurd (cc h)
unless-some false c d h = (refl, cc)

exposed-false :
    (addr : ℕ) (password : Bytes)
    → exposed addr password ≡ false
    → (addr / 2 ^ 24 ≡ 127) ⊎ (0 < length password)
unfolding exposed
exposed-false addr password h = ground arith

read_maxclients_pos : (v : Option Bytes) (n : ℕ) → read_maxclients v ≡ some n → 0 < n
unfolding read_maxclients
read_maxclients_pos none n h = ground arith
read_maxclients_pos (some v) n h = ground arith

-- A configuration that is accepted has an address that `inet_pton` reads, and a password unless that
-- address is in 127.0.0.0/8; it serves at least one client.
pub load_config-guarded :
    (libc : Libc) (c : Config)
    → load_config libc ≡ some c
    → (addr : ℕ) × (libc.inet_pton c.bind ≡ some addr)
      × ((addr / 2 ^ 24 ≡ 127) ⊎ (0 < length c.password))
      × (0 < c.maxclients)
unfolding load_config
load_config-guarded libc c h =
    let (port, _, h₁) = bind-some (read_port libc (libc.getenv (codes "REDIS_PORT"))) _ c h in
    let (maxclients, at_least, h₂) =
      bind-some (read_maxclients (libc.getenv (codes "SOMNIUM_MAXCLIENTS"))) _ c h₁ in
    let (buffers, _, h₃) =
      bind-some (u64_required (2 ^ 30) (libc.getenv (codes "SOMNIUM_MAX_CLIENT_BUFFERS"))) _ c h₂ in
    let (addr, found, h₄) =
      bind-some (libc.inet_pton (text_or (codes "127.0.0.1") (libc.getenv (codes "SOMNIUM_BIND"))))
        _ c h₃ in
    let (safe, same) =
      unless-some (exposed addr (text_or [] (libc.getenv (codes "SOMNIUM_PASSWORD")))) _ c h₄ in
    (
      addr,
      ap (λ (d : Config). libc.inet_pton d.bind) (sym same) ∙ found,
      subst (λ (d : Config). (addr / 2 ^ 24 ≡ 127) ⊎ (0 < length d.password)) same
          (exposed-false addr _ safe),
      subst (λ (d : Config). 0 < d.maxclients) same
          (read_maxclients_pos (libc.getenv (codes "SOMNIUM_MAXCLIENTS")) maxclients at_least),
    )
