-- ===== src/Options/Normal.antt =====
-- What normalize of options.go gives, and whom the process knows of, server.go.
use eswim.Base.{
  ℕ, ◌≡◌, ◌≢◌, ◌↔◌, ◌⊎◌, true, ◌==◌, if◌then◌else◌, false, Option, none, some, List, length, arith,
}
use eswim.Base.Int.{ℤ, pos, is_zero}
use eswim.Options.{Options, FamilyAddr, unset, ignored, address, half, normalize}

-- Options are refused exactly when a key is needed and the one that is given has not sixteen bytes.
normalize-none_iff :
    (default4 default6 : Option (List ℕ)) (o : Options)
    → (normalize default4 default6 o ≡ none)
      ↔ ((o.insecure_disable_crypto ≡ false) × (length o.crypto_key ≢ 16))
unfolding normalize
normalize-none_iff default4 default6 o = ground arith

-- A setting is kept, or it was zero and has its default.
abbrev pub Setting : ℤ → ℤ → ℤ → Type 0
Setting default given value =
    ((is_zero given ≡ false) × (value ≡ given)) ⊎ ((is_zero given ≡ true) × (value ≡ default))

abbrev pub found_or_ignored : Option (List ℕ) → FamilyAddr
found_or_ignored none = ignored
found_or_ignored (some ip) = address ip

abbrev pub Address : Option (List ℕ) → FamilyAddr → FamilyAddr → Type 0
Address found given value =
    ((given ≢ unset) × (value ≡ given)) ⊎ ((given ≡ unset) × (value ≡ found_or_ignored found))

-- What the comments of options.go say of each setting of the options `n` that `o` become.
pub record IsNormal (default4 default6 : Option (List ℕ)) (o n : Options) : Type 0 where
  pub has_key : (n.insecure_disable_crypto ≡ true) ⊎ (length n.crypto_key ≡ 16)
  pub same_key : n.crypto_key ≡ o.crypto_key
  pub protocol_period : Setting (pos 2000000000) o.protocol_period n.protocol_period
  pub ping_timeout : Setting (half n.protocol_period) o.ping_timeout n.ping_timeout
  pub udp_max_length : Setting (pos 1200) o.udp_max_length n.udp_max_length
  pub indirect_pings : Setting (pos 2) o.indirect_pings n.indirect_pings
  pub suspect_periods :
      ((o.suspect_periods ≢ 0) × (n.suspect_periods ≡ o.suspect_periods))
      ⊎ ((o.suspect_periods ≡ 0) × (n.suspect_periods ≡ 20))
  pub full_sync_protocol_rounds :
      Setting (pos 300) o.full_sync_protocol_rounds n.full_sync_protocol_rounds
  pub ipv4_address : Address default4 o.ipv4_address n.ipv4_address
  pub ipv6_address : Address default6 o.ipv6_address n.ipv6_address

abbrev or_twenty : ℕ → ℕ
or_twenty x = if x == 0 then 20 else x
