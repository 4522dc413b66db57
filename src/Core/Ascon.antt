-- ===== src/Core/Ascon.antt =====
-- The wrapper around the ASCON cipher: internal/core/ascon.go. The cipher itself is a library, and so a
-- parameter. The mutexes are left out; a nonce is what `rand.Read` fills sixteen bytes with, or
-- `none` where it fails.
use eswim.Base.{
  ℕ, ◌==◌, ltb, ◌<◌, ◌≡◌, ◌∙◌, Bool, true, Option, none, some, List, ◌++◌, length, take, drop,
  subst, take-append, drop-append, length-append, if◌then◌else◌, arith,
}

-- `ascon.New` at Ascon128a takes some keys, and `Open` undoes `Seal` under the same key and nonce, as
-- the library documents it.
pub record Cipher : Type 0 where
  pub accepts : List ℕ → Bool
  pub seal : List ℕ → List ℕ → List ℕ → List ℕ
  pub open_text : List ℕ → List ℕ → List ℕ → Option (List ℕ)
  pub open_text-seal :
      (key nonce plain : List ℕ)
      → accepts key ≡ true
      → length nonce ≡ 16
      → open_text key nonce (seal key nonce plain) ≡ some plain

-- `asconWrapper`: the two ciphers of a wrapper have the same key. Without one, it is not enabled.
pub data Ascon : Type 0 where
  disabled : Ascon
  keyed : List ℕ → Ascon

-- What `Open` gives: bytes, nil, or a panic at a slice out of range.
pub data Opened : Type 0 where
  panicked rejected : Opened
  opened : List ℕ → Opened

module _ (cipher : Cipher) where
  -- `NewASCON`
  unfoldable pub new_ascon : List ℕ → Option Ascon
  new_ascon key =
      if length key == 0
      then some disabled
      else if cipher.accepts key
      then some (keyed key)
      else none

  unfoldable pub seal : Ascon → Option (List ℕ) → List ℕ → Option (List ℕ)
  seal disabled random plain = some plain
  seal (keyed key) none plain = none
  seal (keyed key) (some nonce) plain = some (nonce ++ cipher.seal key nonce plain)

  unfoldable pub open_data : Ascon → List ℕ → Opened
  open_data disabled sealed = opened sealed
  open_data (keyed key) sealed =
      if ltb (length sealed) 16
      then panicked
      else (elim (cipher.open_text key (take 16 sealed) (drop 16 sealed)) [
        | none ↦ rejected
        | some plain ↦ opened plain
      ])

  open_text-cut :
      (key nonce text : List ℕ)
      → length nonce ≡ 16
      → cipher.open_text key (take 16 (nonce ++ text)) (drop 16 (nonce ++ text))
        ≡ cipher.open_text key nonce text
  open_text-cut key nonce text h =
      subst
        (λ n.
          cipher.open_text key (take n (nonce ++ text)) (drop n (nonce ++ text))
          ≡ cipher.open_text key nonce text)
        h (rw (take-append nonce text, drop-append nonce text))

  open_data-keyed :
      (key nonce plain : List ℕ)
      → cipher.accepts key ≡ true
      → length nonce ≡ 16
      → open_data (keyed key) (nonce ++ cipher.seal key nonce plain) ≡ opened plain
  unfolding open_data
  open_data-keyed key nonce plain a h =
      let e =
        open_text-cut key nonce (cipher.seal key nonce plain) h
        ∙ cipher.open_text-seal key nonce plain a h in
      let l = length-append nonce (cipher.seal key nonce plain) in ground (arith, e, l, h)

  new_ascon-accepts : (key k : List ℕ) → new_ascon key ≡ some (keyed k) → cipher.accepts k ≡ true
  unfolding new_ascon
  new_ascon-accepts key k h = ground arith

  -- A wrapper that `NewASCON` makes opens what it has sealed under a nonce of sixteen bytes.
  pub open_data-seal :
      (key nonce plain sealed : List ℕ) (a : Ascon)
      → new_ascon key ≡ some a
      → length nonce ≡ 16
      → seal a (some nonce) plain ≡ some sealed
      → open_data a sealed ≡ opened plain
  unfolding seal open_data
  open_data-seal key nonce plain sealed disabled n h e = cc
  open_data-seal key nonce plain sealed (keyed k) n h e =
      subst (λ x. open_data (keyed k) x ≡ opened plain) (cc)
        (open_data-keyed k nonce plain (new_ascon-accepts key k n) h)

  -- A datagram that is shorter than a nonce makes a wrapper with a key panic.
  pub open_data_short :
      (key sealed : List ℕ) → length sealed < 16 → open_data (keyed key) sealed ≡ panicked
  unfolding open_data
  open_data_short key sealed h = ground (arith, h)
