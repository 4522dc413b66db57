-- ===== src/Proto/Writer/Puts.antt =====
-- What the methods of internal/proto/writer.go write.
use eswim.Base.{
  ℕ, zero, suc, ◌≤◌, ◌≡◌, refl, sym, ap, ◌∙◌, Option, some, List, [], ◌∷◌, ◌++◌, take, drop, length,
  length-append, length-take, length-drop, take-append, drop-append, take-append-drop, arith,
  if◌then◌else◌,
}
use mathlib.Core.List.{append_assoc}
use eswim.Proto.Bytes.{u16_bytes, u32_bytes}
use eswim.Proto.Ip.{Ip, copy}
use eswim.Proto.Ip
use eswim.Proto.Writer.{
  Writer, new_writer, set_byte, marshal, write_from, advance, u8, u16, u32, bytes, encoder, ip,
  ◌>>=◌, ◌then◌, write_into,
}

-- A writer behind the bytes `past`, with the bytes `ahead` of its buffer still to come.
abbrev pub at : List ℕ → List ℕ → Writer
at past ahead = record { buffer = past ++ ahead; cursor = length past }

-- The operation writes the bytes `bs`, over as many bytes of the buffer, and stands behind them.
pub record Puts (f : Writer → Option Writer) (bs : List ℕ) : Type 0 where
  pub puts :
      (past old ahead : List ℕ)
      → length old ≡ length bs
      → f (at past (old ++ ahead)) ≡ some (at (past ++ bs) ahead)

-- The function writes the bytes `bs` at the start of a buffer that has room for them, and leaves the
-- rest of it.
pub record Fills (f : List ℕ → Option (List ℕ)) (bs : List ℕ) : Type 0 where
  pub fills : (old ahead : List ℕ) → length old ≡ length bs → f (old ++ ahead) ≡ some (bs ++ ahead)

take-all : (n : ℕ) (xs : List ℕ) → length xs ≤ n → take n xs ≡ xs
take-all zero [] h = refl
take-all zero (x ∷ xs) h = absurd (omega arith)
take-all (suc n) [] h = refl
take-all (suc n) (x ∷ xs) h = ap (◌∷◌ x) (take-all n xs (omega arith))

drop-past :
    (past : List ℕ) (x : ℕ) (ahead : List ℕ)
    → drop (suc (length past)) (past ++ (x ∷ ahead)) ≡ ahead
drop-past [] x ahead = refl
drop-past (y ∷ past) x ahead = drop-past past x ahead

pub write_from-past :
    (f : List ℕ → Option (List ℕ)) (past rest : List ℕ)
    → write_from (length past) f (past ++ rest) ≡ (f rest >>= λ r. some (past ++ r))
unfolding write_from
write_from-past f past rest =
    rw (drop-append past rest, take-append past rest) (ground (arith, length-append past rest))

advance-Puts :
    (f : List ℕ → Option (List ℕ)) (bs : List ℕ) → Fills f bs → Puts (advance (length bs) f) bs
unfolding advance
advance-Puts f bs h = record {
  puts = λ past old ahead e.
      rw
        (
          write_from-past f past (old ++ ahead),
          h.fills old ahead e,
          append_assoc past bs ahead,
          length-append past bs,
        )
        refl;
}

marshal-Fills : (bs : List ℕ) → Fills (marshal bs) bs
unfolding marshal
marshal-Fills bs = record {
  fills = λ old ahead e. rw (← e, drop-append old ahead) (ground (arith, length-append old ahead));
}

copy-Fills : (bs : List ℕ) → Fills (λ into. some (copy into bs)) bs
unfolding copy
copy-Fills bs = record {
  fills = λ old ahead e.
      rw
        (
          ← e,
          drop-append old ahead,
          take-all (length (old ++ ahead)) bs (omega (arith, length-append old ahead)),
        )
        refl;
}

pub u16-Puts : (val : ℕ) → Puts (u16 val) (u16_bytes val)
unfolding u16
u16-Puts val =
    advance-Puts (marshal (u16_bytes val)) (u16_bytes val) (marshal-Fills (u16_bytes val))

pub u32-Puts : (val : ℕ) → Puts (u32 val) (u32_bytes val)
unfolding u32
u32-Puts val =
    advance-Puts (marshal (u32_bytes val)) (u32_bytes val) (marshal-Fills (u32_bytes val))

pub bytes-Puts : (value : List ℕ) → Puts (bytes value) value
unfolding bytes
bytes-Puts value = advance-Puts (λ into. some (copy into value)) value (copy-Fills value)

pub ip-Puts : (addr : Ip) → Puts (ip addr) (Ip.bytes addr)
unfolding ip
ip-Puts addr = bytes-Puts (Ip.bytes addr)

pub encoder-Puts :
    (encode : List ℕ → Option (List ℕ)) (bs : List ℕ) (size : ℕ)
    → length bs ≡ size
    → Fills encode bs
    → Puts (encoder encode size) bs
unfolding encoder
encoder-Puts encode bs size e h = rw (← e) (advance-Puts encode bs h)

pub u8-Puts : (b : ℕ) → Puts (u8 b) (b ∷ [])
unfolding u8 set_byte
u8-Puts b = record { puts = one }
  where
    one :
        (past old ahead : List ℕ)
        → length old ≡ 1
        → u8 b (at past (old ++ ahead)) ≡ some (at (past ++ (b ∷ [])) ahead)
    one past [] ahead e = absurd (omega arith)
    one past (x ∷ y ∷ old) ahead e = absurd (omega arith)
    one past (x ∷ []) ahead e =
        rw (take-append past (x ∷ ahead), drop-past past x ahead, append_assoc past (b ∷ []) ahead)
          (ground (arith, length-append past (x ∷ ahead), length-append past (b ∷ [])))

pub then-Puts :
    {f g : Writer → Option Writer} {xs ys : List ℕ}
    → Puts f xs
    → Puts g ys
    → Puts (f then g) (xs ++ ys)
then-Puts {f} {g} {xs} {ys} p q = record { puts = both }
  where
    both :
        (past old ahead : List ℕ)
        → length old ≡ length (xs ++ ys)
        → (f then g) (at past (old ++ ahead)) ≡ some (at (past ++ (xs ++ ys)) ahead)
    both past old ahead e =
        let first = take (length xs) old in
        let second = drop (length xs) old in
        let l = length-append xs ys in
        let parts : old ++ ahead ≡ first ++ (second ++ ahead) =
          ap (λ o. o ++ ahead) (sym (take-append-drop (length xs) old))
          ∙ append_assoc first second ahead in
        rw
          (
            parts,
            p.puts past first (second ++ ahead) (length-take (length xs) old (omega (arith, l, e))),
            q.puts (past ++ xs) second ahead (omega (arith, length-drop (length xs) old, l, e)),
            append_assoc past xs ys,
          )
          refl

pub write_into-Fills :
    {f : Writer → Option Writer} {bs : List ℕ} → Puts f bs → Fills (write_into f) bs
unfolding write_into new_writer
write_into-Fills p = record { fills = λ old ahead e. rw (p.puts [] old ahead e) refl }
