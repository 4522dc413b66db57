-- ===== src/Proto/Writer.antt =====
-- The writer that messages are encoded by: internal/proto/writer.go. It writes into a buffer that it is
-- given; `none` is a panic, at an index or a slice out of range.
pub mod Encoders
pub mod Puts
pub mod Fills
use eswim.Base.{
  ℕ, suc, ◌+◌, leb, ltb, Option, none, some, List, [], ◌∷◌, ◌++◌, take, drop, length, if◌then◌else◌,
}
use eswim.Proto.Bytes.{u16_bytes, u32_bytes}
use eswim.Proto.Ip.{Ip, copy}
use eswim.Proto.Ip

infixl 5 ◌>>=◌
abbrev pub ◌>>=◌ : {A B : Type 0} → Option A → (A → Option B) → Option B
◌>>=◌ none f = none
◌>>=◌ (some x) f = f x

pub record Writer : Type 0 where
  pub buffer : List ℕ
  pub cursor : ℕ

-- `newWriter`
unfoldable pub new_writer : List ℕ → Writer
new_writer buf = record { buffer = buf; cursor = 0 }

-- `buf[i] = b`
unfoldable pub set_byte : ℕ → ℕ → List ℕ → Option (List ℕ)
set_byte i b buf = if ltb i (length buf) then some (take i buf ++ (b ∷ drop (suc i) buf)) else none

-- `u16Marshal` and `u32Marshal`, at the bytes of the value: they write at the start of a slice that is
-- long enough.
unfoldable pub marshal : List ℕ → List ℕ → Option (List ℕ)
marshal bs into = if leb (length bs) (length into) then some (bs ++ drop (length bs) into) else none

-- What `f` writes into `buf[i:]`, which shares its memory with `buf`.
unfoldable pub write_from : ℕ → (List ℕ → Option (List ℕ)) → List ℕ → Option (List ℕ)
write_from i f buf =
    if leb i (length buf) then (do rest ← f (drop i buf); some (take i buf ++ rest)) else none

-- A method of the writer that leaves the cursor `n` bytes further on.
unfoldable pub advance : ℕ → (List ℕ → Option (List ℕ)) → Writer → Option Writer
unfolding write_from
advance n f w = do
  buf ← write_from w.cursor f w.buffer
  some (record { buffer = buf; cursor = w.cursor + n })

unfoldable pub u8 : ℕ → Writer → Option Writer
unfolding set_byte
u8 b w = do
  buf ← set_byte w.cursor b w.buffer
  some (record { buffer = buf; cursor = w.cursor + 1 })

unfoldable pub u16 : ℕ → Writer → Option Writer
unfolding marshal
u16 val w = advance 2 (marshal (u16_bytes val)) w

unfoldable pub u32 : ℕ → Writer → Option Writer
unfolding marshal
u32 val w = advance 4 (marshal (u32_bytes val)) w

unfoldable pub bytes : List ℕ → Writer → Option Writer
bytes value w = advance (length value) (λ into. some (copy into value)) w

-- `encoder`, given the Encode of the object and its RequiredSize.
unfoldable pub encoder : (List ℕ → Option (List ℕ)) → ℕ → Writer → Option Writer
encoder encode size w = advance size encode w

unfoldable pub ip : Ip → Writer → Option Writer
unfolding bytes
ip addr w = bytes (Ip.bytes addr) w

-- `a.f().g()`
infixr 5 ◌then◌
abbrev pub ◌then◌ : (Writer → Option Writer) → (Writer → Option Writer) → Writer → Option Writer
(f then g) w = do v ← f w; g v

-- `newWriter(into).f()`: the buffer afterwards.
unfoldable pub write_into : (Writer → Option Writer) → List ℕ → Option (List ℕ)
unfolding new_writer
write_into f into = do w ← f (new_writer into); some w.buffer
