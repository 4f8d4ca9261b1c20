-- ===== src/Frames.antt =====
-- How messages travel over a local socket: the sizes that sendCommand of
-- bf-link/bflocalcontrolprivate.cpp and sendResponse of bf-link/bflocalserver.cpp write in front of
-- them, and the slots onReadyRead and onLocalReadyRead that read them. A `qint32` is its 32-bit word,
-- and an `int` in memory its bytes from the lowest, as on the machines that the code is for.
pub mod Sizes
pub mod Slot
pub mod Chunks
use bf.Base.{
  ℕ, zero, suc, ◌+◌, ◌*◌, ◌^◌, Bool, ◌&&◌, not, ltb, List, [], ◌∷◌, ◌++◌, length, take, drop,
  Option, none, some, if◌then◌else◌,
}
use bf.Base.Bytes.{le32}

-- What a socket's slot keeps between its calls, with the bytes that the socket holds.
pub record Reader : Type 0 where
  pub wanted : ℕ
  pub available : List ℕ

-- A `qint32` that is above 0.
abbrev pub positive : ℕ → Bool
positive w = ltb 0 w && ltb w (2 ^ 31)

-- The size and the message, before the bytes that follow.
unfoldable pub write_frame : List ℕ → List ℕ → List ℕ
write_frame message rest = le32 (length message) (message ++ rest)

-- A read of four bytes, where there are so many.
unfoldable pub read_int : ℕ → List ℕ → Reader
read_int w (a ∷ b ∷ c ∷ d ∷ rest) = record {
  wanted = a + 256 * b + 65536 * c + 16777216 * d;
  available = rest;
}
read_int w bytes = record { wanted = w; available = bytes }

unfoldable pub read_size : Reader → Reader
unfolding read_int
read_size r = if positive r.wanted then r else read_int r.wanted r.available

-- `handle` is what is done with a message. `none` means that the fuel ran out.
module _ {S : Type 0} (handle : S → List ℕ → S) where
  unfoldable pub on_ready_read : ℕ → Reader → S → Option (Reader × S)
  unfolding read_size
  on_ready_read zero r s = none
  on_ready_read (suc fuel) r s =
      let r1 = read_size r in
      let s' = handle s (take r1.wanted r1.available) in
      let r2 : Reader = record { wanted = 0; available = drop r1.wanted r1.available } in
      let again = on_ready_read fuel r2 s' in
      if positive r1.wanted && not (ltb (length r1.available) r1.wanted)
      then if ltb 0 (length r2.available) then again else some (r2, s')
      else some (r1, s)

  -- Bytes that arrive, after which the slot is called.
  unfoldable pub on_chunk : Reader → S → List ℕ → Option (Reader × S)
  unfolding on_ready_read
  on_chunk r s bytes =
      let available = r.available ++ bytes in
      on_ready_read (suc (length available)) (record r { available = available }) s

  unfoldable pub on_chunks : Reader → S → List (List ℕ) → Option (Reader × S)
  unfolding on_chunk
  on_chunks r s [] = some (r, s)
  on_chunks r s (c ∷ cs) = elim (on_chunk r s c) [
    | none ↦ none
    | some (r', s') ↦ on_chunks r' s' cs
  ]
