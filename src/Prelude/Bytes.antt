-- ===== src/Prelude/Bytes.antt =====
-- Byte slices as lists of numbers, and the fixed-width integers of encoding/binary.
use Prim.Native.Char.{code}
use Prim.Native.String.{String}
use go_firebird_driver.Prelude.{
  Bool, true, false, ◌==◌, ◌&&◌, ◌↔◌, ℕ, ◌+◌, ◌*◌, ◌/◌, ◌%◌, ◌^◌, ◌<◌, ◌≡◌, List, [], ◌∷◌, ◌++◌,
  arith, All, get_or,
}

abbrev pub Bytes : Type 0
Bytes = List ℕ

abbrev pub IsByte : ℕ → Type 0
IsByte b = b < 256

abbrev pub IsBytes : Bytes → Type 0
IsBytes = All IsByte

-- The code points of a text, which are its bytes where the text is ASCII.
abbrev pub codes : String → Bytes
codes String.[] = []
codes (String.◌∷◌ c s) = code c ∷ codes s

-- `s == ""`
abbrev pub is_empty : Bytes → Bool
is_empty [] = true
is_empty (b ∷ bs) = false

-- `a == b` of two Go strings
unfoldable pub equal : Bytes → Bytes → Bool
equal [] [] = true
equal [] (y ∷ ys) = false
equal (x ∷ xs) [] = false
equal (x ∷ xs) (y ∷ ys) = x == y && equal xs ys

pub equal_iff : (a b : Bytes) → (equal a b ≡ true) ↔ (a ≡ b)
unfolding equal
equal_iff [] [] = ground arith
equal_iff [] (y ∷ ys) = ground arith
equal_iff (x ∷ xs) [] = ground arith
equal_iff (x ∷ xs) (y ∷ ys) = ground (arith, equal_iff xs ys)

-- A conversion `byte(v)`.
abbrev pub byte : ℕ → ℕ
byte v = v % 256

-- `b[i]`, where the caller has checked the index.
abbrev pub at : Bytes → ℕ → ℕ
at bs i = get_or bs i 0

-- binary.BigEndian.PutUint32 and PutUint64, as the bytes that they store.
abbrev pub be32 : ℕ → Bytes
be32 v = byte (v / 2 ^ 24) ∷ byte (v / 2 ^ 16) ∷ byte (v / 2 ^ 8) ∷ byte v ∷ []

abbrev pub be64 : ℕ → Bytes
be64 v = be32 (v / 2 ^ 32) ++ be32 (v % 2 ^ 32)

abbrev pub le16 : ℕ → Bytes
le16 v = byte v ∷ byte (v / 2 ^ 8) ∷ []

abbrev pub le32 : ℕ → Bytes
le32 v = byte v ∷ byte (v / 2 ^ 8) ∷ byte (v / 2 ^ 16) ∷ byte (v / 2 ^ 24) ∷ []

-- binary.LittleEndian.Uint16 and Uint32 on the first bytes of a slice that is long enough.
abbrev pub uint16_le : Bytes → ℕ
uint16_le bs = at bs 0 + at bs 1 * 2 ^ 8

abbrev pub uint32_le : Bytes → ℕ
uint32_le bs = at bs 0 + at bs 1 * 2 ^ 8 + at bs 2 * 2 ^ 16 + at bs 3 * 2 ^ 24

pub uint16_le-le16 : (v : ℕ) (rest : Bytes) → v < 2 ^ 16 → uint16_le (le16 v ++ rest) ≡ v
uint16_le-le16 v rest h = omega arith

pub uint32_le-le32 : (v : ℕ) (rest : Bytes) → v < 2 ^ 32 → uint32_le (le32 v ++ rest) ≡ v
uint32_le-le32 v rest h = omega arith
