-- ===== src/PeerDmr/Wire.antt =====
-- peer_dmr.c: the packets of the Homebrew login, as lists of bytes.
-- A C string is the list of its characters, with no terminator.
use Prim.Native.String.{String}
use Prim.Native.Char.{code}
use adn_bridge.Prelude.{
  ℕ, ◌-◌, bit_and, ◌>>>◌, Bool, ◌||◌, ◌==◌, true, false, List, [], ◌∷◌, ◌++◌, length, take,
  replicate, min, if◌then◌else◌,
}

-- The bytes of an ASCII literal.
abbrev pub codes : String → List ℕ
codes String.[] = []
codes (String.◌∷◌ c s) = code c ∷ codes s

abbrev pub list_eq : List ℕ → List ℕ → Bool
list_eq [] [] = true
list_eq [] (y ∷ ys) = false
list_eq (x ∷ xs) [] = false
list_eq (x ∷ xs) (y ∷ ys) = elim (x == y) [ true ↦ list_eq xs ys | false ↦ false ]

-- `memcmp(buf, tag, strlen(tag)) == 0`
abbrev pub has_tag : List ℕ → List ℕ → Bool
has_tag buf tag = list_eq (take (length tag) buf) tag

-- `(id >> 24) & 0xff`, and the three lower bytes
unfoldable pub id_bytes : ℕ → List ℕ
id_bytes id =
    bit_and (id >>> 24) 0xff
    ∷ bit_and (id >>> 16) 0xff
    ∷ bit_and (id >>> 8) 0xff
    ∷ bit_and (id >>> 0) 0xff
    ∷ []

-- pad_copy: `src` cut to `n` characters, with spaces behind
unfoldable pub pad_copy : ℕ → List ℕ → List ℕ
pad_copy n src = take n src ++ replicate (n - min (length src) n) 32

-- base_callsign_len: the characters before the first '-', '/' or '_'
unfoldable pub base_callsign : List ℕ → List ℕ
base_callsign [] = []
base_callsign (c ∷ cs) = if c == b'-' || c == b'/' || c == b'_' then [] else c ∷ base_callsign cs

abbrev pub is_empty : List ℕ → Bool
is_empty [] = true
is_empty (x ∷ xs) = false

-- `s[0] ? s : d`
abbrev pub or_default : List ℕ → List ℕ → List ℕ
or_default s d = if is_empty s then d else s
