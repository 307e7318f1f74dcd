-- ===== src/Wol/Packet.antt =====
-- `_parse_mac` and the magic packet of server/app/wol.py.
use Prim.Native.Char.{code}
use ups_orchestrator.Prelude.{
  ℕ, suc, ◌+◌, ◌-◌, ◌*◌, ◌≡◌, refl, String, Bool, ◌&&◌, ◌||◌, Option, none, some, List, [], ◌∷◌,
  ◌++◌, arith, length, replicate, leb, ◌==◌, if◌then◌else◌, length-append,
}

-- The code points of a text.
abbrev pub codes : String → List ℕ
codes String.[] = []
codes (String.◌∷◌ c s) = code c ∷ codes s

-- `text.replace(c, "")` for a text `c` of one character.
pub remove : ℕ → List ℕ → List ℕ
remove c [] = []
remove c (x ∷ xs) = let rest = remove c xs in if x == c then rest else x ∷ rest

-- The value of a hexadecimal digit.
pub hex_digit : ℕ → Option ℕ
hex_digit c =
    if leb b'0' c && leb c b'9'
    then some (c - b'0')
    else if leb b'a' c && leb c b'f'
    then some (c - b'a' + 10)
    else if leb b'A' c && leb c b'F'
    then some (c - b'A' + 10)
    else none

-- The ASCII white space that `bytes.fromhex` skips between two bytes.
is_space : ℕ → Bool
is_space c = c == 32 || leb 9 c && leb c 13

join_digits : Option ℕ → Option ℕ → Option (List ℕ) → Option (List ℕ)
join_digits (some h) (some l) (some rest) = some ((16 * h + l) ∷ rest)
join_digits _ _ _ = none

-- `bytes.fromhex`, `none` where it raises ValueError.
pub from_hex : List ℕ → Option (List ℕ)
unfolding is_space join_digits hex_digit
from_hex [] = some []
from_hex (c ∷ []) = if is_space c then some [] else none
from_hex (c ∷ d ∷ xs) =
    let skipped = from_hex (d ∷ xs) in
    let rest = from_hex xs in
    if is_space c then skipped else join_digits (hex_digit c) (hex_digit d) rest

pub data MacError : Type 0 where
  not_hex : MacError
  invalid_mac : String → MacError

pub data MacResult : Type 0 where
  mac : List ℕ → MacResult
  bad_mac : MacError → MacResult

check_mac : String → Option (List ℕ) → MacResult
check_mac mac_address none = bad_mac not_hex
check_mac mac_address (some mac_bytes) =
    if length mac_bytes == 6 then mac mac_bytes else bad_mac (invalid_mac mac_address)

-- `mac_address.replace(":", "").replace("-", "")`
abbrev pub mac_hex : String → List ℕ
mac_hex mac_address = remove b'-' (remove b':' (codes mac_address))

unfoldable pub parse_mac : String → MacResult
unfolding check_mac from_hex remove
parse_mac mac_address = check_mac mac_address (from_hex (mac_hex mac_address))

-- `bytes * n`
pub repeat : ℕ → List ℕ → List ℕ
repeat ℕ.zero bytes = []
repeat (suc n) bytes = bytes ++ repeat n bytes

-- b"\xff" * 6 + mac_bytes * 16
unfoldable pub magic_packet : List ℕ → List ℕ
unfolding repeat
magic_packet mac_bytes = replicate 6 255 ++ repeat 16 mac_bytes

length-repeat : (n : ℕ) (bytes : List ℕ) → length (repeat n bytes) ≡ n * length bytes
unfolding repeat
length-repeat ℕ.zero bytes = omega arith
length-repeat (suc n) bytes =
    omega (arith, length-append bytes (repeat n bytes), length-repeat n bytes)

check_mac-length :
    (a : String) (o : Option (List ℕ)) {bytes : List ℕ}
    → check_mac a o ≡ mac bytes
    → length bytes ≡ 6
unfolding check_mac
check_mac-length a none h = cc
check_mac-length a (some found) h = ground arith

-- A text that parses gives six bytes.
parse_mac-length : (a : String) {bytes : List ℕ} → parse_mac a ≡ mac bytes → length bytes ≡ 6
unfolding parse_mac
parse_mac-length a h = check_mac-length a (from_hex (mac_hex a)) h

-- The packet for an address that parses is the 102 bytes that the protocol asks for.
pub length-magic_packet :
    (a : String) {bytes : List ℕ} → parse_mac a ≡ mac bytes → length (magic_packet bytes) ≡ 102
unfolding magic_packet
length-magic_packet a {bytes} h = omega (arith, length-repeat 16 bytes, parse_mac-length a h)

sample : parse_mac "AA:bb-0c:00:01:ff" ≡ mac (170 ∷ 187 ∷ 12 ∷ 0 ∷ 1 ∷ 255 ∷ [])
unfolding parse_mac
sample = refl
