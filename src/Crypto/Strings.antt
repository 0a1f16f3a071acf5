-- ===== src/Crypto/Strings.antt =====
-- Strings and numbers in code/model.cc: the bits of an integer, the decimal and hexadecimal forms
-- that a stream writes, `std::bitset` and `std::stoul`.
pub mod Laws
use kcp_fake_tcp.Base.{
  ℕ, zero, suc, ◌+◌, ◌-◌, ◌*◌, ◌/◌, ◌%◌, ◌^◌, List, [], ◌∷◌, ◌++◌, true, false, ◌&&◌, Option, none,
  some, ◌==◌, ltb, leb, if◌then◌else◌, length, take, drop, replicate,
}

-- The characters 0 and 1.
abbrev pub char_0 : ℕ
char_0 = 48

abbrev pub char_1 : ℕ
char_1 = 49

-- The value of a `char`, which is signed: at 128 and above the byte stands for itself less 256.
pub data CharValue : Type 0 where
  nonneg : ℕ → CharValue
  negative : ℕ → CharValue

abbrev pub char_value : ℕ → CharValue
char_value c = if ltb c 128 then nonneg c else negative (256 - c)

-- The loop of `getBin` on the magnitude: `x % 2 + '0'` is the character `one` where x is odd.
unfoldable pub get_bin_loop : ℕ → ℕ → ℕ → List ℕ → List ℕ
get_bin_loop zero one x temp = temp
get_bin_loop (suc fuel) one x temp = elim (x == 0) [
  | true ↦ temp
  | false ↦ get_bin_loop fuel one (x / 2) ((if x % 2 == 0 then char_0 else one) ∷ temp)
]

-- For a negative x the remainder is -1, and the character is the one before 0.
unfoldable pub get_bin : CharValue → List ℕ
unfolding get_bin_loop
get_bin (nonneg x) = get_bin_loop x char_1 x []
get_bin (negative x) = get_bin_loop x (char_0 - 1) x []

-- `while (temp.size() % 8 != 0) temp = '0' + temp`, which ends within eight rounds.
unfoldable pub pad_to_byte : ℕ → List ℕ → List ℕ
pad_to_byte zero temp = temp
pad_to_byte (suc fuel) temp = elim (length temp % 8 == 0) [
  | true ↦ temp
  | false ↦ pad_to_byte fuel (char_0 ∷ temp)
]

unfoldable pub add_bin : List ℕ → CharValue → List ℕ
unfolding get_bin pad_to_byte
add_bin res x = res ++ pad_to_byte 8 (get_bin x)

-- `while (temp.size() < 64) temp = '0' + temp`.
unfoldable pub pad_to : ℕ → List ℕ → List ℕ
pad_to size temp = replicate (size - length temp) char_0 ++ temp

-- `std::bitset<width>(x).to_string()`: the lowest bits, the highest of them first.
unfoldable pub bitset_string : ℕ → ℕ → List ℕ
bitset_string zero x = []
bitset_string (suc width) x = (char_0 + x / 2 ^ width % 2) ∷ bitset_string width x

-- A digit as `std::hex` writes it.
abbrev pub hex_digit : ℕ → ℕ
hex_digit d = if ltb d 10 then char_0 + d else 87 + d

-- `setfill('0') << setw(width) << hex << x` for x below 16 ^ width.
unfoldable pub hex_string : ℕ → ℕ → List ℕ
hex_string zero x = []
hex_string (suc width) x = hex_digit (x / 16 ^ width % 16) ∷ hex_string width x

unfoldable pub decimal_loop : ℕ → ℕ → List ℕ → List ℕ
decimal_loop zero x acc = acc
decimal_loop (suc fuel) x acc =
    let acc' = (char_0 + x % 10) ∷ acc in
    let rest = decimal_loop fuel (x / 10) acc' in if x / 10 == 0 then acc' else rest

-- The decimal form of an unsigned number below 10 ^ 20.
unfoldable pub decimal_string : ℕ → List ℕ
unfolding decimal_loop
decimal_string x = decimal_loop 20 x []

-- The value of a digit in `std::stoul`, by base.
unfoldable pub digit_of : ℕ → ℕ → Option ℕ
digit_of base c =
    let d =
      if leb char_0 c && leb c 57
      then c - char_0
      else if leb 97 c && leb c 122
      then c - 87
      else if leb 65 c && leb c 90
      then c - 55
      else base in
    if ltb d base then some d else none

-- `std::stoul(s, nullptr, base)` on a text with no sign, blank or prefix: the leading digits, and
-- an exception (`none`) where there are none. The texts are too short to leave the range.
unfoldable pub stoul_loop : ℕ → ℕ → List ℕ → ℕ
unfolding digit_of
stoul_loop base acc [] = acc
stoul_loop base acc (c ∷ cs) = elim (digit_of base c) [
  | none ↦ acc
  | some d ↦ stoul_loop base (acc * base + d) cs
]

unfoldable pub stoul : ℕ → List ℕ → Option ℕ
unfolding stoul_loop
stoul base [] = none
stoul base (c ∷ cs) = elim (digit_of base c) [ none ↦ none | some d ↦ some (stoul_loop base d cs) ]

-- `s.substr(pos, n)`, an exception where `pos` lies behind the end.
unfoldable pub substr : List ℕ → ℕ → ℕ → Option (List ℕ)
substr s pos n = if leb pos (length s) then some (take n (drop pos s)) else none

-- `std::bitset<8>(s).to_ulong()`, an exception at any character but 0 and 1.
unfoldable pub bitset_value : ℕ → List ℕ → Option ℕ
bitset_value acc [] = some acc
bitset_value acc (c ∷ cs) = elim (c == char_0) [
  | true ↦ bitset_value (acc * 2) cs
  | false ↦ elim (c == char_1) [ true ↦ bitset_value (acc * 2 + 1) cs | false ↦ none ]
]

unfoldable pub hex_loop : ℕ → List ℕ → List ℕ → Option (List ℕ)
unfolding bitset_value hex_string
hex_loop zero s acc = some acc
hex_loop (suc fuel) s acc = elim s [
  | [] ↦ some acc
  | c ∷ cs ↦ elim (bitset_value 0 (take 8 (c ∷ cs))) [
    | none ↦ none
    | some v ↦ hex_loop fuel (drop 8 (c ∷ cs)) (acc ++ hex_string 2 v)
  ]
]

-- `binaryStringToHex`, in steps of eight characters; there are no more steps than characters.
unfoldable pub binary_string_to_hex : List ℕ → Option (List ℕ)
unfolding hex_loop
binary_string_to_hex s = hex_loop (length s) s []
