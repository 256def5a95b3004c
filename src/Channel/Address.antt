-- ===== src/Channel/Address.antt =====
-- The addresses of channels: the two `make_address` of src/channel_utility.cpp. Strings are lists of
-- bytes. `snprintf` and `sscanf` with the format "%d" are parameters. A port is an `int`, of any sign;
-- nothing here computes with it, so no operation can leave its range.
pub mod RoundTrip
mod Tests
use libatbus.Base.{
  ℕ, zero, suc, ◌+◌, ◌-◌, ◌%◌, ◌^◌, Bool, true, false, ◌&&◌, ◌||◌, Option, none, some, List, [],
  ◌∷◌, ◌++◌, length, take, drop, if◌then◌else◌, ◌==◌, leb, ltb,
}

-- `negsuc n` is -(n + 1)
pub data ℤ : Type 0 where
  pos : ℕ → ℤ
  negsuc : ℕ → ℤ

-- `port > 0`
abbrev pub positive : ℤ → Bool
positive (pos n) = ltb 0 n
positive (negsuc n) = false

pub record ChannelAddress : Type 0 where
  pub address : List ℕ
  pub scheme : List ℕ
  pub host : List ℕ
  pub port : ℤ

abbrev pub colon : ℕ
colon = b':'

-- `find_first_of("://")`, which looks for one of the characters.
abbrev pub is_mark : ℕ → Bool
is_mark c = (c == colon) || (c == b'/')

unfoldable pub find_first_of : List ℕ → Option ℕ
find_first_of [] = none
find_first_of (c ∷ s) =
    let rest : Option ℕ = elim (find_first_of s) [ none ↦ none | some i ↦ some (suc i) ] in
    if is_mark c then some 0 else rest

unfoldable pub find_last_of : List ℕ → Option ℕ
find_last_of [] = none
find_last_of (c ∷ s) = elim (find_last_of s) [
  | some i ↦ some (suc i)
  | none ↦ if c == colon then some 0 else none
]

-- From `start` to the end; the exception out_of_range is none.
unfoldable pub substr : ℕ → List ℕ → Option (List ℕ)
substr start s = if ltb (length s) start then none else some (drop start s)

-- `port_end - scheme_end - 3` on `size_t`, where `npos` stands for all that is left.
unfoldable pub host_size : Option ℕ → ℕ → ℕ
host_size none scheme_end = 2 ^ 64 - 1
host_size (some port_end) scheme_end = (port_end + 2 ^ 64 - scheme_end - 3) % 2 ^ 64

unfoldable pub port_of : (List ℕ → Option ℤ) → List ℕ → Option ℕ → ℕ → ℤ
port_of sscanf address none scheme_end = pos 0
port_of sscanf address (some port_end) scheme_end =
    let port : ℤ = elim (sscanf (drop (port_end + 1) address)) [ none ↦ pos 0 | some n ↦ n ] in
    if leb (scheme_end + 3) port_end then port else pos 0

-- The parts, with what lies behind the mark.
unfoldable pub parts_of :
    (List ℕ → Option ℤ) → List ℕ → Option ℕ → ℕ → Option (List ℕ) → Option (ChannelAddress × Bool)
unfolding host_size port_of
parts_of sscanf input port_end scheme_end none = none
parts_of sscanf input port_end scheme_end (some rest) = some (
  record {
    address = input;
    scheme = take scheme_end input;
    host = take (host_size port_end scheme_end) rest;
    port = port_of sscanf input port_end scheme_end;
  },
  true,
)

-- `make_address` of a string. Without a mark only the address is set; none is the exception.
unfoldable pub read_address :
    (List ℕ → Option ℤ) → List ℕ → ChannelAddress → Option (ChannelAddress × Bool)
unfolding find_first_of find_last_of substr parts_of
read_address sscanf input addr = elim (find_first_of input) [
  | none ↦ some (record addr { address = input }, false)
  | some scheme_end ↦
      parts_of sscanf input (find_last_of input) scheme_end (substr (scheme_end + 3) input)
]

-- `make_address` of a scheme, a host and a port.
unfoldable pub make_address : (ℤ → List ℕ) → List ℕ → List ℕ → ℤ → ChannelAddress
make_address snprintf scheme host port =
    let base = scheme ++ colon ∷ b'/' ∷ b'/' ∷ host in
    record {
      address = if positive port then base ++ colon ∷ snprintf port else base;
      scheme = scheme;
      host = host;
      port = port;
    }
