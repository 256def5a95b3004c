-- ===== src/Channel/Address/Tests.antt =====
-- Runs with a decimal printer and reader of ports.
use libatbus.Base.{
  ℕ, zero, suc, ◌+◌, ◌-◌, ◌*◌, ◌/◌, ◌%◌, ◌≡◌, refl, Bool, true, false, ◌&&◌, Option, none, some,
  List, [], ◌∷◌, ◌++◌, arith, if◌then◌else◌, leb, ltb, ◌==◌,
}
use libatbus.Channel.Address.{ℤ, pos, negsuc, ChannelAddress, read_address, make_address}
use libatbus.Channel.Address.RoundTrip.{read_address-make_address}

-- At most ten digits, which every `int` has.
abbrev digits : ℕ → ℕ → List ℕ
digits zero n = []
digits (suc k) n =
    let front : List ℕ = digits k (n / 10) in
    (if ltb n 10 then [] else front) ++ (b'0' + n % 10) ∷ []

abbrev print : ℤ → List ℕ
print (pos n) = digits 10 n
print (negsuc n) = b'-' ∷ digits 10 (suc n)

abbrev is_digit : ℕ → Bool
is_digit c = leb b'0' c && leb c b'9'

abbrev scan_digits : ℕ → List ℕ → ℕ
scan_digits n [] = n
scan_digits n (c ∷ s) =
    let rest : ℕ = scan_digits (n * 10 + (c - b'0')) s in if is_digit c then rest else n

abbrev negated : ℕ → ℤ
negated zero = pos 0
negated (suc n) = negsuc n

abbrev scan : List ℕ → Option ℤ
scan [] = none
scan (c ∷ s) =
    if is_digit c
    then some (pos (scan_digits 0 (c ∷ s)))
    else if c == b'-'
    then some (negated (scan_digits 0 s))
    else none

abbrev unset : ChannelAddress
unset = record { address = []; scheme = []; host = []; port = negsuc 0 }

abbrev ipv4 : List ℕ
ipv4 = b'i' ∷ b'p' ∷ b'v' ∷ b'4' ∷ []

abbrev local : List ℕ
local = b'h' ∷ b':' ∷ b'o' ∷ []

read_address-make_address_example :
    read_address scan (make_address print ipv4 local (pos 8123)).address unset
    ≡ some (make_address print ipv4 local (pos 8123), true)
unfolding make_address
read_address-make_address_example =
    read_address-make_address print scan ipv4 local (pos 8123) unset
      (refl, (refl, (refl, (refl, tt)))) (omega arith) (λ p. (refl, (refl, (refl, (refl, tt)))))
      (λ p. refl) (λ np. cc np)

-- A negative port is lost. Text without a mark is refused, and text that ends at the mark is out of
-- range.
runs :
    (print (negsuc 11) ≡ b'-' ∷ b'1' ∷ b'2' ∷ [])
    × (scan (print (negsuc 11)) ≡ some (negsuc 11))
    × (read_address scan (make_address print ipv4 ipv4 (negsuc 11)).address unset
        ≡ some (record (make_address print ipv4 ipv4 (negsuc 11)) { port = pos 0 }, true))
    × (read_address scan ipv4 unset ≡ some (record unset { address = ipv4 }, false))
    × (read_address scan (b'a' ∷ b':' ∷ b'b' ∷ []) unset ≡ none)
unfolding read_address make_address
runs = (refl, refl, refl, refl, refl)
