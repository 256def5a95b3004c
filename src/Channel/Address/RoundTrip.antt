-- ===== src/Channel/Address/RoundTrip.antt =====
-- An address that is made of its parts is read back as those parts.
use libatbus.Base.{
  ℕ, ◌+◌, ◌-◌, ◌%◌, ◌^◌, ◌<◌, ◌≡◌, refl, sym, ap, ap₂, subst, ◌∙◌, Bool, true, false, Option, none,
  some, List, [], ◌∷◌, ◌++◌, length, take, drop, take_all, take-append, drop-append, length-append,
  All, arith, Bool-cases, inl, inr, if◌then◌else◌, if_true, if_false, le→leb, lt→leb-false, ◌==◌,
  leb, ltb,
}
use libatbus.Channel.Address.{
  ℤ, pos, positive, ChannelAddress, colon, is_mark, find_first_of, find_last_of, substr, host_size,
  port_of, parts_of, read_address, make_address,
}

abbrev pub NoMark : List ℕ → Type 0
NoMark s = All (λ c. is_mark c ≡ false) s

abbrev pub NoColon : List ℕ → Type 0
NoColon s = All (λ c. (c == colon) ≡ false) s

first-append : (s t : List ℕ) → NoMark s → find_first_of (s ++ colon ∷ t) ≡ some (length s)
unfolding find_first_of
first-append [] t h = refl
first-append (c ∷ s) t (h, hs) = rw (h, first-append s t hs) refl

last_none : (t : List ℕ) → NoColon t → find_last_of t ≡ none
unfolding find_last_of
last_none [] h = refl
last_none (c ∷ t) (h, ht) = rw (last_none t ht, h, find_last_of) refl

last-append : (s t : List ℕ) → NoColon t → find_last_of (s ++ colon ∷ t) ≡ some (length s)
unfolding find_last_of
last-append [] t h = rw (last_none t h, find_last_of) refl
last-append (c ∷ s) t h = rw (last-append s t h, find_last_of) refl

abbrev marked : List ℕ → List ℕ → List ℕ
marked scheme tail = scheme ++ colon ∷ b'/' ∷ b'/' ∷ tail

rest_of : (scheme tail : List ℕ) → substr (length scheme + 3) (marked scheme tail) ≡ some tail
unfolding substr
rest_of scheme tail =
    if_false (ltb (length (marked scheme tail)) (length scheme + 3)) _ _
      (ground (arith, length-append scheme (colon ∷ b'/' ∷ b'/' ∷ tail)))
    ∙ ap some (drop-append scheme (colon ∷ b'/' ∷ b'/' ∷ tail) 3)

-- What is read where the last colon is at `p`.
abbrev parts : (List ℕ → Option ℤ) → List ℕ → List ℕ → ℕ → ChannelAddress
parts sscanf scheme tail p = record {
  address = marked scheme tail;
  scheme = scheme;
  host = take (host_size (some p) (length scheme)) tail;
  port = port_of sscanf (marked scheme tail) (some p) (length scheme);
}

read_first :
    (sscanf : List ℕ → Option ℤ) (input : List ℕ) (i : ℕ) (addr : ChannelAddress)
    → find_first_of input ≡ some i
    → read_address sscanf input addr
      ≡ parts_of sscanf input (find_last_of input) i (substr (i + 3) input)
unfolding read_address
read_first sscanf input i addr e = rw (e, read_address) refl

with_scheme : (List ℕ → Option ℤ) → List ℕ → List ℕ → ℕ → List ℕ → Option (ChannelAddress × Bool)
with_scheme sscanf scheme tail p start =
    some (record (parts sscanf scheme tail p) { scheme = start }, true)

read_parts :
    (sscanf : List ℕ → Option ℤ) (scheme tail : List ℕ) (p : ℕ) (addr : ChannelAddress)
    → NoMark scheme
    → find_last_of (marked scheme tail) ≡ some p
    → read_address sscanf (marked scheme tail) addr ≡ some (parts sscanf scheme tail p, true)
unfolding parts_of with_scheme
read_parts sscanf scheme tail p addr h e =
    let input : List ℕ = marked scheme tail in
    let i : ℕ = length scheme in
    read_first sscanf input i addr (first-append scheme (b'/' ∷ b'/' ∷ tail) h)
    ∙ ap (λ last. parts_of sscanf input last i (substr (i + 3) input)) e
    ∙ ap (parts_of sscanf input (some p) i) (rest_of scheme tail)
    ∙ ap (with_scheme sscanf scheme tail p) (take-append scheme (colon ∷ b'/' ∷ b'/' ∷ tail))

append_assoc : (r s t : List ℕ) → (r ++ s) ++ t ≡ r ++ (s ++ t)
append_assoc [] s t = refl
append_assoc (c ∷ r) s t = ap (λ s. c ∷ s) (append_assoc r s t)

split_at :
    (scheme host digits : List ℕ)
    → marked scheme host ++ colon ∷ digits ≡ marked scheme (host ++ colon ∷ digits)
split_at scheme host digits = append_assoc scheme (colon ∷ b'/' ∷ b'/' ∷ host) (colon ∷ digits)

length-marked :
    (scheme host : List ℕ) → length (marked scheme host) ≡ length scheme + 3 + length host
length-marked scheme host = omega (arith, length-append scheme (colon ∷ b'/' ∷ b'/' ∷ host))

-- What is read of an address with these parts.
result : List ℕ → List ℕ → List ℕ → ℤ → Option (ChannelAddress × Bool)
result input scheme host port =
    some (record { address = input; scheme = scheme; host = host; port = port }, true)

read_port : (List ℕ → Option ℤ) → List ℕ → ℤ
read_port sscanf digits = elim (sscanf digits) [ none ↦ pos 0 | some n ↦ n ]

-- With a port: the last colon is the one in front of it.
with_port :
    (sscanf : List ℕ → Option ℤ) (scheme host digits : List ℕ) (port : ℤ) (addr : ChannelAddress)
    → NoMark scheme
    → NoColon digits
    → length scheme + length host < 2 ^ 63
    → sscanf digits ≡ some port
    → read_address sscanf (marked scheme (host ++ colon ∷ digits)) addr
      ≡ result (marked scheme (host ++ colon ∷ digits)) scheme host port
unfolding host_size port_of result read_port
with_port sscanf scheme host digits port addr hs hd l e =
    read_parts sscanf scheme (host ++ colon ∷ digits) p addr hs last
    ∙ ap₂ (result input scheme) host_eq port_eq
  where
    p : ℕ
    p = length scheme + 3 + length host

    input : List ℕ
    input = marked scheme (host ++ colon ∷ digits)

    last : find_last_of input ≡ some p
    last =
        subst (λ s. find_last_of s ≡ some p) (split_at scheme host digits)
          (last-append (marked scheme host) digits hd ∙ ap some (length-marked scheme host))

    size : (p + 2 ^ 64 - length scheme - 3) % 2 ^ 64 ≡ length host
    size = omega arith

    host_eq : take ((p + 2 ^ 64 - length scheme - 3) % 2 ^ 64) (host ++ colon ∷ digits) ≡ host
    host_eq = ap (λ n. take n (host ++ colon ∷ digits)) size ∙ take-append host (colon ∷ digits)

    behind : drop (p + 1) input ≡ digits
    behind =
        subst (λ s. drop (p + 1) s ≡ digits) (split_at scheme host digits)
          (subst (λ n. drop (n + 1) (marked scheme host ++ colon ∷ digits) ≡ digits)
            (length-marked scheme host) (drop-append (marked scheme host) (colon ∷ digits) 1))

    port_eq :
        (if leb (length scheme + 3) p then read_port sscanf (drop (p + 1) input) else pos 0) ≡ port
    port_eq =
        if_true (leb (length scheme + 3) p) _ _ (le→leb (length scheme + 3) p (omega arith))
        ∙ ap (read_port sscanf) behind
        ∙ rw (e, read_port) refl

-- Without a port: the last colon is that of the mark.
without_port :
    (sscanf : List ℕ → Option ℤ) (scheme host : List ℕ) (addr : ChannelAddress)
    → NoMark scheme
    → NoColon host
    → length scheme + length host < 2 ^ 63
    → read_address sscanf (marked scheme host) addr
      ≡ result (marked scheme host) scheme host (pos 0)
unfolding host_size port_of result
without_port sscanf scheme host addr hs hh l =
    read_parts sscanf scheme host (length scheme) addr hs
      (last-append scheme (b'/' ∷ b'/' ∷ host) (refl, (refl, hh)))
    ∙ ap₂ (result (marked scheme host) scheme)
        (take_all ((length scheme + 2 ^ 64 - length scheme - 3) % 2 ^ 64) host (omega arith))
        (if_false (leb (length scheme + 3) (length scheme)) _ _
          (lt→leb-false (length scheme + 3) (length scheme) (omega arith)))

-- If the scheme has no `:` and no `/`, scheme and host have less than 2 ^ 63 bytes together, what
-- snprintf prints of the port has no `:` and sscanf reads it back where the port is positive, and the
-- host has no `:` where it is not, then reading the address that make_address makes gives what
-- make_address has set, but a port that is not positive is read back as 0.
pub read_address-make_address :
    (snprintf : ℤ → List ℕ) (sscanf : List ℕ → Option ℤ) (scheme host : List ℕ) (port : ℤ)
    (addr : ChannelAddress)
    → NoMark scheme
    → length scheme + length host < 2 ^ 63
    → (positive port ≡ true → NoColon (snprintf port))
    → (positive port ≡ true → sscanf (snprintf port) ≡ some port)
    → (positive port ≡ false → NoColon host)
    → read_address sscanf (make_address snprintf scheme host port).address addr
      ≡ some (
        record (make_address snprintf scheme host port) {
          port = if positive port then port else pos 0;
        },
        true,
      )
unfolding make_address result
read_address-make_address snprintf sscanf scheme host port addr hm l hp hs hh =
    elim (Bool-cases (positive port)) [
      | inr np ↦ rw np (without_port sscanf scheme host addr hm (hh np) l)
      | inl p ↦ rw p (
          subst (λ input. read_address sscanf input addr ≡ result input scheme host port)
            (sym (split_at scheme host (snprintf port)))
            (with_port sscanf scheme host (snprintf port) port addr hm (hp p) l (hs p)))
    ]
