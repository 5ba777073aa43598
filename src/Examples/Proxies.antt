-- ===== src/Examples/Proxies.antt =====
-- A negotiation with a SOCKS5 proxy on concrete bytes.
use tunnelfetch.Prelude.{[], ◌∷◌, ◌≡◌, refl}
use tunnelfetch.Prelude.Texts.{includes, split}
use tunnelfetch.Errors.{ok}
use tunnelfetch.Reader.{ByteReader, open_reader}
use tunnelfetch.Reader.Buffer.{pending, open_reader-Valid}
use tunnelfetch.Hpack.StaticTable.{units}
use tunnelfetch.Identity.Addresses.{all_digits, digit, decimal, parse_group, hexadecimal, hex_value}
use tunnelfetch.Socks5.{Proxy, negotiate}
use tunnelfetch.Socks5.Addresses.{parse_ipv6}
use tunnelfetch.Socks5.Credentials.{Writes, IsCareful, negotiate-IsCareful}

abbrev proxy : Proxy
proxy = record { username = units "u"; password = units "p" }

-- The proxy chooses the credentials, accepts them, and opens the tunnel from 1.2.3.4:80.
abbrev answers : ByteReader
answers =
    open_reader ((5 ∷ 2 ∷ 1 ∷ []) ∷ (0 ∷ 5 ∷ 0 ∷ 0 ∷ 1 ∷ 1 ∷ 2 ∷ 3 ∷ 4 ∷ 0 ∷ 80 ∷ 22 ∷ []) ∷ [])

negotiate-IsCareful_example :
    Writes
      (IsCareful (λ t. t) proxy (units "a.example") 443 (pending answers))
      (negotiate (λ t. t) proxy (units "a.example") 443 [] answers)
negotiate-IsCareful_example =
    negotiate-IsCareful (λ t. t) proxy (units "a.example") 443 answers
      (open_reader-Valid
        ((5 ∷ 2 ∷ 1 ∷ []) ∷ (0 ∷ 5 ∷ 0 ∷ 0 ∷ 1 ∷ 1 ∷ 2 ∷ 3 ∷ 4 ∷ 0 ∷ 80 ∷ 22 ∷ []) ∷ []))

-- Eight groups before an embedded IPv4 address are taken for six.
ten_groups :
    parse_ipv6 (units "1:2:3:4:5:6:7:8:1.2.3.4")
    ≡ ok (0 ∷ 1 ∷ 0 ∷ 2 ∷ 0 ∷ 3 ∷ 0 ∷ 4 ∷ 0 ∷ 5 ∷ 0 ∷ 6 ∷ 1 ∷ 2 ∷ 3 ∷ 4 ∷ [])
unfolding parse_ipv6 split includes all_digits digit decimal parse_group hexadecimal hex_value
ten_groups = refl
