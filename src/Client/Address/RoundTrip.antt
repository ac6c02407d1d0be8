-- ===== src/Client/Address/RoundTrip.antt =====
-- client/address.go: what ParseAddress accepts, and that it reads back what String writes.
use sund.Prelude.{
  ℕ, ◌≡◌, ◌≢◌, inl, inr, ◌≤◌, refl, subst, true, false, Option, none, some, String, ◌<>◌, ◌==◌,
  eq_iff, ℤ, pos, negsuc, nat_eq, arith, Option-cases, Bool-cases,
}
use sund.Client.Address.{
  Mode, pinned, web_pki, other_mode, Address, Url, UrlLibrary, parsed, valid_fingerprint, port_of,
  max_port, parse_pinned, web_port, parse_web_pki, parse_address, to_string,
}

-- What an address needs in its mode: a fingerprint when it is pinned, a name and no fingerprint
-- otherwise.
abbrev pub FitsMode : UrlLibrary → Mode → Address → Type 0
FitsMode lib pinned a = valid_fingerprint a.fingerprint ≡ true
FitsMode lib web_pki a = (a.fingerprint ≡ "") × (lib.is_ip a.host ≡ false)
FitsMode lib other_mode a = ⊥

pub record IsAddress (lib : UrlLibrary) (a : Address) : Type 0 where
  pub host : a.host ≢ ""
  pub port : (n : ℕ) × (a.port ≡ pos n) × (1 ≤ n) × (n ≤ max_port)
  pub fits : FitsMode lib a.mode a

-- The URL of a scheme, a host, a port and a fragment alone.
abbrev pub origin : String → String → String → String → Url
origin scheme host port fragment = record {
  scheme = scheme;
  has_user = false;
  path = "";
  raw_query = "";
  opaque = "";
  hostname = host;
  port = port;
  fragment = fragment;
}

port_of-bounds :
    (o : Option ℤ) (p : ℤ) → port_of o ≡ some p → (n : ℕ) × (p ≡ pos n) × (1 ≤ n) × (n ≤ max_port)
unfolding port_of
port_of-bounds none p e = absurd (cc e)
port_of-bounds (some (negsuc n)) p e = absurd (cc e)
port_of-bounds (some (pos n)) p e = (n, ground arith, ground arith, ground arith)

module _ (lib : UrlLibrary) where
  made :
      (m : Mode) (h : String) (port : ℤ) (f : String) (o : Option ℤ)
      → h ≢ ""
      → port_of o ≡ some port
      → let a : Address = record { mode = m; host = h; port = port; fingerprint = f } in
        FitsMode lib m a → IsAddress lib a
  made m h port f o e p fits = record { host = e; port = port_of-bounds o port p; fits = fits }

  parse_pinned-IsAddress :
      (u : Url) (a : Address) → u.hostname ≢ "" → parse_pinned lib u ≡ parsed a → IsAddress lib a
  unfolding parse_pinned
  parse_pinned-IsAddress u a h e = elim (Option-cases (port_of (lib.atoi u.port))) [
    | inl p ↦ absurd (ground arith)
    | inr (port, p) ↦
        subst (IsAddress lib) (ground arith)
          (made pinned u.hostname port u.fragment (lib.atoi u.port) h p (ground arith))
  ]

  web_port-bounds :
      (u : Url) (p : ℤ) → web_port lib u ≡ some p → (n : ℕ) × (p ≡ pos n) × (1 ≤ n) × (n ≤ max_port)
  unfolding web_port
  web_port-bounds u p e = elim (Bool-cases (u.port == "")) [
    | inl q ↦ (443, ground arith, omega arith, omega arith)
    | inr q ↦ port_of-bounds (lib.atoi u.port) p (ground arith)
  ]

  parse_web_pki-IsAddress :
      (s : String) (u : Url) (a : Address)
      → u.hostname ≢ ""
      → parse_web_pki lib s u ≡ parsed a
      → IsAddress lib a
  unfolding parse_web_pki
  parse_web_pki-IsAddress s u a h e = elim (Option-cases (web_port lib u)) [
    | inl p ↦ absurd (ground arith)
    | inr (port, p) ↦
        let b : Address = record {
          mode = web_pki;
          host = u.hostname;
          port = port;
          fingerprint = "";
        } in
        let same : b ≡ a = ground arith in
        subst (IsAddress lib) same
          (record { host = h; port = web_port-bounds u port p; fits = (refl, ground arith) })
  ]

  -- What ParseAddress accepts has a host, a port from 1 to 65535, and what its mode needs: a
  -- fingerprint of 64 lowercase hexadecimal digits when it is pinned, and otherwise no fingerprint
  -- and a host that is no IP address.
  pub parse_address-IsAddress :
      (s : String) (a : Address) → parse_address lib s ≡ parsed a → IsAddress lib a
  unfolding parse_address
  parse_address-IsAddress s a e = elim (Option-cases (lib.parse s)) [
    | inl p ↦ absurd (ground arith)
    | inr (u, p) ↦
        let h : u.hostname ≢ "" = λ q. ground (arith, eq_iff u.hostname "", q) in
        elim (Bool-cases (u.scheme == "sund")) [
          | inl q ↦ parse_pinned-IsAddress u a h (ground arith)
          | inr q ↦ parse_web_pki-IsAddress s u a h (ground arith)
        ]
  ]

-- net/url, net, strconv and strings read a URL of a scheme, a host, a port and a fragment alone as it
-- is put together from them; the port is read back as a number; and a URL without a fragment has no
-- `#`.
pub record Reads (lib : UrlLibrary) (a : Address) : Type 0 where
  pub pinned_url :
      a.mode ≡ pinned
      → lib.parse
          ("sund://" <> (lib.join_host_port a.host (lib.itoa a.port) <> ("#" <> a.fingerprint)))
        ≡ some (origin "sund" a.host (lib.itoa a.port) a.fingerprint)
  pub web_url :
      a.mode ≡ web_pki
      → lib.parse ("sund+webpki://" <> a.host) ≡ some (origin "sund+webpki" a.host "" "")
  pub web_port_url :
      a.mode ≡ web_pki
      → lib.parse ("sund+webpki://" <> lib.join_host_port a.host (lib.itoa a.port))
        ≡ some (origin "sund+webpki" a.host (lib.itoa a.port) "")
  pub atoi : lib.atoi (lib.itoa a.port) ≡ some a.port
  pub itoa : lib.itoa a.port ≢ ""
  pub no_hash : a.mode ≡ web_pki → lib.contains ("sund+webpki://" <> a.host) "#" ≡ false
  pub no_hash_port :
      a.mode ≡ web_pki
      → lib.contains ("sund+webpki://" <> lib.join_host_port a.host (lib.itoa a.port)) "#" ≡ false

module _ (lib : UrlLibrary) where
  read_back :
      (m : Mode) (h : String) (p : ℤ) (f : String)
      → let a : Address = record { mode = m; host = h; port = p; fingerprint = f } in
        IsAddress lib a → Reads lib a → parse_address lib (to_string lib a) ≡ parsed a
  unfolding parse_address parse_pinned parse_web_pki web_port port_of to_string
  read_back other_mode h p f v r = absurd v.fits
  read_back m h (negsuc n) f v r = absurd (cc v.port.1)
  read_back pinned h (pos n) f v r = ground (
    arith,
    r.pinned_url refl,
    r.atoi,
    r.itoa,
    eq_iff h "",
    eq_iff (lib.itoa (pos n)) "",
    v.host,
    v.port,
    v.fits,
  )
  read_back web_pki h (pos n) f v r = elim (Bool-cases (nat_eq n 443)) [
    | inl e ↦
        ground (arith, r.web_url refl, r.no_hash refl, eq_iff h "", eq_iff f "", v.host, v.fits)
    | inr e ↦ ground (
      arith,
      r.web_port_url refl,
      r.no_hash_port refl,
      r.atoi,
      r.itoa,
      eq_iff h "",
      eq_iff f "",
      eq_iff (lib.itoa (pos n)) "",
      v.host,
      v.port,
      v.fits,
    )
  ]

  -- An address with a host, a port from 1 to 65535 and what its mode needs is read back by
  -- ParseAddress from the text that String writes for it, when net/url reads a URL of a scheme, a
  -- host, a port and a fragment as it is put together from them, strconv reads a port back, and a
  -- URL without a fragment has no `#`.
  pub parse_address-to_string :
      (a : Address) → IsAddress lib a → Reads lib a → parse_address lib (to_string lib a) ≡ parsed a
  parse_address-to_string a v r = read_back a.mode a.host a.port a.fingerprint v r
