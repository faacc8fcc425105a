-- ===== src/Runtime/Names.antt =====
-- The names that internal/runtime/runtime.go gives to containers and host interfaces.
pub mod Laws
use Prim.Native.Nat.{compare, Ordering}
use Prim.Native.Char.{char, nul}
use Prim.Native.String as Str
use frridge.Base.{
  ℕ, ◌+◌, String, Char, code, Bool, ◌&&◌, ◌||◌, ◌≡◌, refl, ◌<>◌, if◌then◌else◌, leb, nat_eq,
}
use frridge.Base.Text.{trim}
use frridge.Base.Slices.{take_chars}
use frridge.State.{Hashing, bridge_name}

rune_below : (n : ℕ) (o : Ordering) → compare n 55296 ≡ o → Char
rune_below n Ordering.lt e = char n (rw e tt)
rune_below n Ordering.eq e = nul
rune_below n Ordering.gt e = nul

-- The character with a code below the surrogates.
unfoldable pub rune : ℕ → Char
unfolding rune_below
rune n = rune_below n (compare n 55296) refl

abbrev pub is_lower : Char → Bool
is_lower c = leb b'a' (code c) && leb (code c) b'z'

abbrev pub is_upper : Char → Bool
is_upper c = leb b'A' (code c) && leb (code c) b'Z'

abbrev pub is_digit : Char → Bool
is_digit c = leb b'0' (code c) && leb (code c) b'9'

abbrev pub is_dash : Char → Bool
is_dash c = nat_eq (code c) b'-'

unfoldable pub sanitize_rune : Char → Char
sanitize_rune c =
    if is_lower c
    then c
    else if is_upper c
    then rune (code c + 32)
    else if is_digit c
    then c
    else "-"

unfoldable pub sanitize_runes : String → String
sanitize_runes Str.[] = ""
sanitize_runes (Str.◌∷◌ c s) = Str.◌∷◌ (sanitize_rune c) (sanitize_runes s)

unfoldable pub sanitize_name : String → String
sanitize_name value = trim is_dash (sanitize_runes value)

unfoldable pub container_name : String → String → String
container_name lab router = sanitize_name ("frridge-" <> (lab <> ("-" <> router)))

module _ (h : Hashing) where
  unfoldable pub short_name : String → String → String
  short_name prefix key = prefix <> take_chars 11 (h.sha1_hex key)

  unfoldable pub bridge_link_name : String → String → String
  bridge_link_name lab link = bridge_name h lab link

  unfoldable pub bridge_port_name : String → String → String → String → String
  bridge_port_name lab link router if_name =
      short_name "frh"
        (lab <> ("/" <> (link <> ("/" <> (router <> ("/" <> (if_name <> "/host")))))))

  unfoldable pub bridge_peer_name : String → String → String → String → String
  bridge_peer_name lab link router if_name =
      short_name "frp"
        (lab <> ("/" <> (link <> ("/" <> (router <> ("/" <> (if_name <> "/peer")))))))

  unfoldable pub namespace_host_veth_name : String → String → String
  namespace_host_veth_name bridge namespace =
      short_name "fnh" (bridge <> ("/" <> (namespace <> "/host")))

  unfoldable pub namespace_peer_veth_name : String → String → String
  namespace_peer_veth_name bridge namespace =
      short_name "fnp" (bridge <> ("/" <> (namespace <> "/peer")))

  unfoldable pub p2p_temp_name : String → String → String → String
  p2p_temp_name lab link side = short_name "frt" (lab <> ("/" <> (link <> ("/" <> side))))
